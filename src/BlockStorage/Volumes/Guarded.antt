-- ===== src/BlockStorage/Volumes/Guarded.antt =====
-- What a method may ask OpenStack to change.
use rcp_server.Base.{
  ℕ, ◌≡◌, refl, ◌∙◌, inl, inr, true, false, ◌||◌, List, [], ◌∷◌, some, Text, text_eq, codes, find,
  ap, sym, subst, Bool-cases, Option-cases,
}
use rcp_server.Stdlib.Strings.{trim_space}
use rcp_server.Effects.{Result, ok, err, continue, ◌>>=◌, next_fault}
use rcp_server.BlockStorage.{
  Error, Volume, Snapshot, VolumeAttachment, InstanceRow, CloudCall, CloudReply, World, Service,
  gets_volume, gets_snapshot, gets_instance, deletes_volume, deletes_snapshot, lists_volumes,
  lists_snapshots, creates_volume, updates_volume, attaches, detaches, creates_snapshot, volume,
  volumes, snapshot, snapshots, done, refused, cloud, cloud_ask, find_instance_name,
  require_instance, with_names, volume_response, resolve_volume, resolve_snapshot, own_volume,
  own_snapshot, is_own, is_instance, an_instance, is_available,
}
use rcp_server.BlockStorage.Volumes.{is_attached}

abbrev pub Log : Type 0
Log = List (CloudCall × CloudReply)

abbrev pub calls : World → Log
calls w = w.remote.calls

abbrev pub instances : World → List InstanceRow
instances w = w.stored.rows

module _ (owner : ℕ) (rows : List InstanceRow) (before : Log) where
  -- the method's first call found a volume of the owner, with a property, by the trimmed id
  abbrev pub Saw : Text → (Volume → Type 0) → Log → Type 0
  Saw id P log =
      (v : Volume) × (is_own owner v.owner ≡ true)
      × P v
      × (log ≡ (gets_volume (trim_space id), volume v) ∷ before)

  abbrev pub SawSnapshot : Text → Log → Type 0
  SawSnapshot id log =
      (s : Snapshot) × (is_own owner s.owner ≡ true)
      × (is_available s.status || text_eq s.status (codes "error") ≡ true)
      × (log ≡ (gets_snapshot (trim_space id), snapshot s) ∷ before)

  abbrev pub IsAvailable : Volume → Type 0
  IsAvailable v = is_available v.status ≡ true

  -- the owner has a row of the instance
  abbrev pub HasInstance : Text → Type 0
  HasInstance id = (row : InstanceRow) × (find (is_instance owner id) rows ≡ some row)

  -- what the calls so far must be for a call
  abbrev pub IsAllowed : CloudCall → Log → Type 0
  IsAllowed (gets_volume _) log = Unit
  IsAllowed (gets_snapshot _) log = Unit
  IsAllowed (gets_instance _) log = Unit
  IsAllowed (lists_volumes o) log = o ≡ owner
  IsAllowed (lists_snapshots o) log = o ≡ owner
  IsAllowed (creates_volume _ o) log = o ≡ owner
  IsAllowed (updates_volume id _ _) log = Saw id (λ _. Unit) log
  IsAllowed (deletes_volume id) log = Saw id IsAvailable log
  IsAllowed (creates_snapshot id _ _ o) log = (o ≡ owner) × Saw id IsAvailable log
  IsAllowed (deletes_snapshot id) log = SawSnapshot id log
  IsAllowed (detaches i id) log =
      HasInstance i × Saw id (λ v. is_attached i v.attachments ≡ true) log
  IsAllowed (attaches i id) log =
      HasInstance i
      × ((r : CloudReply) × ((earlier : Log) × (an_instance r ≡ ok tt)
            × Saw id IsAvailable earlier
            × (log ≡ (gets_instance i, r) ∷ earlier)))

  pub data IsGuarded : Log → Type 0 where
    begun : (log : Log) → log ≡ before → IsGuarded log
    called :
        (c : CloudCall) (r : CloudReply) (earlier log : Log)
        → log ≡ (c, r) ∷ earlier
        → IsAllowed c earlier
        → IsGuarded earlier
        → IsGuarded log

module _ (owner : ℕ) (w : World) where
  abbrev pub G : World → Type 0
  G u = IsGuarded owner (instances w) (calls w) (calls u)

  abbrev pub Allowed : CloudCall → World → Type 0
  Allowed c u = IsAllowed owner (instances w) (calls w) c (calls u)

  pub start : G w
  start = begun (calls w) refl

  pub cloud-G :
      {A : Type 0} (result : CloudReply → Result Error A) (c : CloudCall) (u : World)
      → Allowed c u
      → G u
      → G (cloud result c u).1
  cloud-G result c u allowed g = called c _ (calls u) _ refl allowed g

  pub continue-G :
      {A B : Type 0} (k : A → Service B) (r : Result Error A) (u : World)
      → G u
      → ((a : A) → G (k a u).1)
      → G (continue k (r, u)).1
  continue-G k (ok a) u g h = h a
  continue-G k (err e) u g h = g

  pub checked-G :
      {A B : Type 0} (k : A → Service B) (r : Result Error A) (u : World)
      → G u
      → ((a : A) → r ≡ ok a → G (k a u).1)
      → G (continue k (r, u)).1
  checked-G k (ok a) u g h = h a refl
  checked-G k (err e) u g h = g

  names-calls :
      (attachments : List VolumeAttachment) (u : World)
      → calls (with_names owner attachments u).1 ≡ calls u
  unfolding find_instance_name
  names-calls [] u = refl
  names-calls (a ∷ rest) u = names-calls rest (find_instance_name owner a.instance_id u).1

  pub response-G : (v : Volume) (u : World) → G u → G (volume_response owner v u).1
  unfolding volume_response
  response-G v u g =
      subst (IsGuarded owner (instances w) (calls w)) (sym (names-calls v.attachments u)) g

  pub respond-G :
      (result : CloudReply → Result Error Volume) (c : CloudCall) (u : World)
      → Allowed c u
      → G u
      → G ((cloud result c >>= volume_response owner) u).1
  respond-G result c u allowed g =
      let asked = cloud-G result c u allowed g in
      continue-G (volume_response owner) (cloud result c u).0 (cloud result c u).1 asked
        (λ v. response-G v (cloud result c u).1 asked)

  -- a method that looks a volume up first
  module _ {A : Type 0} (id : Text) (k : Volume → Service A) where
    answered-G :
        (r : CloudReply) (u : World)
        → calls u ≡ (gets_volume (trim_space id), r) ∷ calls w
        → ((v : Volume)
            → is_own owner v.owner ≡ true
            → calls u ≡ (gets_volume (trim_space id), volume v) ∷ calls w
            → G (k v u).1)
        → G u
        → G (continue k (own_volume owner r, u)).1
    answered-G (volume v) u asked h g = elim (Bool-cases (is_own owner v.owner)) [
      | inl own ↦ rw own (h v own asked)
      | inr foreign ↦ rw foreign g
    ]
    answered-G (volumes vs) u asked h g = g
    answered-G (snapshot s) u asked h g = g
    answered-G (snapshots ss) u asked h g = g
    answered-G done u asked h g = g
    answered-G (refused true) u asked h g = g
    answered-G (refused false) u asked h g = g

    pub resolved-G :
        ((v : Volume) (u : World)
          → is_own owner v.owner ≡ true
          → instances u ≡ instances w
          → calls u ≡ (gets_volume (trim_space id), volume v) ∷ calls w
          → G u
          → G (k v u).1)
        → G ((resolve_volume owner id >>= k) w).1
    unfolding resolve_volume
    resolved-G h =
        let (r, u) = cloud_ask (gets_volume (trim_space id)) w in
        let g = cloud-G (own_volume owner) (gets_volume (trim_space id)) w tt start in
        answered-G r u refl (λ v own asked. h v u own refl asked g) g

  -- a method that looks a snapshot up first
  module _ {A : Type 0} (id : Text) (k : Snapshot → Service A) where
    snapshot_answered-G :
        (r : CloudReply) (u : World)
        → calls u ≡ (gets_snapshot (trim_space id), r) ∷ calls w
        → ((s : Snapshot)
            → is_own owner s.owner ≡ true
            → calls u ≡ (gets_snapshot (trim_space id), snapshot s) ∷ calls w
            → G (k s u).1)
        → G u
        → G (continue k (own_snapshot owner r, u)).1
    snapshot_answered-G (snapshot s) u asked h g = elim (Bool-cases (is_own owner s.owner)) [
      | inl own ↦ rw own (h s own asked)
      | inr foreign ↦ rw foreign g
    ]
    snapshot_answered-G (volumes vs) u asked h g = g
    snapshot_answered-G (volume v) u asked h g = g
    snapshot_answered-G (snapshots ss) u asked h g = g
    snapshot_answered-G done u asked h g = g
    snapshot_answered-G (refused true) u asked h g = g
    snapshot_answered-G (refused false) u asked h g = g

    pub snapshot-G :
        ((s : Snapshot) (u : World)
          → is_own owner s.owner ≡ true
          → calls u ≡ (gets_snapshot (trim_space id), snapshot s) ∷ calls w
          → G u
          → G (k s u).1)
        → G ((resolve_snapshot owner id >>= k) w).1
    unfolding resolve_snapshot
    snapshot-G h =
        let (r, u) = cloud_ask (gets_snapshot (trim_space id)) w in
        let g = cloud-G (own_snapshot owner) (gets_snapshot (trim_space id)) w tt start in
        snapshot_answered-G r u refl (λ s own asked. h s u own asked g) g

  -- a call that requires a row of an instance
  module _ {A : Type 0} (id : Text) (k : Unit {0} → Service A) where
    pub required-G :
        (u : World)
        → instances u ≡ instances w
        → G u
        → ((v : World)
            → HasInstance owner (instances w) (calls w) id
            → calls v ≡ calls u
            → G (k tt v).1)
        → G ((require_instance owner id >>= k) u).1
    unfolding find_instance_name
    required-G u same g h = elim (Bool-cases (next_fault u.stored.faults).0) [
      | inl fails ↦ rw fails g
      | inr answers ↦ elim (Option-cases (find (is_instance owner id) (instances u))) [
        | inl absent ↦ rw (answers, absent) g
        | inr (row, there) ↦
            rw (answers, there)
              (h _ (row, ap (find (is_instance owner id)) (sym same) ∙ there) refl)
      ]
    ]
