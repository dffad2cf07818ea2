-- ===== src/Compute/Instances.antt =====
-- service.go and repository.go of internal/domain/compute: the instances of an owner, between the
-- table of the database and OpenStack. OpenStack is a script: the replies that it will give, one to a
-- call, and the log of the calls. A call of the database fails where the next of `faults` says so.
use rcp_server.Base.{
  ℕ, Bool, true, false, not, ◌&&◌, List, [], ◌∷◌, Option, none, some, if◌then◌else◌, ◌==◌, Text,
  text_eq, keep,
}
use rcp_server.Stdlib.Strings.{trim_space}
use rcp_server.Table.{texts, select, upsert}

-- Instance, as the database keeps it, with its owner
pub record Instance : Type 0 where
  pub owner : ℕ
  pub name : Text
  pub status : Text
  pub image_id : Text
  pub flavor_id : Text
  pub key_name : Text
  pub note : Text
  pub created : ℕ

pub record ServerAddress : Type 0 where
  pub address : Text
  pub kind : Text

-- Server; of the maps that OpenStack sends, what the code reads of them
pub record Server : Type 0 where
  pub id : Text
  pub name : Text
  pub status : Text
  pub image_id : Text
  pub flavor_id : Text
  pub addresses : List ServerAddress
  pub key_name : Text
  pub access_ipv4 : Text
  pub created : ℕ

pub record CreateServerOpts : Type 0 where
  pub name : Text
  pub image_ref : Text
  pub flavor_ref : Text
  pub key_name : Text
  pub note : Text
  pub security_groups : List Text
  pub networks : List Text

pub record UpdateInstanceRequest : Type 0 where
  pub name : Text
  pub key_name : Text
  pub note : Text

pub data Error : Type 0 where
  name_required image_required flavor_required instance_not_found operation_failed create_failed :
      Error

pub data Result {ℓ} (A : Type ℓ) : Type ℓ where
  ok : A → Result A
  err : Error → Result A

pub data CloudCall : Type 0 where
  creates : (opts : CreateServerOpts) → CloudCall
  renames : (id name : Text) → CloudCall
  pauses unpauses deletes fetches : (id : Text) → CloudCall
  fetches_all : CloudCall

-- what OpenStack replies: a server, a list of servers, a bare success, or an error with its class
pub data CloudReply : Type 0 where
  served : Server → CloudReply
  listed : List Server → CloudReply
  accepted : CloudReply
  refused : (not_found : Bool) → CloudReply

pub record World : Type 0 where
  pub rows : List (Text × Instance)
  pub faults : List Bool
  pub replies : List CloudReply
  pub calls : List (CloudCall × CloudReply)

abbrev pub Service : Type 0 → Type 0
Service A = World → Result A × World

-- The next reply; a script that has ended refuses.
abbrev pub next_reply : List CloudReply → CloudReply × List CloudReply
next_reply [] = (refused false, [])
next_reply (r ∷ rs) = (r, rs)

abbrev pub ask : CloudCall → World → CloudReply × World
ask c w =
    let (r, rest) = next_reply w.replies in
    (r, record w { replies = rest; calls = (c, r) ∷ w.calls })

-- a call of the client that returns an error or nothing
abbrev pub accepts : CloudReply → Bool
accepts (refused _) = false
accepts _ = true

abbrev pub next_fault : List Bool → Bool × List Bool
next_fault [] = (false, [])
next_fault (f ∷ fs) = (f, fs)

-- a call of the repository that works, or leaves the rows as they were
abbrev pub repo_call :
    {A : Type 0} → (List (Text × Instance) → Result (A × List (Text × Instance))) → Service A
repo_call run w =
    let (failed, rest) = next_fault w.faults in
    if failed then (err operation_failed, record w { faults = rest }) else elim (run w.rows) [
      | ok (a, rows) ↦ (ok a, record w { rows = rows; faults = rest })
      | err e ↦ (err e, record w { faults = rest })
    ]

infixl 30 ◌>>=◌
abbrev pub ◌>>=◌ : {A B : Type 0} → Service A → (A → Service B) → Service B
(m >>= k) w = let (r, w') = m w in elim r [ ok a ↦ k a w' | err e ↦ (err e, w') ]

abbrev pub fail : {A : Type 0} → Error → Service A
fail e w = (err e, w)

-- an owner's row
abbrev pub mine : ℕ → Option Instance → Option Instance
mine owner none = none
mine owner (some inst) = if inst.owner == owner then some inst else none

-- FindByOpenstackID
unfoldable pub find_by_openstack_id : ℕ → Text → Service (Option Instance)
find_by_openstack_id owner id = repo_call (λ rows. ok (mine owner (select id rows), rows))

abbrev pub is_row : ℕ → Text → Text × Instance → Bool
is_row owner id r = text_eq r.0 id && r.1.owner == owner

-- DeleteByOpenstackID
unfoldable pub delete_by_openstack_id : ℕ → Text → Service (Unit {0})
delete_by_openstack_id owner id =
    repo_call (λ rows. ok (tt, keep (λ r. not (is_row owner id r)) rows))

-- SaveInstance; openstack_id is unique
unfoldable pub save_instance : Text → Instance → Service (Unit {0})
save_instance id inst = repo_call (λ rows. elim (select id rows) [
  | none ↦ ok (tt, upsert id inst rows)
  | some _ ↦ err operation_failed
])

abbrev pub is_empty : Text → Bool
is_empty [] = true
is_empty (_ ∷ _) = false

-- UpdateInstanceMetadata; an empty name is not written
abbrev pub updated : UpdateInstanceRequest → Instance → Instance
updated req inst = record inst {
  name = if is_empty req.name then inst.name else req.name;
  key_name = req.key_name;
  note = req.note;
}

unfoldable pub update_instance_metadata : ℕ → Text → UpdateInstanceRequest → Service (Unit {0})
update_instance_metadata owner id req = repo_call (λ rows. elim (mine owner (select id rows)) [
  | none ↦ ok (tt, rows)
  | some inst ↦ ok (tt, upsert id (updated req inst) rows)
])

-- `if inst == nil { return ErrInstanceNotFound }`
abbrev pub found : {A : Type 0} → (Instance → Service A) → Option Instance → Service A
found k none = fail instance_not_found
found k (some inst) = k inst

-- a call of the client whose error becomes ErrInstanceOperationFailed
abbrev pub cloud : CloudCall → Service (Unit {0})
cloud c w = let (r, w') = ask c w in if accepts r then (ok tt, w') else (err operation_failed, w')

unfoldable pub pause_instance : ℕ → Text → Service (Unit {0})
pause_instance owner id = find_by_openstack_id owner id >>= found (λ inst. cloud (pauses id))

unfoldable pub unpause_instance : ℕ → Text → Service (Unit {0})
unpause_instance owner id = find_by_openstack_id owner id >>= found (λ inst. cloud (unpauses id))

unfoldable pub delete_instance : ℕ → Text → Service (Unit {0})
delete_instance owner id =
    find_by_openstack_id owner id
    >>= found (λ inst. cloud (deletes id) >>= (λ _. delete_by_openstack_id owner id))

abbrev pub or_else : Text → Text → Text
or_else value fallback = if is_empty value then fallback else value

-- firstNonEmpty of two values
unfoldable pub first_non_empty : Text → Text → Text
first_non_empty a b = or_else (trim_space a) (trim_space b)

abbrev pub filled : Instance → UpdateInstanceRequest → UpdateInstanceRequest
filled inst req = record {
  name = or_else (trim_space req.name) inst.name;
  key_name = or_else (trim_space req.key_name) inst.key_name;
  note = or_else (trim_space req.note) inst.note;
}

-- the rename, where the name changes
abbrev pub rename : Text → Text → Text → Service (Unit {0})
rename id old name = if text_eq name old then (λ w. (ok tt, w)) else cloud (renames id name)

-- UpdateInstance up to its last line, which reads the instance again
unfoldable pub update_instance : ℕ → Text → UpdateInstanceRequest → Service (Unit {0})
update_instance owner id req =
    find_by_openstack_id owner id
    >>= found (λ inst.
      rename id inst.name (filled inst req).name
      >>= (λ _. update_instance_metadata owner id (filled inst req)))
