-- ===== src/Access/Opening/Console.antt =====
-- Console sessions from their creation to their use.
use rcp_server.Base.{
  ℕ, ◌≡◌, ◌+◌, ◌≤◌, refl, false, ◌==◌, ◌∷◌, Option, none, some, Text, text_eq_iff, is_empty, arith,
  Bool-cases, ◌⊎◌, inl, inr, ltb_iff, ap, ◌∙◌,
}
use rcp_server.Stdlib.Strings.{trim_space}
use rcp_server.Effects.{Result, ok, err, next_fault}
use rcp_server.Table.{texts, select, select-upsert, select-keep, upsert, upsert-IsUnique}
use rcp_server.Access.Consoles.{
  ConsoleSession, ConsoleSessionStore, live_session, delete_expired, put_key, create, take_session,
}
use rcp_server.Access.Consoles.Invariant.{IsMapped, delete_expired-IsMapped}
use rcp_server.Access.KeyPairs.{
  Error, console_operation_failed, ConsoleInstance, InstanceRow, fetches, made, deleted, served,
  refused, CloudReply, World, cloud_ask,
}
use rcp_server.Access.Opening.{
  Service, Drawn, ConsoleResponse, own, find_console_target, instance_from, first_non_empty,
  or_ubuntu, url_of, draft, opens, reaches, targets, create_console_session,
}

abbrev made_of : Text → ℕ → ConsoleSession → ConsoleSessionStore → ConsoleSession
made_of token now session s = record session { token = token; expires_at = now + s.ttl }

created-found :
    (token : Text) (now later at : ℕ) (session : ConsoleSession) (s : ConsoleSessionStore)
    → IsMapped s
    → at ≤ now + s.ttl
    → select token (delete_expired at (create token now later session s).1).sessions
      ≡ some (made_of token now session s)
unfolding create put_key delete_expired
created-found token now later at session s v live =
    let rows = (delete_expired later s).sessions in
    let made = made_of token now session s in
    let w = (delete_expired-IsMapped later s v).tokens in
    select-keep (live_session at) token (upsert token made rows) (upsert-IsUnique token made rows w)
    ∙ ground (
      arith,
      select-upsert token token made rows,
      text_eq_iff token token,
      ltb_iff (now + s.ttl) at,
    )

-- Within its time, a token that was drawn for a session gives it.
take-create :
    (token : Text) (now later at : ℕ) (session : ConsoleSession) (s : ConsoleSessionStore)
    → IsMapped s
    → at ≤ now + s.ttl
    → (take_session token at (create token now later session s).1).0
      ≡ some (made_of token now session s)
unfolding take_session
take-create token now later at session s v live =
    ground (arith, created-found token now later at session s v live, ltb_iff (now + s.ttl) at)

-- What a CreateConsoleSession leaves: the owner's row, the instance that OpenStack served, and the token
-- whose Take gives the session; or, after an error, the store as it was.
abbrev pub IsOpened :
    ℕ → Text → Text → Drawn → ℕ → ℕ → Service → Result Error ConsoleResponse × Service → Type 0
IsOpened owner id base drawn now at s (ok response, s') =
    (row : InstanceRow) × ((inst : ConsoleInstance) × ((token : Text) × ((session : ConsoleSession)
          × (own owner (select id s.world.stored.rows.instances) ≡ some row)
          × (s'.world.remote.calls ≡ (fetches id, served inst) ∷ s.world.remote.calls)
          × (drawn.token ≡ some token)
          × (response.url ≡ url_of base token)
          × (response.expires_at ≡ now + s.store.ttl)
          × ((take_session token at s'.store).0 ≡ some session)
          × (session.owner_id ≡ owner)
          × (session.instance_id ≡ id)
          × (session.host ≡ first_non_empty inst.fixed_ip inst.floating_ip)
          × (is_empty session.host ≡ false))))
IsOpened owner id base drawn now at s (err e, s') = s'.store ≡ s.store

module _ (owner : ℕ) (id username base : Text) (now later at : ℕ) (s : Service)
    (mapped : IsMapped s.store) (live : at ≤ now + s.store.ttl) where
  opens-IsOpened :
      (key : Option (ℕ × Text)) (token : Option Text) (w : World) (row : InstanceRow)
      (inst : ConsoleInstance)
      → own owner (select id s.world.stored.rows.instances) ≡ some row
      → w.remote.calls ≡ (fetches id, served inst) ∷ s.world.remote.calls
      → is_empty (first_non_empty inst.fixed_ip inst.floating_ip) ≡ false
      → IsOpened owner id base
          (record { key = key; token = token })
          now
          at
          s
          (opens owner id username base
            (record { key = key; token = token })
            now
            later
            (first_non_empty inst.fixed_ip inst.floating_ip)
            key
            token
            (record { world = w; store = s.store }))
  unfolding create
  opens-IsOpened none token w row inst owned asked reachable = refl
  opens-IsOpened (some key) none w row inst owned asked reachable = refl
  opens-IsOpened (some (signer, key)) (some token) w row inst owned asked reachable =
      let session : ConsoleSession =
        draft owner id (first_non_empty inst.fixed_ip inst.floating_ip) username (signer, key) in
      (
        row,
        (
          inst,
          (
            token,
            (
              made_of token now session s.store,
              owned,
              asked,
              refl,
              refl,
              refl,
              take-create token now later at session s.store mapped live,
              refl,
              refl,
              refl,
              reachable,
            ),
          ),
        ),
      )

  module _ (key : Option (ℕ × Text)) (token : Option Text) where
    abbrev drawn : Drawn
    drawn = record { key = key; token = token }

    reaches-IsOpened :
        (r : CloudReply) (w : World) (row : InstanceRow)
        → own owner (select id s.world.stored.rows.instances) ≡ some row
        → w.remote.calls ≡ (fetches id, r) ∷ s.world.remote.calls
        → IsOpened owner id base drawn now at s
            (reaches owner id username base drawn now later (instance_from r, w) s.store)
    reaches-IsOpened (made kp) w row owned asked = refl
    reaches-IsOpened deleted w row owned asked = refl
    reaches-IsOpened (refused status) w row owned asked = elim (Bool-cases (status == 404)) [
      | inl absent ↦ rw absent refl
      | inr other ↦ rw other refl
    ]
    reaches-IsOpened (served inst) w row owned asked =
        elim (Bool-cases (is_empty (first_non_empty inst.fixed_ip inst.floating_ip))) [
          | inl nowhere ↦ rw nowhere refl
          | inr reachable ↦ rw reachable (opens-IsOpened key token w row inst owned asked reachable)
        ]

    targets-IsOpened :
        (r : Result Error (Option InstanceRow)) (w : World) (e : Error)
        → (r ≡ err e) ⊎ (r ≡ ok (own owner (select id s.world.stored.rows.instances)))
        → w.remote.calls ≡ s.world.remote.calls
        → IsOpened owner id base drawn now at s
            (targets owner id username base drawn now later (r, w) s.store)
    targets-IsOpened (err _) w e is asked = refl
    targets-IsOpened (ok none) w e is asked = refl
    targets-IsOpened (ok (some row)) w e (inl failed) asked = absurd (ground arith)
    targets-IsOpened (ok (some row)) w e (inr is) asked =
        let (r, w') = cloud_ask (fetches id) w in
        reaches-IsOpened r w' row (ground arith) (ap (λ c. (fetches id, r) ∷ c) asked)

find_console_target_cases :
    (owner : ℕ) (id : Text) (w : World)
    → ((find_console_target owner id w).1.remote.calls ≡ w.remote.calls)
      × (((find_console_target owner id w).0 ≡ err console_operation_failed)
          ⊎ ((find_console_target owner id w).0
              ≡ ok (own owner (select id w.stored.rows.instances))))
unfolding find_console_target
find_console_target_cases owner id w = elim (Bool-cases (next_fault w.stored.faults).0) [
  | inl fails ↦ rw fails (refl, inl refl)
  | inr answers ↦ rw answers (refl, inr refl)
]

-- However CreateConsoleSession ends: on success the owner has a row of the instance, OpenStack has served it
-- with an address, and within the store's time a Take of the token that the URL has gives a session of the
-- owner for that instance at that address; after an error no session is stored and no key is authorized.
pub create_console_session-IsOpened :
    (owner : ℕ) (raw_id raw_username base : Text) (drawn : Drawn) (now later at : ℕ) (s : Service)
    → IsMapped s.store
    → at ≤ now + s.store.ttl
    → IsOpened owner
        (trim_space raw_id)
        base
        drawn
        now
        at
        s
        (create_console_session owner raw_id raw_username base drawn now later s)
unfolding create_console_session
create_console_session-IsOpened owner raw_id raw_username base drawn now later at s mapped live =
    elim (Bool-cases (is_empty (trim_space raw_id))) [
      | inl unnamed ↦ rw unnamed refl
      | inr named ↦
          let (asked, found) = find_console_target_cases owner (trim_space raw_id) s.world in
          rw named (
            targets-IsOpened owner (trim_space raw_id) (or_ubuntu raw_username) base now later at s
              mapped live drawn.key drawn.token _ _ console_operation_failed found asked)
    ]
