-- ===== src/Access/Consoles/Keys.antt =====
-- How long a console's key is authorized.
use rcp_server.Base.{
  ℕ, ◌+◌, ◌≤◌, ◌≡◌, refl, Bool, true, false, not, ◌&&◌, List, [], ◌∷◌, Option, none, some, arith,
  Text, ltb, keep, All, text_eq, text_eq_iff, inl, inr, sym, ap, ◌∙◌,
}
use rcp_server.Table.{
  texts, select, upsert, IsUnique, select-upsert, select-keep, passing, All-select,
}
use rcp_server.Access.Consoles.Tokens.{step-ttl}
use rcp_server.Access.Consoles.{
  ConsoleSession, AuthorizedKeyScope, key_scope_same, key_scope_same_iff, key_scopes,
  ConsoleSessionStore, scope_of, live_key, delete_expired, put_key, create, list_keys, dropped,
  delete_key, Call, creates, takes, lists, deletes, adds, step, run, keys_at, lines,
}
use rcp_server.Access.Consoles.Invariant.{
  IsMapped, step-IsMapped, take_cases, delete_cases, list_keys-is, add_key-is, select-purge,
  IsKeyed,
}

abbrev pub expiry_of : Text → AuthorizedKeyScope → ConsoleSessionStore → Option ℕ
expiry_of key scope s = select key (keys_at scope s)

-- the key is authorized for the scope, and until the time at least
abbrev pub reaches : ℕ → Option ℕ → Bool
reaches until none = false
reaches until (some expiry) = not (ltb expiry until)

abbrev pub is_authorized : ℕ → Text → AuthorizedKeyScope → ConsoleSessionStore → Bool
is_authorized until key scope s = reaches until (expiry_of key scope s)

module _ (until : ℕ) (key : Text) (scope : AuthorizedKeyScope) where
  sweep_keeps :
      (now : ℕ) (s : ConsoleSessionStore)
      → IsMapped s
      → now ≤ until
      → is_authorized until key scope s ≡ true
      → is_authorized until key scope (delete_expired now s) ≡ true
  unfolding delete_expired
  sweep_keeps now s v before h =
      ground (arith, select-purge now scope key s.authorized_keys v.scopes v.keyed)

  put_keeps :
      (other : AuthorizedKeyScope) (name : Text) (expiry : ℕ) (s : ConsoleSessionStore)
      → until ≤ expiry
      → is_authorized until key scope s ≡ true
      → is_authorized until key scope (put_key other name expiry s) ≡ true
  unfolding put_key
  put_keeps other name expiry s later h = ground (
    arith,
    key_scope_same_iff other scope,
    select-upsert other scope (upsert name expiry (keys_at other s)) s.authorized_keys,
    select-upsert name key expiry (keys_at other s),
  )

  -- a call that reads times from the start on and up to the end, and does not delete the key
  abbrev pub IsMild : ℕ → Call → Type 0
  IsMild start (creates token now later session) = (start ≤ now) × (later ≤ until)
  IsMild start (takes token now) = now ≤ until
  IsMild start (lists instance_id username now) = now ≤ until
  IsMild start (deletes instance_id username name) =
      (key_scope_same (scope_of instance_id username) scope && text_eq name key) ≡ false
  IsMild start (adds instance_id username name now later) = (now ≤ until) × (start ≤ later)

  -- what a deletion of another key leaves
  left_over :
      (name : Text) (keys : List (Text × ℕ))
      → IsUnique keys
      → text_eq name key ≡ false
      → select key (keep (λ r. not (text_eq r.0 name)) keys) ≡ select key keys
  left_over name keys u other = ground (
    arith,
    select-keep (λ r. not (text_eq r.0 name)) key keys u,
    text_eq_iff name key,
    text_eq_iff key name,
  )

  dropped_keeps :
      (other : AuthorizedKeyScope) (left keys : List (Text × ℕ)) (s : ConsoleSessionStore)
      → IsMapped s
      → select other s.authorized_keys ≡ some keys
      → (key_scope_same other scope ≡ true → select key left ≡ select key keys)
      → is_authorized until key scope s ≡ true
      → is_authorized until key scope (dropped other left s) ≡ true
  unfolding select
  dropped_keeps other [] keys s v found same h = ground (
    arith,
    key_scope_same_iff other scope,
    same,
    select-keep (λ r. not (key_scope_same r.0 other)) scope s.authorized_keys v.scopes,
    key_scope_same_iff scope other,
  )
  dropped_keeps other (k ∷ ks) keys s v found same h = ground (
    arith,
    key_scope_same_iff other scope,
    same,
    select-upsert other scope (k ∷ ks) s.authorized_keys,
  )

  delete_keeps :
      (instance_id username name : Text) (s : ConsoleSessionStore)
      → IsMapped s
      → (key_scope_same (scope_of instance_id username) scope && text_eq name key) ≡ false
      → is_authorized until key scope s ≡ true
      → is_authorized until key scope (delete_key instance_id username name s) ≡ true
  delete_keeps instance_id username name s v mild h =
      elim (delete_cases instance_id username name s) [
        | inl is ↦ rw is h
        | inr (keys, found, is) ↦ rw is (
            dropped_keeps (scope_of instance_id username) _ keys s v found
              (λ same.
                left_over name keys
                  (All-select IsKeyed (scope_of instance_id username) s.authorized_keys v.keyed
                    found)
                  (ground (arith, same)))
              h)
      ]

  step_keeps :
      (start : ℕ) (s : ConsoleSessionStore) (c : Call)
      → IsMapped s
      → until ≡ start + s.ttl
      → IsMild start c
      → is_authorized until key scope s ≡ true
      → is_authorized until key scope (step s c) ≡ true
  unfolding step create
  step_keeps start s (creates token now later session) v e mild h =
      put_keeps _ _ _ (record (delete_expired later s) { sessions = _ }) (ground (arith, mild))
        (sweep_keeps later s v mild.1 h)
  step_keeps start s (takes token now) v e mild h = elim (take_cases token now s) [
    | inl (is, absent, nothing) ↦ rw is (sweep_keeps now s v mild h)
    | inr is ↦ rw is (sweep_keeps now s v mild h)
  ]
  step_keeps start s (lists instance_id username now) v e mild h =
      rw (list_keys-is instance_id username now s) (sweep_keeps now s v mild h)
  step_keeps start s (deletes instance_id username name) v e mild h =
      delete_keeps instance_id username name s v mild h
  step_keeps start s (adds instance_id username name now later) v e mild h =
      rw (add_key-is instance_id username name now later s)
        (put_keeps _ _ _ _ (ground (arith, mild)) (sweep_keeps now s v mild.0 h))

  run_keeps :
      (start : ℕ) (s : ConsoleSessionStore) (cs : List Call)
      → IsMapped s
      → until ≡ start + s.ttl
      → All (IsMild start) cs
      → is_authorized until key scope s ≡ true
      → is_authorized until key scope (run s cs) ≡ true
  unfolding run
  run_keeps start s [] v e m h = h
  run_keeps start s (c ∷ cs) v e (m, ms) h =
      run_keeps start (step s c) cs (step-IsMapped s c v)
        (e ∙ sym (ap (λ t. start + t) (step-ttl s c))) ms (step_keeps start s c v e m h)

put_gives :
    (scope : AuthorizedKeyScope) (key : Text) (expiry : ℕ) (s : ConsoleSessionStore)
    → is_authorized expiry key scope (put_key scope key expiry s) ≡ true
unfolding put_key
put_gives scope key expiry s = ground (
  arith,
  key_scope_same_iff scope scope,
  text_eq_iff key key,
  select-upsert scope scope (upsert key expiry (keys_at scope s)) s.authorized_keys,
  select-upsert key key expiry (keys_at scope s),
)

-- the key that a Create authorizes
created_key :
    (token : Text) (now later : ℕ) (session : ConsoleSession) (s : ConsoleSessionStore)
    → is_authorized
        (now + s.ttl)
        session.authorized_key
        (scope_of session.instance_id session.username)
        (create token now later session s).1
      ≡ true
unfolding create
created_key token now later session s =
    put_gives (scope_of session.instance_id session.username) session.authorized_key (now + s.ttl) _

-- The key of a console session is authorized from its Create until the session's time is over,
-- whatever other calls are made meanwhile, unless one deletes the key.
pub run-create-is_authorized :
    (token : Text) (now later : ℕ) (session : ConsoleSession) (s : ConsoleSessionStore)
    (cs : List Call)
    → IsMapped s
    → All
        (IsMild
          (now + s.ttl)
          session.authorized_key
          (scope_of session.instance_id session.username)
          now)
        cs
    → is_authorized
        (now + s.ttl)
        session.authorized_key
        (scope_of session.instance_id session.username)
        (run (create token now later session s).1 cs)
      ≡ true
unfolding step
run-create-is_authorized token now later session s cs v m =
    run_keeps _ _ _ now _ cs (step-IsMapped s (creates token now later session) v)
      (sym (ap (λ t. now + t) (step-ttl s (creates token now later session)))) m
      (created_key token now later session s)

-- AuthorizedKeys writes the keys of the scope that have not expired, one to a line.
list_keys-live :
    (instance_id username : Text) (now : ℕ) (s : ConsoleSessionStore)
    → IsMapped s
    → (keys : List (Text × ℕ)) × ((list_keys instance_id username now s).0 ≡ lines keys)
      × ((key : Text)
          → select key keys
            ≡ passing (live_key now) key (expiry_of key (scope_of instance_id username) s))
unfolding list_keys delete_expired
list_keys-live instance_id username now s v = (
  _,
  refl,
  λ key. select-purge now (scope_of instance_id username) key s.authorized_keys v.scopes v.keyed,
)
