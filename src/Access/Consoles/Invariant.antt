-- ===== src/Access/Consoles/Invariant.antt =====
-- The shape of the maps: sessions by token, inner maps by scope, expiries by key.
use rcp_server.Base.{
  ℕ, ◌+◌, ◌≡◌, refl, not, List, [], ◌∷◌, none, some, arith, Text, keep, All, All-keep, text_eq,
  Option-cases, inl, inr, ◌⊎◌,
}
use rcp_server.Table.{
  texts, select, IsUnique, upsert-IsUnique, keep-IsUnique, select-keep, All-upsert, All-select,
  passing,
}
use rcp_server.Access.Consoles.{
  ConsoleSession, AuthorizedKeyScope, key_scope_same, key_scope_same_iff, key_scopes,
  ConsoleSessionStore, new_console_session_store, scope_of, live_session, live_key, purge,
  delete_expired, or_empty, keys_at, put_key, create, take_session, list_keys, dropped, delete_key,
  add_key, Call, creates, takes, lists, deletes, adds, step, run,
}

abbrev pub Authorized : Type 0
Authorized = List (AuthorizedKeyScope × List (Text × ℕ))

abbrev pub IsKeyed : AuthorizedKeyScope × List (Text × ℕ) → Type 0
IsKeyed r = IsUnique r.1

pub record IsMapped (s : ConsoleSessionStore) : Type 0 where
  pub tokens : IsUnique s.sessions
  pub scopes : IsUnique s.authorized_keys
  pub keyed : All IsKeyed s.authorized_keys

module _ (now : ℕ) where
  pub select-purge-none :
      (scope : AuthorizedKeyScope) (xs : Authorized)
      → select scope xs ≡ none
      → select scope (purge now xs) ≡ none
  unfolding purge select
  select-purge-none scope [] h = refl
  select-purge-none scope ((j, keys) ∷ xs) h = ground (arith, select-purge-none scope xs)

  pub purge-IsUnique : (xs : Authorized) → IsUnique xs → IsUnique (purge now xs)
  unfolding purge
  purge-IsUnique [] u = u
  purge-IsUnique ((j, keys) ∷ xs) u =
      ground (arith, purge-IsUnique xs u.1, select-purge-none j xs u.0)

  pub purge-IsKeyed : (xs : Authorized) → All IsKeyed xs → All IsKeyed (purge now xs)
  unfolding purge
  purge-IsKeyed [] h = h
  purge-IsKeyed ((j, keys) ∷ xs) h =
      ground (arith, purge-IsKeyed xs h.1, keep-IsUnique (live_key now) keys h.0)

  pub delete_expired-IsMapped :
      (s : ConsoleSessionStore) → IsMapped s → IsMapped (delete_expired now s)
  unfolding delete_expired
  delete_expired-IsMapped s v = record {
    tokens = keep-IsUnique (live_session now) s.sessions v.tokens;
    scopes = purge-IsUnique s.authorized_keys v.scopes;
    keyed = purge-IsKeyed s.authorized_keys v.keyed;
  }

  -- the sweep leaves of a key what has not expired
  pub select-purge :
      (scope : AuthorizedKeyScope) (key : Text) (xs : Authorized)
      → IsUnique xs
      → All IsKeyed xs
      → select key (or_empty (select scope (purge now xs)))
        ≡ passing (live_key now) key (select key (or_empty (select scope xs)))
  unfolding purge select
  select-purge scope key [] u h = refl
  select-purge scope key ((j, keys) ∷ xs) u h = ground (
    arith,
    key_scope_same_iff j scope,
    select-keep (live_key now) key keys h.0,
    select-purge-none scope xs,
    select-purge scope key xs u.1 h.1,
  )

keys_at-IsUnique :
    (scope : AuthorizedKeyScope) (s : ConsoleSessionStore) → IsMapped s → IsUnique (keys_at scope s)
keys_at-IsUnique scope s v = elim (Option-cases (select scope s.authorized_keys)) [
  | inl h ↦ rw h tt
  | inr (keys, h) ↦ rw h (All-select IsKeyed scope s.authorized_keys v.keyed h)
]

put_key-IsMapped :
    (scope : AuthorizedKeyScope) (key : Text) (expiry : ℕ) (s : ConsoleSessionStore)
    → IsMapped s
    → IsMapped (put_key scope key expiry s)
unfolding put_key
put_key-IsMapped scope key expiry s v = record {
  tokens = v.tokens;
  scopes = upsert-IsUnique scope _ s.authorized_keys v.scopes;
  keyed =
      All-upsert IsKeyed scope _ s.authorized_keys v.keyed
        (upsert-IsUnique key expiry _ (keys_at-IsUnique scope s v));
}

module _ (s : ConsoleSessionStore) (v : IsMapped s) where
  create-IsMapped :
      (token : Text) (now later : ℕ) (session : ConsoleSession)
      → IsMapped (create token now later session s).1
  unfolding create
  create-IsMapped token now later session = put_key-IsMapped _ _ _ _ (
      let w = delete_expired-IsMapped later s v in
      record { tokens = upsert-IsUnique token _ _ w.tokens; scopes = w.scopes; keyed = w.keyed })

  -- taking a session out
  without-IsMapped :
      (token : Text)
      → IsMapped (record s { sessions = keep (λ r. not (text_eq r.0 token)) s.sessions })
  without-IsMapped token = record {
    tokens = keep-IsUnique (λ r. not (text_eq r.0 token)) s.sessions v.tokens;
    scopes = v.scopes;
    keyed = v.keyed;
  }

  dropped-IsMapped :
      (scope : AuthorizedKeyScope) (keys : List (Text × ℕ))
      → IsUnique keys
      → IsMapped (dropped scope keys s)
  dropped-IsMapped scope [] u = record {
    tokens = v.tokens;
    scopes = keep-IsUnique (λ r. not (key_scope_same r.0 scope)) s.authorized_keys v.scopes;
    keyed = All-keep IsKeyed (λ r. not (key_scope_same r.0 scope)) s.authorized_keys v.keyed;
  }
  dropped-IsMapped scope (k ∷ ks) u = record {
    tokens = v.tokens;
    scopes = upsert-IsUnique scope (k ∷ ks) s.authorized_keys v.scopes;
    keyed = All-upsert IsKeyed scope (k ∷ ks) s.authorized_keys v.keyed u;
  }

pub take_cases :
    (token : Text) (now : ℕ) (s : ConsoleSessionStore)
    → (((take_session token now s).1 ≡ delete_expired now s)
        × (select token (delete_expired now s).sessions ≡ none)
        × ((take_session token now s).0 ≡ none))
      ⊎ ((take_session token now s).1 ≡ record (delete_expired now s) {
        sessions = keep (λ r. not (text_eq r.0 token)) (delete_expired now s).sessions;
      })
unfolding take_session
take_cases token now s = ground arith

pub delete_cases :
    (instance_id username key : Text) (s : ConsoleSessionStore)
    → (delete_key instance_id username key s ≡ s)
      ⊎ ((keys : List (Text × ℕ)) × (select (scope_of instance_id username) s.authorized_keys
            ≡ some keys)
          × (delete_key instance_id username key s
              ≡ dropped (scope_of instance_id username) (keep (λ r. not (text_eq r.0 key)) keys) s))
unfolding delete_key
delete_cases instance_id username key s =
    elim (Option-cases (select (scope_of instance_id username) s.authorized_keys)) [
      | inl h ↦ inl (ground arith)
      | inr ([], h) ↦ inl (ground arith)
      | inr (k ∷ ks, h) ↦ inr (k ∷ ks, h, ground arith)
    ]

pub list_keys-is :
    (instance_id username : Text) (now : ℕ) (s : ConsoleSessionStore)
    → (list_keys instance_id username now s).1 ≡ delete_expired now s
unfolding list_keys
list_keys-is instance_id username now s = refl

pub add_key-is :
    (instance_id username key : Text) (now later : ℕ) (s : ConsoleSessionStore)
    → add_key instance_id username key now later s
      ≡ put_key (scope_of instance_id username) key (later + s.ttl) (delete_expired now s)
unfolding add_key
add_key-is instance_id username key now later s = refl

pub new_console_session_store-IsMapped : (ttl : ℕ) → IsMapped (new_console_session_store ttl)
unfolding new_console_session_store
new_console_session_store-IsMapped ttl = record { tokens = tt; scopes = tt; keyed = tt }

pub step-IsMapped : (s : ConsoleSessionStore) (c : Call) → IsMapped s → IsMapped (step s c)
unfolding step
step-IsMapped s (creates token now later session) v = create-IsMapped s v token now later session
step-IsMapped s (takes token now) v = elim (take_cases token now s) [
  | inl (is, absent, nothing) ↦ rw is (delete_expired-IsMapped now s v)
  | inr is ↦ rw is (without-IsMapped _ (delete_expired-IsMapped now s v) token)
]
step-IsMapped s (lists instance_id username now) v =
    rw (list_keys-is instance_id username now s) (delete_expired-IsMapped now s v)
step-IsMapped s (deletes instance_id username key) v =
    elim (delete_cases instance_id username key s) [
      | inl is ↦ rw is v
      | inr (keys, found, is) ↦ rw is (
          dropped-IsMapped s v _ _ (
            keep-IsUnique _ keys
              (All-select IsKeyed (scope_of instance_id username) s.authorized_keys v.keyed found)))
    ]
step-IsMapped s (adds instance_id username key now later) v =
    rw (add_key-is instance_id username key now later s)
      (put_key-IsMapped _ _ _ _ (delete_expired-IsMapped now s v))

pub run-IsMapped : (s : ConsoleSessionStore) (cs : List Call) → IsMapped s → IsMapped (run s cs)
unfolding run
run-IsMapped s [] v = v
run-IsMapped s (c ∷ cs) v = run-IsMapped (step s c) cs (step-IsMapped s c v)
