-- ===== src/Access/Consoles.antt =====
-- console_session.go: one-time console tokens and the SSH keys that are authorized for a while. Each
-- method runs under the mutex, so a history is a list of calls; the time that a call reads is an
-- argument.
pub mod Invariant
pub mod Tokens
pub mod Keys
mod Tests
use rcp_server.Base.{
  ℕ, ◌+◌, ◌≡◌, Bool, true, false, not, ◌&&◌, List, [], ◌∷◌, ◌++◌, Option, none, some, arith, ltb,
  if◌then◌else◌, ◌==◌, Text, text_eq, text_eq_iff, ◌↔◌, keep,
}
use rcp_server.Table.{Key, texts, select, upsert}

-- consoleSession; the signer is opaque
pub record ConsoleSession : Type 0 where
  pub token : Text
  pub owner_id : ℕ
  pub instance_id : Text
  pub host : Text
  pub username : Text
  pub signer : ℕ
  pub authorized_key : Text
  pub expires_at : ℕ

pub record AuthorizedKeyScope : Type 0 where
  pub instance_id : Text
  pub username : Text

unfoldable pub key_scope_same : AuthorizedKeyScope → AuthorizedKeyScope → Bool
key_scope_same a b = text_eq a.instance_id b.instance_id && text_eq a.username b.username

pub key_scope_same_iff : (a b : AuthorizedKeyScope) → (key_scope_same a b ≡ true) ↔ (a ≡ b)
unfolding key_scope_same
key_scope_same_iff a b =
    ground (arith, text_eq_iff a.instance_id b.instance_id, text_eq_iff a.username b.username)

instance abbrev pub key_scopes : Key AuthorizedKeyScope
key_scopes = record { same = key_scope_same; same_iff = key_scope_same_iff }

pub record ConsoleSessionStore : Type 0 where
  pub ttl : ℕ
  pub sessions : List (Text × ConsoleSession)
  pub authorized_keys : List (AuthorizedKeyScope × List (Text × ℕ))

unfoldable pub new_console_session_store : ℕ → ConsoleSessionStore
new_console_session_store ttl = record { ttl = ttl; sessions = []; authorized_keys = [] }

abbrev pub scope_of : Text → Text → AuthorizedKeyScope
scope_of instance_id username = record { instance_id = instance_id; username = username }

abbrev pub live_session : ℕ → Text × ConsoleSession → Bool
live_session now r = not (ltb r.1.expires_at now)

abbrev pub live_key : ℕ → Text × ℕ → Bool
live_key now r = not (ltb r.1 now)

-- the second loop of deleteExpiredLocked, which also deletes a scope without keys
unfoldable pub purge :
    ℕ → List (AuthorizedKeyScope × List (Text × ℕ)) → List (AuthorizedKeyScope × List (Text × ℕ))
purge now [] = []
purge now ((scope, keys) ∷ rest) =
    let others = purge now rest in
    elim (keep (live_key now) keys) [ [] ↦ others | r ∷ rs ↦ (scope, r ∷ rs) ∷ others ]

unfoldable pub delete_expired : ℕ → ConsoleSessionStore → ConsoleSessionStore
delete_expired now s = record s {
  sessions = keep (live_session now) s.sessions;
  authorized_keys = purge now s.authorized_keys;
}

-- the keys of a scope; a missing map and an empty one read alike
abbrev pub or_empty : Option (List (Text × ℕ)) → List (Text × ℕ)
or_empty none = []
or_empty (some keys) = keys

abbrev pub keys_at : AuthorizedKeyScope → ConsoleSessionStore → List (Text × ℕ)
keys_at scope s = or_empty (select scope s.authorized_keys)

-- s.authorizedKeys[scope][key] = expiry, with the inner map made where it is missing
unfoldable pub put_key : AuthorizedKeyScope → Text → ℕ → ConsoleSessionStore → ConsoleSessionStore
put_key scope key expiry s = record s {
  authorized_keys = upsert scope (upsert key expiry (keys_at scope s)) s.authorized_keys;
}

-- Create, with the token that it drew and the two times that it reads
unfoldable pub create :
    Text → ℕ → ℕ → ConsoleSession → ConsoleSessionStore → ConsoleSession × ConsoleSessionStore
create token now later session s =
    let made : ConsoleSession = record session { token = token; expires_at = now + s.ttl } in
    let t = delete_expired later s in
    (
      made,
      put_key (scope_of made.instance_id made.username) made.authorized_key made.expires_at
          (record t { sessions = upsert token made t.sessions }),
    )

unfoldable pub take_session :
    Text → ℕ → ConsoleSessionStore → Option ConsoleSession × ConsoleSessionStore
take_session token now s =
    let t = delete_expired now s in
    let taken : ConsoleSessionStore = record t {
      sessions = keep (λ r. not (text_eq r.0 token)) t.sessions;
    } in
    elim (select token t.sessions) [
      | none ↦ (none, t)
      | some session ↦ (if ltb session.expires_at now then (none, taken) else (some session, taken))
    ]

-- one line to a key; Go's order of a map's keys is the order of the list here
abbrev pub lines : List (Text × ℕ) → Text
lines [] = []
lines ((key, expiry) ∷ keys) = key ++ (10 ∷ lines keys)

unfoldable pub list_keys : Text → Text → ℕ → ConsoleSessionStore → Text × ConsoleSessionStore
list_keys instance_id username now s =
    let t = delete_expired now s in (lines (keys_at (scope_of instance_id username) t), t)

-- what is left of a scope is written back, or the scope is deleted
abbrev pub dropped :
    AuthorizedKeyScope → List (Text × ℕ) → ConsoleSessionStore → ConsoleSessionStore
dropped scope [] s = record s {
  authorized_keys = keep (λ r. not (key_scope_same r.0 scope)) s.authorized_keys;
}
dropped scope (k ∷ ks) s = record s { authorized_keys = upsert scope (k ∷ ks) s.authorized_keys }

unfoldable pub delete_key : Text → Text → Text → ConsoleSessionStore → ConsoleSessionStore
delete_key instance_id username key s =
    elim (select (scope_of instance_id username) s.authorized_keys) [
      | none ↦ s
      | some [] ↦ s
      | some (k ∷ ks) ↦
          dropped (scope_of instance_id username) (keep (λ r. not (text_eq r.0 key)) (k ∷ ks)) s
    ]

-- AddAuthorizedKey, which reads the time twice
unfoldable pub add_key : Text → Text → Text → ℕ → ℕ → ConsoleSessionStore → ConsoleSessionStore
add_key instance_id username key now later s =
    put_key (scope_of instance_id username) key (later + s.ttl) (delete_expired now s)

pub data Call : Type 0 where
  creates : (token : Text) (now later : ℕ) (session : ConsoleSession) → Call
  takes : (token : Text) (now : ℕ) → Call
  lists : (instance_id username : Text) (now : ℕ) → Call
  deletes : (instance_id username key : Text) → Call
  adds : (instance_id username key : Text) (now later : ℕ) → Call

unfoldable pub step : ConsoleSessionStore → Call → ConsoleSessionStore
step s (creates token now later session) = (create token now later session s).1
step s (takes token now) = (take_session token now s).1
step s (lists instance_id username now) = (list_keys instance_id username now s).1
step s (deletes instance_id username key) = delete_key instance_id username key s
step s (adds instance_id username key now later) = add_key instance_id username key now later s

unfoldable pub run : ConsoleSessionStore → List Call → ConsoleSessionStore
unfolding step
run s [] = s
run s (c ∷ cs) = run (step s c) cs
