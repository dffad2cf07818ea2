-- ===== src/Functions/Keys.antt =====
-- key.go: the keys with which a function is invoked publicly. The hash is a parameter, and so is what
-- the random bytes encode to; `works` says whether the call of the database does.
pub mod Expiry
mod Tests
use rcp_server.Base.{
  ℕ, zero, suc, ◌+◌, ◌*◌, ◌≡◌, Bool, true, false, not, ◌&&◌, ◌||◌, List, [], ◌∷◌, ◌++◌, Option,
  none, some, length, leb, ltb, ◌==◌, if◌then◌else◌, Text, text_eq, codes, ℤ, pos, negsuc,
}
use rcp_server.Functions.Errors.{
  Error, invalid_key, invalid_expiry, not_found, unavailable_call, Result, ok, err,
}
use rcp_server.Functions.Exec.{Uuid}
use rcp_server.Table.{numbers, select, upsert}

abbrev pub key_prefix : Text
key_prefix = codes "rcpf_"

abbrev pub default_key_days : ℕ
default_key_days = 30

abbrev pub max_key_days : ℕ
max_key_days = 90

-- a day in nanoseconds: AddDate on a time in UTC
abbrev pub day : ℕ
day = 86400000000000

-- what key.go uses of a Function; a hash that is not set is empty
pub record FunctionKey : Type 0 where
  pub owner : Uuid
  pub key_hash : Text
  pub key_created_at : Option ℕ
  pub key_expires_at : Option ℕ

pub record IssuedKey : Type 0 where
  pub key : Text
  pub expires_at : ℕ

abbrev pub Rows : Type 0
Rows = List (Uuid × FunctionKey)

-- an update of the row with an id and an owner
abbrev pub change :
    Uuid → Uuid → (FunctionKey → FunctionKey) → Option FunctionKey → Rows → Result (Unit {0}) × Rows
change owner id f none rows = (err not_found, rows)
change owner id f (some fn) rows =
    if fn.owner == owner then (ok tt, upsert id (f fn) rows) else (err not_found, rows)

abbrev pub update_one :
    Bool → Uuid → Uuid → (FunctionKey → FunctionKey) → Rows → Result (Unit {0}) × Rows
update_one works owner id f rows =
    if works then change owner id f (select id rows) rows else (err unavailable_call, rows)

unfoldable pub set_key : Bool → Uuid → Uuid → Text → ℕ → ℕ → Rows → Result (Unit {0}) × Rows
set_key works owner id hash created expires = update_one works owner id (λ fn. record fn {
  key_hash = hash;
  key_created_at = some created;
  key_expires_at = some expires;
})

unfoldable pub delete_key_row : Bool → Uuid → Uuid → Rows → Result (Unit {0}) × Rows
delete_key_row works owner id =
    update_one works owner id
      (λ fn. record fn { key_hash = []; key_created_at = none; key_expires_at = none })

-- the days that IssueKey uses: the default for 0, and none outside the limits
unfoldable pub key_days : ℤ → Option ℕ
key_days (negsuc n) = none
key_days (pos zero) = some default_key_days
key_days (pos (suc n)) = if leb (suc n) max_key_days then some (suc n) else none

module _ (sum256 : Text → Text) where
  abbrev pub issued : Text → ℕ → Result (Unit {0}) × Rows → Result IssuedKey × Rows
  issued key expires (ok _, rows) = (ok (record { key = key; expires_at = expires }), rows)
  issued key expires (err e, rows) = (err e, rows)

  -- IssueKey, with the encoding of the random bytes that it drew
  unfoldable pub issue_key : Bool → Uuid → Uuid → ℤ → Text → ℕ → Rows → Result IssuedKey × Rows
  issue_key works owner id days encoded now rows = elim (key_days days) [
    | none ↦ (err invalid_expiry, rows)
    | some n ↦
        issued (key_prefix ++ encoded) (now + n * day)
          (set_key works owner id (sum256 (key_prefix ++ encoded)) now (now + n * day) rows)
  ]

  -- `fn.KeyExpiresAt == nil || !s.now().Before(*fn.KeyExpiresAt)` is false
  abbrev pub alive : ℕ → Option ℕ → Bool
  alive now none = false
  alive now (some expires) = ltb now expires

  unfoldable pub check_key : FunctionKey → Text → ℕ → Result (Unit {0})
  check_key fn key now =
      if not (length fn.key_hash == 32) || not (alive now fn.key_expires_at)
      then err invalid_key
      else (if not (text_eq (sum256 key) fn.key_hash) || not (length key == 48)
          then err invalid_key
          else ok tt)

  -- InvokePublic up to the execution
  unfoldable pub check_public : Uuid → Text → ℕ → Rows → Result (Unit {0})
  check_public id key now rows = elim (select id rows) [
    | none ↦ err not_found
    | some fn ↦ check_key fn key now
  ]
