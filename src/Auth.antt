-- ===== src/Auth.antt =====
-- types.go, service.go and repository.go of internal/domain/auth: users, their rows and the queries
-- on them. A call of the database fails where the next of `faults` says so. Times are nanoseconds.
pub mod Jwt
pub mod Tokens
pub mod Refresh
pub mod Sessions
pub mod Filter
pub mod Login
mod Tests
use rcp_server.Base.{
  ℕ, ◌≡◌, Bool, true, false, not, ◌&&◌, List, [], ◌∷◌, Option, none, some, if◌then◌else◌, Text,
  text_eq, any,
}
use rcp_server.Effects.{Result, ok, err, Stored, query}
use rcp_server.Table.{texts, select, upsert}

pub data Error : Type 0 where
  code_required email_claim_not_found name_claim_not_found unsupported_email_domain : Error
  access_token_not_found invalid_access_token refresh_token_not_found : Error
  invalid_refresh_token invalid_token_type user_not_found user_lookup_failed : Error
  invalid_oauth_state invalid_authorization_header : Error
  tokens_not_made user_not_saved exchange_failed invalid_id_token : Error
  admin_access_required : Error

pub record GoogleInfo : Type 0 where
  pub access_token : Text
  pub refresh_token : Text
  pub expiry : ℕ

pub record User : Type 0 where
  pub id : ℕ
  pub email : Text
  pub name : Text
  pub role : Text
  pub google_id : Text
  pub access_token : Text
  pub refresh_token : Text
  pub expiry : ℕ
  pub current_refresh_jti : Option Text
  pub google_auth : Option GoogleInfo

-- a row of users beside its email, which is unique; the times of its creation and of its last change
-- are left out, since no method here reads them
pub record UserRow : Type 0 where
  pub id : ℕ
  pub name : Text
  pub google_id : Text
  pub google_access_token : Text
  pub google_refresh_token : Text
  pub google_token_expiry : ℕ
  pub current_refresh_jti : Option Text

abbrev pub Rows : Type 0
Rows = List (Text × UserRow)

abbrev pub World : Type 0
World = Stored Rows

abbrev pub Service : Type 0 → Type 0
Service A = World → Result Error A × World

abbrev pub user_of : Text → UserRow → User
user_of email row = record {
  id = row.id;
  email = email;
  name = row.name;
  role = [];
  google_id = row.google_id;
  access_token = [];
  refresh_token = [];
  expiry = 0;
  current_refresh_jti = row.current_refresh_jti;
  google_auth = some (record {
    access_token = row.google_access_token;
    refresh_token = row.google_refresh_token;
    expiry = row.google_token_expiry;
  });
}

abbrev pub user_at : Text → Option UserRow → Option User
user_at email none = none
user_at email (some row) = some (user_of email row)

-- FindByEmail
unfoldable pub find_by_email : Text → Service (Option User)
find_by_email email =
    query user_lookup_failed (λ rows. ok (user_at email (select email rows), rows))

-- of a User without GoogleAuth: empty tokens, and the zero time
abbrev pub google_of : Option GoogleInfo → GoogleInfo
google_of none = record { access_token = []; refresh_token = []; expiry = 0 }
google_of (some info) = info

abbrev pub or_kept : Text → Text → Text
or_kept [] old = old
or_kept (c ∷ cs) old = c ∷ cs

abbrev pub or_kept_jti : Option Text → Option Text → Option Text
or_kept_jti none old = old
or_kept_jti (some jti) old = some jti

-- the row that UpsertUser inserts, and the one that it makes of a row with the email
abbrev pub inserted : ℕ → User → UserRow
inserted id user = record {
  id = id;
  name = user.name;
  google_id = user.google_id;
  google_access_token = (google_of user.google_auth).access_token;
  google_refresh_token = (google_of user.google_auth).refresh_token;
  google_token_expiry = (google_of user.google_auth).expiry;
  current_refresh_jti = user.current_refresh_jti;
}

abbrev pub overwritten : User → UserRow → UserRow
overwritten user row = record row {
  name = user.name;
  google_id = user.google_id;
  google_access_token = (google_of user.google_auth).access_token;
  google_refresh_token =
      or_kept (google_of user.google_auth).refresh_token row.google_refresh_token;
  google_token_expiry = (google_of user.google_auth).expiry;
  current_refresh_jti = or_kept_jti user.current_refresh_jti row.current_refresh_jti;
}

abbrev pub merged : ℕ → User → Option UserRow → UserRow
merged id user none = inserted id user
merged id user (some row) = overwritten user row

-- google_id is unique: another user's row must not have it
abbrev pub is_taken : User → Text × UserRow → Bool
is_taken user r = not (text_eq r.0 user.email) && text_eq r.1.google_id user.google_id

-- UpsertUser, with the id that a new row draws
unfoldable pub upsert_user : ℕ → User → Service (Unit {0})
upsert_user id user = query user_not_saved (λ rows.
    if any (is_taken user) rows
    then err user_not_saved
    else ok (tt, upsert user.email (merged id user (select user.email rows)) rows))

-- UPDATE … WHERE email = ? AND current_refresh_jti = ?, and whether it changed a row. A NULL is
-- equal to nothing.
abbrev pub has_jti : Text → Option Text → Bool
has_jti jti none = false
has_jti jti (some current) = text_eq current jti

abbrev pub with_jti : Option Text → UserRow → UserRow
with_jti jti row = record row { current_refresh_jti = jti }

abbrev pub replaced : Text → Text → Option Text → Rows → Option UserRow → Result Error (Bool × Rows)
replaced email old new rows none = ok (false, rows)
replaced email old new rows (some row) =
    if has_jti old row.current_refresh_jti
    then ok (true, upsert email (with_jti new row) rows)
    else ok (false, rows)

-- RotateRefreshJTI
unfoldable pub rotate_refresh_jti : Text → Text → Text → Service Bool
rotate_refresh_jti email old_jti new_jti =
    query user_lookup_failed
      (λ rows. replaced email old_jti (some new_jti) rows (select email rows))

-- ClearRefreshJTIIfMatches
unfoldable pub clear_refresh_jti_if_matches : Text → Text → Service Bool
clear_refresh_jti_if_matches email expected =
    query user_lookup_failed (λ rows. replaced email expected none rows (select email rows))

-- SetRefreshJTI
abbrev pub set_at : Text → Option Text → Rows → Option UserRow → Rows
set_at email jti rows none = rows
set_at email jti rows (some row) = upsert email (with_jti jti row) rows

unfoldable pub set_refresh_jti : Text → Option Text → Service (Unit {0})
set_refresh_jti email jti =
    query user_lookup_failed (λ rows. ok (tt, set_at email jti rows (select email rows)))
