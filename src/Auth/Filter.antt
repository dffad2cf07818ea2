-- ===== src/Auth/Filter.antt =====
-- filter.go: the middlewares AuthRequired and AdminRequired. A request is its Authorization header
-- and its cookies; an environment variable is an argument, empty where it is not set. Beside the
-- variables stands the table of Unicode that strings.ToLower looks letters up in that are not ASCII.
pub mod Access
pub mod Admin
use rcp_server.Base.{
  ℕ, Bool, true, false, not, ◌&&◌, ◌||◌, List, [], ◌∷◌, ◌++◌, ◌+◌, ◌*◌, map, ltb, Option, none,
  some, if◌then◌else◌, Text, text_eq, codes, is_empty, any, ◌==◌,
}
use rcp_server.Stdlib.Strings.{trim_space, to_lower, is_space, is_upper_letter}
use rcp_server.Effects.{Result, ok, err}
use rcp_server.Auth.{
  Error, access_token_not_found, invalid_access_token, user_lookup_failed, user_not_found,
  admin_access_required, refresh_token_not_found, invalid_authorization_header, User, World,
  Service, find_by_email, upsert_user,
}
use rcp_server.Auth.Jwt.{Claims, Jwt}
use rcp_server.Auth.Tokens.{second, token_type_access, validate_token}

pub record Request : Type 0 where
  pub authorization : Text
  pub access_cookie : Option Text
  pub refresh_cookie : Option Text

pub record Environment : Type 0 where
  pub admin_emails : Text
  pub lower_beyond_ascii : ℕ → ℕ
  pub dev_auth_bypass : Text
  pub dev_auth_email : Text

abbrev pub scheme_bearer : Text
scheme_bearer = codes "Bearer"

abbrev pub dev_auth_token : Text
dev_auth_token = codes "dev-local-token"

-- strings.Fields, and strings.Split at one byte: the parts and the one that is being read
abbrev with_part : Text → List Text → List Text
with_part part parts = if is_empty part then parts else part ∷ parts

abbrev fields_from : Text → Text → List Text
fields_from part [] = with_part part []
fields_from part (c ∷ s) =
    let here = with_part part (fields_from [] s) in
    let more = fields_from (part ++ (c ∷ [])) s in if is_space c then here else more

unfoldable pub fields : Text → List Text
unfolding is_space
fields s = fields_from [] s

abbrev pub split_from : ℕ → Text → Text → List Text
split_from at part [] = part ∷ []
split_from at part (c ∷ s) =
    let here = part ∷ split_from at [] s in
    let more = split_from at (part ++ (c ∷ [])) s in if c == at then here else more

unfoldable pub split : ℕ → Text → List Text
split at s = split_from at [] s

-- strings.EqualFold with an ASCII text without the letters k and s, whose folds are ASCII too
unfoldable pub equal_fold : Text → Text → Bool
equal_fold a b = text_eq (to_lower a) (to_lower b)

abbrev bearer_of : List Text → Result Error Text
bearer_of (scheme ∷ token ∷ []) =
    if not (equal_fold scheme scheme_bearer) || is_empty token
    then err invalid_authorization_header
    else ok token
bearer_of _ = err invalid_authorization_header

unfoldable pub extract_bearer_token : Text → Result Error Text
extract_bearer_token header = bearer_of (fields header)

-- `err != nil || token == ""`
abbrev cookie_or : Error → Option Text → Result Error Text
cookie_or e none = err e
cookie_or e (some token) = if is_empty token then err e else ok token

unfoldable pub access_token_from_request : Request → Result Error Text
access_token_from_request r =
    if is_empty (trim_space r.authorization)
    then cookie_or access_token_not_found r.access_cookie
    else extract_bearer_token r.authorization

unfoldable pub refresh_token_from_request : Request → Result Error Text
refresh_token_from_request r = cookie_or refresh_token_not_found r.refresh_cookie

-- unicode.ToLower
abbrev pub lower_rune : (ℕ → ℕ) → ℕ → ℕ
lower_rune table c = if ltb c 128 then (if is_upper_letter c then c + 32 else c) else table c

-- strings.ToLower of strings.TrimSpace
abbrev pub folded : Environment → Text → Text
folded env s = map (lower_rune env.lower_beyond_ascii) (trim_space s)

unfoldable pub is_admin_email : Environment → Text → Bool
is_admin_email env email =
    if is_empty (folded env email)
    then false
    else any (λ item. text_eq (folded env item) (folded env email)) (split b',' env.admin_emails)

unfoldable pub role_for_email : Environment → Text → Text
role_for_email env email = if is_admin_email env email then codes "admin" else codes "user"

-- what the handlers find in gin's context
pub record Context : Type 0 where
  pub user_email : Text
  pub auth_claims : Option Claims
  pub user : User

-- a middleware aborts with a status, or lets the request go on
pub data Outcome : Type 0 where
  aborts : (status : ℕ) (e : Error) → Outcome
  passes : (context : Context) → Outcome

abbrev pub dev_email : Environment → Text
dev_email env =
    if is_empty (trim_space env.dev_auth_email)
    then codes "dev@khu.ac.kr"
    else trim_space env.dev_auth_email

abbrev pub dev_user : Text → ℕ → User
dev_user email now = record {
  id = 0;
  email = email;
  name = codes "Local Dev User";
  role = [];
  google_id = codes "local-dev:" ++ email;
  access_token = [];
  refresh_token = [];
  expiry = 0;
  current_refresh_jti = none;
  google_auth =
      some (record { access_token = []; refresh_token = []; expiry = now + 24 * 3600 * second });
}

abbrev pub dev_passes : Environment → Text → User → Outcome
dev_passes env token user =
    let known : User = record user { role = role_for_email env user.email; access_token = token } in
    passes (record { user_email = user.email; auth_claims = none; user = known })

abbrev pub lookup_failed : Outcome
lookup_failed = aborts 500 user_lookup_failed

-- the second lookup of the user, once it was saved
abbrev pub dev_again : Environment → Text → Result Error (Option User) × World → Outcome × World
dev_again env token (ok (some user), w) = (dev_passes env token user, w)
dev_again env token (ok none, w) = (lookup_failed, w)
dev_again env token (err e, w) = (lookup_failed, w)

abbrev pub dev_saved : Environment → Text → Text → Result Error (Unit {0}) × World → Outcome × World
dev_saved env token email (ok _, w) = dev_again env token (find_by_email email w)
dev_saved env token email (err e, w) = (lookup_failed, w)

abbrev pub dev_found :
    Environment → Text → Text → ℕ → ℕ → Result Error (Option User) × World → Outcome × World
dev_found env token email id now (ok (some user), w) = (dev_passes env token user, w)
dev_found env token email id now (ok none, w) =
    dev_saved env token email (upsert_user id (dev_user email now) w)
dev_found env token email id now (err e, w) = (lookup_failed, w)

-- what tryDevAuthBypass does where it returns true; gin's Next runs no handler after an abort
unfoldable pub dev_auth : Environment → Text → ℕ → ℕ → World → Outcome × World
dev_auth env token id now w =
    dev_found env token (dev_email env) id now (find_by_email (dev_email env) w)

unfoldable pub is_dev_bypass : Environment → Text → Bool
is_dev_bypass env token = text_eq env.dev_auth_bypass (codes "1") && text_eq token dev_auth_token

abbrev pub with_user : Claims → Result Error (Option User) × World → Outcome × World
with_user c (ok (some user), w) =
    (passes (record { user_email = c.email; auth_claims = some c; user = user }), w)
with_user c (ok none, w) = (aborts 401 user_not_found, w)
with_user c (err e, w) = (lookup_failed, w)

abbrev pub with_claims : Option Claims → World → Outcome × World
with_claims none w = (aborts 401 invalid_access_token, w)
with_claims (some c) w =
    if text_eq c.kind token_type_access
    then with_user c (find_by_email c.email w)
    else (aborts 401 invalid_access_token, w)

-- AdminRequired
unfoldable pub admin_required : Environment → Option Context → Outcome
admin_required env none = aborts 401 user_not_found
admin_required env (some context) =
    if is_admin_email env context.user.email
    then passes context
    else aborts 403 admin_access_required

abbrev pub then_admin : Environment → Outcome × World → Outcome × World
then_admin env (aborts status e, w) = (aborts status e, w)
then_admin env (passes context, w) = (admin_required env (some context), w)

module _ (jwt : Jwt) (secret_key : Text) (env : Environment) where
  abbrev pub with_token : ℕ → ℕ → Result Error Text → World → Outcome × World
  with_token id now (err e) w = (aborts 401 access_token_not_found, w)
  with_token id now (ok token) w =
      if is_dev_bypass env token
      then dev_auth env token id now w
      else with_claims (validate_token jwt secret_key now token) w

  -- AuthRequired, with the id that a new user would draw
  unfoldable pub auth_required : ℕ → ℕ → Request → World → Outcome × World
  auth_required id now r = with_token id now (access_token_from_request r)

  -- the middlewares of the admin group, in the order of router.go
  unfoldable pub admin_chain : ℕ → ℕ → Request → World → Outcome × World
  admin_chain id now r w = then_admin env (auth_required id now r w)
