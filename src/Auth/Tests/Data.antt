-- ===== src/Auth/Tests/Data.antt =====
-- The users and tokens that the tests share.
use rcp_server.Base.{ℕ, ◌≡◌, ◌+◌, refl, some, [], ◌∷◌, Text, codes, text_eq}
use rcp_server.Stdlib.Strings.{trim_space, to_lower, is_space}
use rcp_server.Table.{texts, select, upsert}
use rcp_server.Auth.{
  User, UserRow, World, find_by_email, upsert_user, rotate_refresh_jti,
  clear_refresh_jti_if_matches,
}
use rcp_server.Auth.Jwt.{Claims}
use rcp_server.Auth.Tokens.{
  TokenPair, access_token_ttl, refresh_token_ttl, token_type_access, token_type_refresh,
  create_token, generate_access_token, generate_refresh_token, generate_auth_tokens, key_for,
  validate_token, claims_of,
}
use rcp_server.Auth.Refresh.{
  get_user_by_access_token, begin_refresh, finish_refresh, refresh_access_token, logout_target,
  logout,
}
use rcp_server.Auth.Sessions.{sessions, step, run}
use rcp_server.Auth.Filter.{
  fields, split, equal_fold, extract_bearer_token, access_token_from_request, is_admin_email,
  role_for_email, dev_auth, is_dev_bypass, admin_required, auth_required, admin_chain,
}
use rcp_server.Auth.Login.{
  Google, has_suffix, verify_google_code, process_google_callback, valid_ssh_code, parse_ssh_state,
}
use rcp_server.Auth.Tests.Plain.{plain, written}

unfoldable pub opened : Unit {0}
unfolding select upsert find_by_email upsert_user rotate_refresh_jti clear_refresh_jti_if_matches
    create_token generate_access_token generate_refresh_token generate_auth_tokens key_for
    validate_token get_user_by_access_token begin_refresh finish_refresh refresh_access_token
    logout_target logout sessions step run fields split equal_fold extract_bearer_token
    access_token_from_request is_admin_email role_for_email dev_auth is_dev_bypass admin_required
    auth_required admin_chain has_suffix verify_google_code process_google_callback valid_ssh_code
    parse_ssh_state trim_space to_lower is_space text_eq
opened = tt

abbrev pub secret : Text
secret = codes "s"

abbrev pub email : Text
email = codes "a@khu.ac.kr"

abbrev pub google : Google
google = record {
  exchange = λ code. some (record {
    access_token = codes "ga";
    refresh_token = codes "gr";
    expiry = 7;
    id_token = code;
  });
  validate =
      λ t. some (record { email = some email; name = some (codes "Kim"); subject = codes "7" });
}

abbrev pub clock : ℕ → ℕ
clock n = n

abbrev pub empty : World
empty = record { rows = []; faults = [] }

abbrev pub access_claims : Claims
access_claims =
    claims_of plain secret email token_type_access (clock 0 + access_token_ttl) [] (clock 1)

abbrev pub refresh_claims : Text → Claims
refresh_claims jti =
    claims_of plain secret email token_type_refresh (clock 2 + refresh_token_ttl) jti (clock 3)

abbrev pub tokens : Text → TokenPair
tokens jti = record {
  access_token = written secret access_claims;
  access_expiry = clock 0 + access_token_ttl;
  refresh_token = written secret (refresh_claims jti);
  refresh_jti = jti;
}

abbrev pub row : Text → UserRow
row jti = record {
  id = 1;
  name = codes "Kim";
  google_id = codes "7";
  google_access_token = codes "ga";
  google_refresh_token = codes "gr";
  google_token_expiry = 7;
  current_refresh_jti = some jti;
}

abbrev pub world : Text → World
world jti = record { rows = (email, row jti) ∷ []; faults = [] }

abbrev pub user : User
user = record {
  id = 0;
  email = email;
  name = codes "Kim";
  role = [];
  google_id = codes "7";
  access_token = (tokens (codes "j1")).access_token;
  refresh_token = (tokens (codes "j1")).refresh_token;
  expiry = access_token_ttl;
  current_refresh_jti = some (codes "j1");
  google_auth = some (record { access_token = codes "ga"; refresh_token = codes "gr"; expiry = 7 });
}

pub signed : generate_auth_tokens plain secret email (codes "j2") clock ≡ some (tokens (codes "j2"))
unfolding opened
signed = refl
