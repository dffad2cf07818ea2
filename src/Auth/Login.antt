-- ===== src/Auth/Login.antt =====
-- oauth_service.go, and what handler.go makes of the state of an OAuth callback. What Google answers is
-- a parameter: the tokens for a code, and what it vouches for in an id token. White space, the JSON
-- and the base64 of a state are decoded outside.
pub mod Session
pub mod State
use rcp_server.Base.{
  ℕ, Bool, true, false, not, ◌&&◌, ◌||◌, List, [], ◌∷◌, Option, none, some, if◌then◌else◌, Text,
  text_eq, codes, is_empty, reverse, length, all, ◌==◌,
}
use rcp_server.Stdlib.Strings.{cut_prefix, cut, trim_space, is_digit}
use rcp_server.Effects.{Result, ok, err, pure, fail, ◌>>=◌}
use rcp_server.Auth.{
  Error, exchange_failed, invalid_id_token, email_claim_not_found, name_claim_not_found,
  unsupported_email_domain, tokens_not_made, GoogleInfo, User, World, Service, upsert_user,
}
use rcp_server.Auth.Jwt.{Jwt}
use rcp_server.Auth.Tokens.{TokenPair, generate_auth_tokens}

abbrev pub allowed_email_domain : Text
allowed_email_domain = codes "@khu.ac.kr"

-- oauth2.Token; an id token that is not a text is empty
pub record GoogleToken : Type 0 where
  pub access_token : Text
  pub refresh_token : Text
  pub expiry : ℕ
  pub id_token : Text

-- the claims of an id token that are texts
pub record Payload : Type 0 where
  pub email : Option Text
  pub name : Option Text
  pub subject : Text

pub record Google : Type 0 where
  pub exchange : Text → Option GoogleToken
  pub validate : Text → Option Payload

-- verifiedGoogleIdentity
pub record Identity : Type 0 where
  pub email : Text
  pub name : Text
  pub subject : Text
  pub google_token : GoogleToken

abbrev pub starts_with : Text → Text → Bool
starts_with [] s = true
starts_with (p ∷ ps) [] = false
starts_with (p ∷ ps) (c ∷ s) = p == c && starts_with ps s

-- strings.HasSuffix
unfoldable pub has_suffix : Text → Text → Bool
has_suffix s suffix = starts_with (reverse suffix) (reverse s)

-- `!ok || email == ""`
abbrev pub claim_or : {A : Type 0} → Error → Option Text → (Text → Result Error A) → Result Error A
claim_or e none k = err e
claim_or e (some []) k = err e
claim_or e (some (c ∷ cs)) k = k (c ∷ cs)

abbrev pub identity_of : GoogleToken → Option Payload → Result Error Identity
identity_of token none = err invalid_id_token
identity_of token (some payload) = claim_or email_claim_not_found payload.email (λ email.
    claim_or name_claim_not_found payload.name (λ name.
      if has_suffix email allowed_email_domain
      then ok
          (record { email = email; name = name; subject = payload.subject; google_token = token })
      else err unsupported_email_domain))

abbrev pub exchanged : Google → Option GoogleToken → Result Error Identity
exchanged google none = err exchange_failed
exchanged google (some token) = identity_of token (google.validate token.id_token)

unfoldable pub verify_google_code : Google → Text → Result Error Identity
verify_google_code google code = exchanged google (google.exchange code)

-- the user that a sign-in saves and returns
abbrev pub signed_in : Identity → TokenPair → User
signed_in who tokens = record {
  id = 0;
  email = who.email;
  name = who.name;
  role = [];
  google_id = who.subject;
  access_token = tokens.access_token;
  refresh_token = tokens.refresh_token;
  expiry = tokens.access_expiry;
  current_refresh_jti = some tokens.refresh_jti;
  google_auth = some (record {
    access_token = who.google_token.access_token;
    refresh_token = who.google_token.refresh_token;
    expiry = who.google_token.expiry;
  });
}

abbrev pub save_user : ℕ → User → Service User
save_user id user = upsert_user id user >>= (λ _. pure user)

abbrev pub sign_in_with : ℕ → Identity → Option TokenPair → Service User
sign_in_with id who none = fail tokens_not_made
sign_in_with id who (some tokens) = save_user id (signed_in who tokens)

module _ (jwt : Jwt) (secret_key : Text) (google : Google) where
  abbrev pub sign_in : ℕ → Text → (ℕ → ℕ) → Result Error Identity → Service User
  sign_in id jti clock (err e) = fail e
  sign_in id jti clock (ok who) =
      sign_in_with id who (generate_auth_tokens jwt secret_key who.email jti clock)

  -- ProcessGoogleCallback, with the id that a new row draws, and that of the refresh token
  unfoldable pub process_google_callback : ℕ → Text → (ℕ → ℕ) → Text → Service User
  process_google_callback id jti clock code = sign_in id jti clock (verify_google_code google code)

-- parsedSSHState
pub record SshState : Type 0 where
  pub nonce : Text
  pub code : Text

unfoldable pub valid_ssh_code : Text → Bool
valid_ssh_code code = length code == 6 && all is_digit code

abbrev pub ssh_state_of : Option (Text × Text) → Option SshState
ssh_state_of none = none
ssh_state_of (some (nonce, code)) =
    if is_empty nonce || not (valid_ssh_code code)
    then none
    else some (record { nonce = nonce; code = code })

abbrev pub after_prefix : Option Text → Option SshState
after_prefix none = none
after_prefix (some rest) = ssh_state_of (cut b':' rest)

unfoldable pub parse_ssh_state : Text → Option SshState
parse_ssh_state raw = after_prefix (cut_prefix (codes "ssh:") (trim_space raw))

-- validOAuthStateNonce, on the nonce of the state, if it decodes, and the cookie
unfoldable pub valid_oauth_state_nonce : Option Text → Option Text → Bool
valid_oauth_state_nonce none cookie = false
valid_oauth_state_nonce (some nonce) none = false
valid_oauth_state_nonce (some nonce) (some cookie) =
    not (is_empty nonce) && not (is_empty cookie) && text_eq nonce cookie
