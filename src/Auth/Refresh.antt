-- ===== src/Auth/Refresh.antt =====
-- user_service.go: the user of an access token, the rotation of refresh tokens, and the logout. A
-- refresh reads the user's row and later rotates it; other requests may run in between.
use rcp_server.Base.{
  ℕ, Bool, false, not, ◌||◌, Option, none, some, if◌then◌else◌, Text, text_eq, is_empty,
}
use rcp_server.Effects.{pure, fail, ◌>>=◌}
use rcp_server.Auth.{
  invalid_access_token, invalid_token_type, user_not_found, invalid_refresh_token, tokens_not_made,
  User, Service, find_by_email, has_jti, rotate_refresh_jti, clear_refresh_jti_if_matches,
}
use rcp_server.Auth.Jwt.{Claims, Jwt}
use rcp_server.Auth.Tokens.{
  TokenPair, token_type_access, token_type_refresh, validate_token, generate_auth_tokens,
}

-- what a refresh goes on with once it has passed its checks
pub record Grant : Type 0 where
  pub email : Text
  pub jti : Text

abbrev pub or_not_found : Option User → Service User
or_not_found none = fail user_not_found
or_not_found (some user) = pure user

-- `user.CurrentRefreshJTI == nil || *user.CurrentRefreshJTI != claims.ID`
abbrev pub granted : Text → User → Service Grant
granted id user =
    if has_jti id user.current_refresh_jti
    then pure (record { email = user.email; jti = id })
    else fail invalid_refresh_token

abbrev pub if_rotated : TokenPair → Bool → Service TokenPair
if_rotated tokens rotated = if rotated then pure tokens else fail invalid_refresh_token

abbrev pub rotate_to : Grant → Option TokenPair → Service TokenPair
rotate_to grant none = fail tokens_not_made
rotate_to grant (some tokens) =
    rotate_refresh_jti grant.email grant.jti tokens.refresh_jti >>= if_rotated tokens

abbrev pub end_session : Option Grant → Service Bool
end_session none = pure false
end_session (some grant) = clear_refresh_jti_if_matches grant.email grant.jti

module _ (jwt : Jwt) (secret_key : Text) where
  abbrev pub user_of_claims : Option Claims → Service User
  user_of_claims none = fail invalid_access_token
  user_of_claims (some c) =
      if text_eq c.kind token_type_access
      then find_by_email c.email >>= or_not_found
      else fail invalid_token_type

  unfoldable pub get_user_by_access_token : ℕ → Text → Service User
  get_user_by_access_token now token = user_of_claims (validate_token jwt secret_key now token)

  abbrev pub begin_with : Option Claims → Service Grant
  begin_with none = fail invalid_refresh_token
  begin_with (some c) =
      if not (text_eq c.kind token_type_refresh)
      then fail invalid_token_type
      else (if is_empty c.id
          then fail invalid_refresh_token
          else find_by_email c.email >>= or_not_found >>= granted c.id)

  -- RefreshAccessToken up to the check of the stored id
  unfoldable pub begin_refresh : ℕ → Text → Service Grant
  begin_refresh now token = begin_with (validate_token jwt secret_key now token)

  -- the rest of RefreshAccessToken, with the id that it draws and its readings of the clock
  unfoldable pub finish_refresh : Text → (ℕ → ℕ) → Grant → Service TokenPair
  finish_refresh jti clock grant =
      rotate_to grant (generate_auth_tokens jwt secret_key grant.email jti clock)

  unfoldable pub refresh_access_token : ℕ → Text → Text → (ℕ → ℕ) → Service TokenPair
  refresh_access_token now token jti clock = begin_refresh now token >>= finish_refresh jti clock

  -- the session that a Logout would end
  abbrev pub ended_by : Option Claims → Option Grant
  ended_by none = none
  ended_by (some c) =
      if not (text_eq c.kind token_type_refresh) || is_empty c.email || is_empty c.id
      then none
      else some (record { email = c.email; jti = c.id })

  unfoldable pub logout_target : ℕ → Text → Option Grant
  logout_target now token =
      if is_empty token then none else ended_by (validate_token jwt secret_key now token)

  unfoldable pub logout : ℕ → Text → Service Bool
  logout now token = end_session (logout_target now token)
