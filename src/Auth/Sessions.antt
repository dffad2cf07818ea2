-- ===== src/Auth/Sessions.antt =====
-- The sessions of users: one refresh token at most is active for an e-mail. The events are the
-- writes of the service, in any order, so they are the interleavings of requests.
pub mod Once
pub mod Refinement
pub mod Logout
use rcp_server.Base.{
  ℕ, ◌≡◌, refl, Bool, true, false, not, ◌&&◌, List, [], ◌∷◌, Option, none, some, if◌then◌else◌,
  Text, text_eq, any, arith, Option-cases, inl, inr,
}
use rcp_server.Effects.{Result, ok, err, Stored, next_fault}
use rcp_server.Table.{texts, select, upsert, select-upsert}
use rcp_server.Auth.{
  User, UserRow, Rows, World, is_taken, has_jti, or_kept_jti, upsert_user, rotate_refresh_jti,
  clear_refresh_jti_if_matches, merged, with_jti,
}
use rcp_server.Auth.Jwt.{Jwt}
use rcp_server.Auth.Tokens.{TokenPair, generate_auth_tokens, generate_auth_tokens-some}
use rcp_server.Auth.Refresh.{Grant, finish_refresh, logout, logout_target}

pub data Event : Type 0 where
  upserts : (id : ℕ) (user : User) → Event
  finishes : (grant : Grant) (jti : Text) (clock : ℕ → ℕ) → Event
  logs_out : (now : ℕ) (token : Text) → Event

abbrev pub is_ok : {E A : Type 0} → Result E A → Bool
is_ok (ok _) = true
is_ok (err _) = false

abbrev pub is_true : {E : Type 0} → Result E Bool → Bool
is_true (ok b) = b
is_true (err _) = false

-- The specification: the active session of each e-mail.
abbrev pub Sessions : Type 0
Sessions = Text → Option Text

abbrev pub update : Sessions → Text → Option Text → Sessions
update s email jti other = if text_eq email other then jti else s other

-- what a row promises to the specification
abbrev pub jti_of : Option UserRow → Option Text
jti_of none = none
jti_of (some row) = row.current_refresh_jti

unfoldable pub sessions : Rows → Sessions
sessions rows email = jti_of (select email rows)

-- a session is exchanged for another, or ended, by whoever has its id
abbrev pub exchange : Sessions → Grant → Option Text → Bool × Sessions
exchange s grant jti =
    if has_jti grant.jti (s grant.email) then (true, update s grant.email jti) else (false, s)

abbrev pub exchange_if : Sessions → Option Grant → Bool × Sessions
exchange_if s none = (false, s)
exchange_if s (some grant) = exchange s grant none

abbrev pub can_sign : {A : Type 0} → Option A → Bool
can_sign none = false
can_sign (some _) = true

module _ (jwt : Jwt) (secret_key : Text) where
  -- whether the event succeeds, and the database after it
  unfoldable pub step : World → Event → Bool × World
  step w (upserts id user) = let (r, w') = upsert_user id user w in (is_ok r, w')
  step w (finishes grant jti clock) =
      let (r, w') = finish_refresh jwt secret_key jti clock grant w in (is_ok r, w')
  step w (logs_out now token) = let (r, w') = logout jwt secret_key now token w in (is_true r, w')

  unfoldable pub run : World → List Event → World
  run w [] = w
  run w (e ∷ es) = run (step w e).1 es

  -- what is outside the specification: the database, the JWT library, and an account of Google that
  -- another user has
  unfoldable pub works : World → Event → Bool
  works w (upserts id user) = not (next_fault w.faults).0 && not (any (is_taken user) w.rows)
  works w (finishes grant jti clock) =
      can_sign (generate_auth_tokens jwt secret_key grant.email jti clock)
      && not (next_fault w.faults).0
  works w (logs_out now token) = not (next_fault w.faults).0

  unfoldable pub specified : Bool → Event → Sessions → Bool × Sessions
  specified false e s = (false, s)
  specified true (upserts id user) s =
      (true, update s user.email (or_kept_jti user.current_refresh_jti (s user.email)))
  specified true (finishes grant jti clock) s = exchange s grant (some jti)
  specified true (logs_out now token) s = exchange_if s (logout_target jwt secret_key now token)

  unfoldable pub specified_run : World → List Event → Sessions → Sessions
  specified_run w [] s = s
  specified_run w (e ∷ es) s = specified_run (step w e).1 es (specified (works w e) e s).1
