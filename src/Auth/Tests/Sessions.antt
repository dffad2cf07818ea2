-- ===== src/Auth/Tests/Sessions.antt =====
-- Runs of sign-ins, refreshes and logouts, and the theorems on them at concrete requests.
use rcp_server.Base.{◌≡◌, refl, true, false, none, some, List, [], ◌∷◌, codes, text_eq, All}
use rcp_server.Effects.{ok}
use rcp_server.Table.{texts}
use rcp_server.Auth.Tokens.{validate_token}
use rcp_server.Auth.Refresh.{
  get_user_by_access_token, finish_refresh, refresh_access_token, logout_target,
}
use rcp_server.Auth.Sessions.{
  Event, upserts, finishes, logs_out, sessions, update, is_ok, step, run, specified_run,
}
use rcp_server.Auth.Sessions.Refinement.{sessions-run}
use rcp_server.Auth.Sessions.Once.{IsFresh, grant_of, refresh-once}
use rcp_server.Auth.Sessions.Logout.{logout-ends}
use rcp_server.Auth.Login.{allowed_email_domain, has_suffix, process_google_callback}
use rcp_server.Auth.Login.Session.{IsVouched, process_google_callback-opens}
use rcp_server.Auth.Tests.Plain.{plain}
use rcp_server.Auth.Tests.Data.{
  opened, secret, email, google, clock, empty, refresh_claims, tokens, world, user,
}

signs_in :
    process_google_callback plain secret google 1 (codes "j1") clock (codes "code") empty
    ≡ (ok user, world (codes "j1"))
unfolding opened
signs_in = refl

refreshes :
    refresh_access_token plain secret 9 user.refresh_token (codes "j2") clock (world (codes "j1"))
    ≡ (ok (tokens (codes "j2")), world (codes "j2"))
unfolding opened
refreshes = refl

validates : validate_token plain secret 9 user.refresh_token ≡ some (refresh_claims (codes "j1"))
unfolding opened
validates = refl

-- a refresh token is no access token, and an expired one is refused
no_access :
    is_ok (get_user_by_access_token plain secret 9 user.refresh_token (world (codes "j1"))).0
    ≡ false
unfolding opened
no_access = refl

expired : validate_token plain secret 4000000000000 user.access_token ≡ none
unfolding opened
expired = refl

abbrev later_events : List Event
later_events =
    finishes (record { email = email; jti = codes "j1" }) (codes "j3") clock
    ∷ upserts 2 (record user { current_refresh_jti = some (codes "j4") })
    ∷ []

later-IsFresh : All (IsFresh (grant_of (refresh_claims (codes "j1")))) later_events
unfolding opened
later-IsFresh = (refl, (refl, tt))

other_id : text_eq (codes "j2") (codes "j1") ≡ false
unfolding opened
other_id = refl

refresh-once_example :
    (is_ok
        (refresh_access_token plain secret 20 user.refresh_token
          (codes "j5")
          clock
          (run plain secret (world (codes "j2")) later_events)).0
      ≡ false)
    × (is_ok
          (finish_refresh plain secret
            (codes "j5")
            clock
            (grant_of (refresh_claims (codes "j1")))
            (run plain secret (world (codes "j2")) later_events)).0
        ≡ false)
refresh-once_example =
    refresh-once plain secret 9 user.refresh_token (codes "j2") clock (world (codes "j1"))
      (tokens (codes "j2")) (world (codes "j2")) (refresh_claims (codes "j1")) later_events 20
      (codes "j5") clock refreshes validates other_id later-IsFresh

sessions-run_example :
    sessions (run plain secret (world (codes "j1")) later_events).rows
    ≡ specified_run plain secret
        (world (codes "j1"))
        later_events
        (sessions (world (codes "j1")).rows)
sessions-run_example = sessions-run plain secret (world (codes "j1")) later_events

ends : (step plain secret (world (codes "j1")) (logs_out 9 user.refresh_token)).0 ≡ true
unfolding opened
ends = refl

targeted :
    logout_target plain secret 9 user.refresh_token ≡ some (grant_of (refresh_claims (codes "j1")))
unfolding opened
targeted = refl

logout-ends_example :
    (is_ok
        (refresh_access_token plain secret 9 user.refresh_token (codes "j5") clock (
          run plain secret
            (step plain secret (world (codes "j1")) (logs_out 9 user.refresh_token)).1
            [])).0
      ≡ false)
    × (is_ok
          (finish_refresh plain secret (codes "j5") clock (grant_of (refresh_claims (codes "j1"))) (
            run plain secret
              (step plain secret (world (codes "j1")) (logs_out 9 user.refresh_token)).1
              [])).0
        ≡ false)
logout-ends_example =
    logout-ends plain secret 9 user.refresh_token (world (codes "j1"))
      (grant_of (refresh_claims (codes "j1"))) [] 9 user.refresh_token (codes "j5") clock
      (refresh_claims (codes "j1")) ends targeted tt validates refl

process_google_callback-opens_example :
    IsVouched google (codes "code") email
    × (has_suffix email allowed_email_domain ≡ true)
    × (sessions (world (codes "j1")).rows ≡ update (sessions []) email (some (codes "j1")))
process_google_callback-opens_example =
    process_google_callback-opens plain secret google 1 (codes "j1") clock (codes "code") empty user
      (world (codes "j1")) signs_in
