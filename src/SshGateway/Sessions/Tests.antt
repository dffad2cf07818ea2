-- ===== src/SshGateway/Sessions/Tests.antt =====
-- Runs of the store of pending sessions, and its theorems at concrete schedules.
use rcp_server.Base.{◌≡◌, refl, false, none, List, [], ◌∷◌, Text, codes, text_eq}
use rcp_server.Table.{select, upsert}
use rcp_server.SshGateway.Sessions.{
  PendingSession, new_session_store, email_of, nonce_expired, too_many_pending, open_session,
  close_channel, match_code, resolve, expire, send, wait, Event, opens, resolves, expires, performs,
  step, run,
}
use rcp_server.SshGateway.Sessions.Safety.{run-never_panics}
use rcp_server.SshGateway.Sessions.Delivery.{wait-Resolved, Resolved}

abbrev first : Text
first = codes "n1"

abbrev code : Text
code = codes "000042"

abbrev wrong : Text
wrong = codes "999999"

abbrev email : Text
email = codes "a@khu.ac.kr"

-- The session is opened and resolved; its expiry and the delivery come in the unlucky order.
abbrev schedule : List Event
schedule =
    opens first code
    ∷ resolves first wrong email
    ∷ resolves first code email
    ∷ expires 0
    ∷ performs 0
    ∷ []

abbrev guesses : List Event
guesses = opens first code ∷ resolves first wrong email ∷ resolves first wrong email ∷ []

opened : Unit {0}
unfolding new_session_store open_session close_channel match_code resolve expire send wait step run
    select upsert text_eq
opened = tt

delivered : (wait 0 (run (new_session_store 2) schedule)).0 ≡ email_of email
unfolding opened
delivered = refl

-- A third session is refused where two are pending.
refused :
    (open_session
      (codes "n3")
      code
      (run (new_session_store 2) (opens first code ∷ opens (codes "n2") code ∷ []))).0
    ≡ too_many_pending
unfolding opened
refused = refl

-- The fifth wrong code closes the session.
closed :
    (wait 0 (
      run (new_session_store 2) (
        opens first code
        ∷ resolves first wrong email
        ∷ resolves first wrong email
        ∷ resolves first wrong email
        ∷ resolves first wrong email
        ∷ resolves first wrong email
        ∷ resolves first code email
        ∷ performs 0
        ∷ []))).0
    ≡ nonce_expired
unfolding opened
closed = refl

run-never_panics_example : (run (new_session_store 2) schedule).panicked ≡ false
run-never_panics_example = run-never_panics 2 schedule

abbrev guessed : PendingSession
guessed = record { nonce = first; code = code; code_attempts = 2; resolved = none; closed = false }

wait-Resolved_example : Resolved 0 email (new_session_store 2) schedule
wait-Resolved_example = wait-Resolved 0 email 2 schedule delivered
