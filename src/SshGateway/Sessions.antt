-- ===== src/SshGateway/Sessions.antt =====
-- sessions.go: the store of pending sessions, with the steps of its goroutines. What a method does
-- under the mutex is one step, and what it does after unlocking is another, so a schedule of steps is
-- an interleaving. A pending session is a pointer into `heap`; its channel has one place.
pub mod Cases
pub mod Safety
pub mod Bounds
pub mod Delivery
pub mod Once
mod Tests
use rcp_server.Base.{
  ℕ, zero, suc, ◌+◌, ◌≡◌, Bool, true, false, not, ◌&&◌, ◌||◌, List, [], ◌∷◌, ◌++◌, Option, none,
  some, leb, ltb, ◌==◌, if◌then◌else◌, Text, text_eq, length, keep, count,
}
use rcp_server.Table.{Key, numbers, texts, select, upsert}

abbrev pub max_code_attempts : ℕ
max_code_attempts = 5

abbrev pub default_max_pending_sessions : ℕ
default_max_pending_sessions = 1024

-- pendingSession; `resolved` is the channel: what it holds, and whether it has been closed
pub record PendingSession : Type 0 where
  pub nonce : Text
  pub code : Text
  pub code_attempts : ℕ
  pub resolved : Option Text
  pub closed : Bool

-- what a goroutine still does after it has unlocked the mutex
pub data Action : Type 0 where
  sends : (p : ℕ) (email : Text) → Action
  closes : (p : ℕ) → Action

-- sessionStore, the sessions that New has allocated, and the goroutines' coming actions.
-- `panicked` is set by a send on a closed channel and by closing one twice.
pub record SessionStore : Type 0 where
  pub m : List (Text × ℕ)
  pub max_pending : ℕ
  pub heap : List (ℕ × PendingSession)
  pub next : ℕ
  pub actions : List Action
  pub panicked : Bool

-- newSessionStore; a limit that is not positive is replaced
unfoldable pub new_session_store : ℕ → SessionStore
new_session_store max_pending = record {
  m = [];
  max_pending = if max_pending == 0 then default_max_pending_sessions else max_pending;
  heap = [];
  next = 0;
  actions = [];
  panicked = false;
}

pub data Outcome : Type 0 where
  done : Outcome
  opened : (p : ℕ) → Outcome
  nonce_unknown nonce_expired code_mismatch too_many_pending : Outcome
  email_of : Text → Outcome
  waiting : Outcome

-- New, with the nonce and the code that it drew
unfoldable pub open_session : Text → Text → SessionStore → Outcome × SessionStore
open_session nonce code s = if leb s.max_pending (length s.m) then (too_many_pending, s) else (
  opened s.next,
  record s { m = upsert nonce s.next s.m; heap = (s.next, pending) ∷ s.heap; next = suc s.next },
)
  where
    pending : PendingSession
    pending = record {
      nonce = nonce;
      code = code;
      code_attempts = 0;
      resolved = none;
      closed = false;
    }

-- delete(s.m, nonce)
abbrev pub forget : Text → List (Text × ℕ) → List (Text × ℕ)
forget nonce m = keep (λ r. not (text_eq r.0 nonce)) m

-- close(p.resolved)
unfoldable pub close_channel : ℕ → SessionStore → SessionStore
close_channel p s = elim (select p s.heap) [
  | none ↦ s
  | some pending ↦ record s {
    heap = upsert p (record pending { closed = true }) s.heap;
    panicked = s.panicked || pending.closed;
  }
]

-- what Resolve does for the session that the nonce names, up to its unlocking
unfoldable pub match_code :
    Text → Text → Text → ℕ → PendingSession → SessionStore → Outcome × SessionStore
match_code nonce code email p pending s =
    let missed : SessionStore = record s {
      heap = upsert p (record pending { code_attempts = suc pending.code_attempts }) s.heap;
    } in
    if not (text_eq pending.code code)
    then (
      code_mismatch,
      (if leb max_code_attempts (suc pending.code_attempts)
          then close_channel p (record missed { m = forget nonce s.m })
          else missed),
    )
    else (done, record s { m = forget nonce s.m; actions = sends p email ∷ s.actions })

unfoldable pub resolve : Text → Text → Text → SessionStore → Outcome × SessionStore
resolve nonce code email s = elim (select nonce s.m) [
  | none ↦ (nonce_unknown, s)
  | some p ↦ elim (select p s.heap) [
    | none ↦ (nonce_unknown, s)
    | some pending ↦ match_code nonce code email p pending s
  ]
]

-- the part of expireAfter under the mutex, once the session's time is over
unfoldable pub expire : ℕ → SessionStore → SessionStore
expire p s = elim (select p s.heap) [
  | none ↦ s
  | some pending ↦ elim (select pending.nonce s.m) [
    | none ↦ s
    | some current ↦
        if current == p
        then record s { m = forget pending.nonce s.m; actions = closes p ∷ s.actions }
        else s
  ]
]

abbrev pub offer : Text → PendingSession → PendingSession
offer email pending = elim pending.resolved [
  | none ↦ record pending { resolved = some email }
  | some _ ↦ pending
]

-- `select { case p.resolved <- …: default: }`
unfoldable pub send : ℕ → Text → SessionStore → SessionStore
send p email s = elim (select p s.heap) [
  | none ↦ s
  | some pending ↦ record s {
    heap = upsert p (offer email pending) s.heap;
    panicked = s.panicked || pending.closed;
  }
]

-- The first of the coming actions that the scheduler picks is the one at its number.
abbrev pub pick : ℕ → List Action → Option Action
pick i [] = none
pick zero (a ∷ actions) = some a
pick (suc i) (a ∷ actions) = pick i actions

abbrev pub without : ℕ → List Action → List Action
without i [] = []
without zero (a ∷ actions) = actions
without (suc i) (a ∷ actions) = a ∷ without i actions

abbrev pub perform : Option Action → SessionStore → SessionStore
perform none s = s
perform (some (sends p email)) s = send p email s
perform (some (closes p)) s = close_channel p s

-- the receive of Wait, which takes what the channel holds
unfoldable pub wait : ℕ → SessionStore → Outcome × SessionStore
wait p s = elim (select p s.heap) [
  | none ↦ (waiting, s)
  | some pending ↦ elim pending.resolved [
    | some email ↦
        (email_of email, record s { heap = upsert p (record pending { resolved = none }) s.heap })
    | none ↦ (if pending.closed then (nonce_expired, s) else (waiting, s))
  ]
]

pub data Event : Type 0 where
  opens : (nonce code : Text) → Event
  resolves : (nonce code email : Text) → Event
  expires : (p : ℕ) → Event
  performs : (i : ℕ) → Event
  waits : (p : ℕ) → Event

unfoldable pub step : SessionStore → Event → SessionStore
step s (opens nonce code) = (open_session nonce code s).1
step s (resolves nonce code email) = (resolve nonce code email s).1
step s (expires p) = expire p s
step s (performs i) = perform (pick i s.actions) (record s { actions = without i s.actions })
step s (waits p) = (wait p s).1

unfoldable pub run : SessionStore → List Event → SessionStore
unfolding step
run s [] = s
run s (e ∷ es) = run (step s e) es
