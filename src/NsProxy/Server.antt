-- ===== src/NsProxy/Server.antt =====
-- server.go: the accept loop with its slots. A connection's goroutine ends in three deferred steps: it
-- frees its slot, then counts itself out, then is done for the wait group.
pub mod Slots
mod Tests
use rcp_server.Base.{
  ℕ, zero, suc, ◌+◌, ◌-◌, ◌*◌, ◌≡◌, Bool, true, false, List, [], ◌∷◌, Option, none, some, ltb,
  if◌then◌else◌, ◌==◌,
}

-- how far a connection's goroutine has come
pub data Stage : Type 0 where
  serving : Stage
  freed : Stage
  uncounted : Stage

pub record Server : Type 0 where
  pub max_conns : ℕ
  pub sem : ℕ
  pub waiting : ℕ
  pub serve_done : Bool
  pub active_conns : ℕ
  pub total_dials : ℕ
  pub denied_dials : ℕ
  pub temp_delay : ℕ
  pub conns : List Stage

unfoldable pub new_server : ℕ → Server
new_server max_conns = record {
  max_conns = max_conns;
  sem = 0;
  waiting = 0;
  serve_done = false;
  active_conns = 0;
  total_dials = 0;
  denied_dials = 0;
  temp_delay = 0;
  conns = [];
}

-- Serve, for a connection that Accept gives; the slots are the places of a channel
unfoldable pub accept : Server → Server
accept s =
    if ltb s.sem s.max_conns
    then record s {
      temp_delay = 0;
      sem = suc s.sem;
      total_dials = suc s.total_dials;
      active_conns = suc s.active_conns;
      waiting = suc s.waiting;
      conns = serving ∷ s.conns;
    }
    else record s { temp_delay = 0; denied_dials = suc s.denied_dials }

-- nanoseconds
abbrev pub first_delay : ℕ
first_delay = 10000000

abbrev pub max_delay : ℕ
max_delay = 1000000000

-- Serve, for an error of Accept that passes
unfoldable pub back_off : Server → Server
back_off s =
    let delay = if s.temp_delay == 0 then first_delay else s.temp_delay * 2 in
    record s { temp_delay = if ltb max_delay delay then max_delay else delay }

-- the next deferred step of a goroutine; the last one ends it
unfoldable pub unwind : Stage → Server → Option Stage × Server
unwind serving s = (some freed, record s { sem = s.sem - 1 })
unwind freed s = (some uncounted, record s { active_conns = s.active_conns - 1 })
unwind uncounted s = (none, record s { waiting = s.waiting - 1 })

abbrev pub stage_at : ℕ → List Stage → Option Stage
stage_at i [] = none
stage_at zero (c ∷ cs) = some c
stage_at (suc i) (c ∷ cs) = stage_at i cs

-- what a goroutine's step leaves of the list
abbrev pub put_stage : ℕ → Option Stage → List Stage → List Stage
put_stage i c [] = []
put_stage zero none (d ∷ cs) = cs
put_stage zero (some c) (d ∷ cs) = c ∷ cs
put_stage (suc i) c (d ∷ cs) = d ∷ put_stage i c cs

unfoldable pub advance : ℕ → Server → Server
advance i s = elim (stage_at i s.conns) [
  | none ↦ s
  | some c ↦ let (c', t) = unwind c s in record t { conns = put_stage i c' t.conns }
]

-- Serve returns once the listener is closed and the wait group is empty.
unfoldable pub stop_serving : Server → Server
stop_serving s = if s.waiting == 0 then record s { serve_done = true } else s

-- what Shutdown answers when it looks: drained, or not yet
unfoldable pub drained : Server → Bool
drained s = if s.serve_done then s.active_conns == 0 else false

pub data Event : Type 0 where
  accepts fails stops : Event
  advances : (i : ℕ) → Event

unfoldable pub step : Server → Event → Server
step s accepts = if s.serve_done then s else accept s
step s fails = if s.serve_done then s else back_off s
step s stops = stop_serving s
step s (advances i) = advance i s

unfoldable pub run : Server → List Event → Server
unfolding step
run s [] = s
run s (e ∷ es) = run (step s e) es
