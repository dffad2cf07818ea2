-- ===== src/Access/Liveness.antt =====
-- console_liveness.go: when a console is torn down. Times are nanoseconds since the epoch.
pub mod Watch
mod Tests
use rcp_server.Base.{
  ℕ, zero, suc, ◌+◌, ◌≡◌, Bool, true, false, List, [], ◌∷◌, Option, none, some, leb, if◌then◌else◌,
}

-- consoleLiveness; the probes' results are read where a check makes them
pub record ConsoleLiveness : Type 0 where
  pub started : ℕ
  pub idle_timeout : ℕ
  pub max_lifetime : ℕ
  pub last_active : ℕ

-- why a console ends: the causes of check, the last with the number of the probe that failed
pub data Cause : Type 0 where
  lifetime idle : Cause
  probe_failed : (i : ℕ) → Cause

unfoldable pub new_console_liveness : ℕ → ℕ → ℕ → ConsoleLiveness
new_console_liveness now idle_timeout max_lifetime = record {
  started = now;
  idle_timeout = idle_timeout;
  max_lifetime = max_lifetime;
  last_active = now;
}

unfoldable pub touch : ℕ → ConsoleLiveness → ConsoleLiveness
touch now l = record l { last_active = now }

-- the loop over the probes, which stops at the first failure
unfoldable pub probe : ℕ → List Bool → Option Cause
probe i [] = none
probe i (passed ∷ rest) = elim passed [ true ↦ probe (suc i) rest | false ↦ some (probe_failed i) ]

unfoldable pub check : ConsoleLiveness → ℕ → List Bool → Option Cause
check l now results =
    if leb (l.started + l.max_lifetime) now
    then some lifetime
    else (if leb (l.last_active + l.idle_timeout) now then some idle else probe 0 results)

-- What happens to a console: trackedConsole reads or writes n bytes, and the ticker of watchConsole.
pub data Event : Type 0 where
  moves : (n now : ℕ) → Event
  ticks : (now : ℕ) (results : List Bool) → Event

-- Read and Write of trackedConsole
abbrev pub moved : ℕ → ℕ → ConsoleLiveness → ConsoleLiveness
moved zero now l = l
moved (suc n) now l = touch now l

-- watchConsole: the cause with which it cancels, if it does
unfoldable pub watch : ConsoleLiveness → List Event → Option Cause
watch l [] = none
watch l (moves n now ∷ es) = watch (moved n now l) es
watch l (ticks now results ∷ es) = elim (check l now results) [
  | none ↦ watch l es
  | some cause ↦ some cause
]
