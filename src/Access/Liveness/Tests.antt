-- ===== src/Access/Liveness/Tests.antt =====
-- Runs of the watcher at concrete events.
use rcp_server.Base.{◌≡◌, refl, true, false, some, [], ◌∷◌, arith}
use rcp_server.Access.Liveness.{
  ConsoleLiveness, new_console_liveness, touch, probe, check, idle, lifetime, probe_failed, moves,
  ticks, watch,
}
use rcp_server.Access.Liveness.Watch.{IsActive}

abbrev l : ConsoleLiveness
l = record { started = 100; idle_timeout = 30; max_lifetime = 200; last_active = 100 }

opened : Unit {0}
unfolding new_console_liveness touch probe check watch
opened = tt

quiet : watch (new_console_liveness 100 30 200) (moves 0 110 ∷ ticks 130 [] ∷ []) ≡ some idle
unfolding opened
quiet = refl

old : watch l (moves 4 280 ∷ ticks 300 [] ∷ []) ≡ some lifetime
unfolding opened
old = refl

dead : watch l (ticks 110 (true ∷ false ∷ []) ∷ []) ≡ some (probe_failed 1)
unfolding opened
dead = refl

one_tick : IsActive l (ticks 120 (true ∷ []) ∷ [])
one_tick [] after now results e = ground arith
one_tick (_ ∷ []) after now results e = absurd (ground arith)
one_tick (_ ∷ _ ∷ before) after now results e = absurd (ground arith)
