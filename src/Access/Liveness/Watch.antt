-- ===== src/Access/Liveness/Watch.antt =====
-- What a console that is still up shows, and why one was torn down.
use rcp_server.Base.{
  ℕ, zero, suc, ◌+◌, ◌<◌, ◌≡◌, refl, Bool, true, false, List, [], ◌∷◌, ◌++◌, none, arith, leb_iff,
  all, ap,
}
use rcp_server.Access.Liveness.{ConsoleLiveness, touch, probe, check, Event, moves, ticks, watch}

-- the last time of the events at which bytes moved, if any did
abbrev pub last_move : ℕ → List Event → ℕ
last_move since [] = since
last_move since (moves zero now ∷ es) = last_move since es
last_move since (moves (suc n) now ∷ es) = last_move now es
last_move since (ticks now results ∷ es) = last_move since es

probe-none : (i : ℕ) (results : List Bool) → probe i results ≡ none → all (λ b. b) results ≡ true
unfolding probe
probe-none i [] h = refl
probe-none i (true ∷ results) h = probe-none (suc i) results h
probe-none i (false ∷ results) h = absurd (ground arith)

-- A console that is still watched after a tick was, at that tick, younger than its maximal lifetime,
-- had moved bytes within the idle timeout, and passed every probe.
watch-none :
    (before : List Event) (now : ℕ) (results : List Bool) (after : List Event) (l : ConsoleLiveness)
    → watch l (before ++ (ticks now results ∷ after)) ≡ none
    → (now < l.started + l.max_lifetime)
      × (now < last_move l.last_active before + l.idle_timeout)
      × (all (λ b. b) results ≡ true)
unfolding watch check touch
watch-none [] now results after l h = ground (
  arith,
  leb_iff (l.started + l.max_lifetime) now,
  leb_iff (l.last_active + l.idle_timeout) now,
  probe-none 0 results,
)
watch-none (moves zero t ∷ before) now results after l h = watch-none before now results after l h
watch-none (moves (suc n) t ∷ before) now results after l h =
    watch-none before now results after (touch t l) h
watch-none (ticks t rs ∷ before) now results after l h =
    watch-none before now results after l (ground arith)

-- at every tick the console is young, has moved bytes lately, and passes the probes
abbrev pub IsActive : ConsoleLiveness → List Event → Type 0
IsActive l es =
    (before after : List Event) (now : ℕ) (results : List Bool)
    → es ≡ before ++ (ticks now results ∷ after)
    → (now < l.started + l.max_lifetime)
      × (now < last_move l.last_active before + l.idle_timeout)
      × (all (λ b. b) results ≡ true)

probe-all : (i : ℕ) (results : List Bool) → all (λ b. b) results ≡ true → probe i results ≡ none
unfolding probe
probe-all i [] h = refl
probe-all i (true ∷ results) h = probe-all (suc i) results h
probe-all i (false ∷ results) h = absurd (ground arith)

-- A console that is active at every tick is never torn down.
watch-IsActive : (es : List Event) (l : ConsoleLiveness) → IsActive l es → watch l es ≡ none
unfolding watch check touch
watch-IsActive [] l a = refl
watch-IsActive (moves zero t ∷ es) l a = watch-IsActive es l (λ before after now results e.
    a (moves zero t ∷ before) after now results (ap (λ x. moves zero t ∷ x) e))
watch-IsActive (moves (suc n) t ∷ es) l a =
    watch-IsActive es (touch t l) (λ before after now results e.
      a (moves (suc n) t ∷ before) after now results (ap (λ x. moves (suc n) t ∷ x) e))
watch-IsActive (ticks t rs ∷ es) l a = ground (
  arith,
  a [] es t rs refl,
  leb_iff (l.started + l.max_lifetime) t,
  leb_iff (l.last_active + l.idle_timeout) t,
  probe-all 0 rs,
  watch-IsActive es l (λ before after now results e.
      a (ticks t rs ∷ before) after now results (ap (λ x. ticks t rs ∷ x) e)),
)
