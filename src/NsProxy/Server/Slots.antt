-- ===== src/NsProxy/Server/Slots.antt =====
-- The counters and the slots of the accept loop, against its connections.
use rcp_server.Base.{
  ℕ, zero, suc, ◌+◌, ◌≤◌, ◌≡◌, refl, Bool, true, false, List, [], ◌∷◌, Option, none, some, arith,
  ltb_iff, if◌then◌else◌, count, length, Option-cases, sym, subst, ◌≢◌, inl, inr,
}
use rcp_server.NsProxy.Server.{
  Stage, serving, freed, uncounted, Server, new_server, accept, back_off, unwind, stage_at,
  put_stage, advance, stop_serving, drained, Event, accepts, fails, stops, advances, step, run,
  max_delay,
}

abbrev pub holds_slot : Stage → Bool
holds_slot serving = true
holds_slot _ = false

abbrev pub is_counted : Stage → Bool
is_counted uncounted = false
is_counted _ = true

abbrev flag : Bool → ℕ
flag b = if b then 1 else 0

abbrev left_of : (Stage → Bool) → Option Stage → ℕ
left_of p none = 0
left_of p (some c) = flag (p c)

-- what the counters say of the goroutines
pub record IsTrue (s : Server) : Type 0 where
  pub slots : s.sem ≡ count holds_slot s.conns
  pub active : s.active_conns ≡ count is_counted s.conns
  pub waited : s.waiting ≡ length s.conns
  pub bounded : s.sem ≤ s.max_conns
  pub delay : s.temp_delay ≤ max_delay
  pub over : s.serve_done ≡ true → s.conns ≡ []

count-put_stage :
    (p : Stage → Bool) (i : ℕ) (c : Stage) (c' : Option Stage) (cs : List Stage)
    → stage_at i cs ≡ some c
    → count p (put_stage i c' cs) + flag (p c) ≡ count p cs + left_of p c'
count-put_stage p i c c' [] h = absurd (ground arith)
count-put_stage p zero c none (d ∷ cs) h = ground arith
count-put_stage p zero c (some e) (d ∷ cs) h = ground arith
count-put_stage p (suc i) c c' (d ∷ cs) h = ground (arith, count-put_stage p i c c' cs)

length-put_stage :
    (i : ℕ) (c : Stage) (c' : Option Stage) (cs : List Stage)
    → stage_at i cs ≡ some c
    → length (put_stage i c' cs) + 1 ≡ length cs + left_of (λ d. true) c'
length-put_stage i c c' [] h = absurd (ground arith)
length-put_stage zero c none (d ∷ cs) h = ground arith
length-put_stage zero c (some e) (d ∷ cs) h = ground arith
length-put_stage (suc i) c c' (d ∷ cs) h = ground (arith, length-put_stage i c c' cs)

length-zero : (cs : List Stage) → length cs ≡ 0 → cs ≡ []
length-zero [] h = refl
length-zero (c ∷ cs) h = absurd (ground arith)

over_none : (i : ℕ) (s : Server) {c : Stage} → stage_at i s.conns ≡ some c → s.conns ≢ []
over_none i s h e = absurd (ground (arith, h, e))

advance-none : (i : ℕ) (s : Server) → stage_at i s.conns ≡ none → advance i s ≡ s
unfolding advance
advance-none i s h = ground arith

if-IsTrue :
    (b : Bool) (s t : Server)
    → (b ≡ true → IsTrue s)
    → (b ≡ false → IsTrue t)
    → IsTrue (if b then s else t)
if-IsTrue true s t p q = p refl
if-IsTrue false s t p q = q refl

module _ (s : Server) (v : IsTrue s) where
  accept-IsTrue : s.serve_done ≡ false → IsTrue (accept s)
  unfolding accept
  accept-IsTrue h = record {
    slots = ground (arith, v.slots);
    active = ground (arith, v.active);
    waited = ground (arith, v.waited);
    bounded = ground (arith, v.bounded, ltb_iff s.sem s.max_conns);
    delay = ground arith;
    over = λ o. ground (arith, v.over);
  }

  back_off-IsTrue : IsTrue (back_off s)
  unfolding back_off
  back_off-IsTrue = record {
    slots = v.slots;
    active = v.active;
    waited = v.waited;
    bounded = v.bounded;
    delay = ground (arith, v.delay);
    over = v.over;
  }

  stop_serving-IsTrue : IsTrue (stop_serving s)
  unfolding stop_serving
  stop_serving-IsTrue = record {
    slots = ground (arith, v.slots);
    active = ground (arith, v.active);
    waited = ground (arith, v.waited);
    bounded = ground (arith, v.bounded);
    delay = ground (arith, v.delay);
    over = λ o. ground (arith, v.over, v.waited, length-zero s.conns);
  }

  serving-IsTrue : (i : ℕ) → stage_at i s.conns ≡ some serving → IsTrue (advance i s)
  unfolding advance unwind
  serving-IsTrue i h = record {
    slots = ground (arith, v.slots, count-put_stage holds_slot i serving (some freed) s.conns h);
    active = ground (arith, v.active, count-put_stage is_counted i serving (some freed) s.conns h);
    waited = ground (arith, v.waited, length-put_stage i serving (some freed) s.conns h);
    bounded = ground (arith, v.bounded);
    delay = ground (arith, v.delay);
    over = λ o. ground (arith, v.over, over_none i s h);
  }

  freed-IsTrue : (i : ℕ) → stage_at i s.conns ≡ some freed → IsTrue (advance i s)
  unfolding advance unwind
  freed-IsTrue i h = record {
    slots = ground (arith, v.slots, count-put_stage holds_slot i freed (some uncounted) s.conns h);
    active =
        ground (arith, v.active, count-put_stage is_counted i freed (some uncounted) s.conns h);
    waited = ground (arith, v.waited, length-put_stage i freed (some uncounted) s.conns h);
    bounded = ground (arith, v.bounded);
    delay = ground (arith, v.delay);
    over = λ o. ground (arith, v.over, over_none i s h);
  }

  uncounted-IsTrue : (i : ℕ) → stage_at i s.conns ≡ some uncounted → IsTrue (advance i s)
  unfolding advance unwind
  uncounted-IsTrue i h = record {
    slots = ground (arith, v.slots, count-put_stage holds_slot i uncounted none s.conns h);
    active = ground (arith, v.active, count-put_stage is_counted i uncounted none s.conns h);
    waited = ground (arith, v.waited, length-put_stage i uncounted none s.conns h);
    bounded = ground (arith, v.bounded);
    delay = ground (arith, v.delay);
    over = λ o. ground (arith, v.over, over_none i s h);
  }

  idle-IsTrue : (i : ℕ) → stage_at i s.conns ≡ none → IsTrue (advance i s)
  idle-IsTrue i h = subst IsTrue (sym (advance-none i s h)) v

  advance-IsTrue : (i : ℕ) → IsTrue (advance i s)
  advance-IsTrue i = elim (Option-cases (stage_at i s.conns)) [
    | inl h ↦ idle-IsTrue i h
    | inr (serving, h) ↦ serving-IsTrue i h
    | inr (freed, h) ↦ freed-IsTrue i h
    | inr (uncounted, h) ↦ uncounted-IsTrue i h
  ]

pub step-IsTrue : (s : Server) (e : Event) → IsTrue s → IsTrue (step s e)
unfolding step
step-IsTrue s accepts v = if-IsTrue s.serve_done s (accept s) (λ h. v) (λ h. accept-IsTrue s v h)
step-IsTrue s fails v = if-IsTrue s.serve_done s (back_off s) (λ h. v) (λ h. back_off-IsTrue s v)
step-IsTrue s stops v = stop_serving-IsTrue s v
step-IsTrue s (advances i) v = advance-IsTrue s v i

run-IsTrue_from : (s : Server) (es : List Event) → IsTrue s → IsTrue (run s es)
unfolding run
run-IsTrue_from s [] v = v
run-IsTrue_from s (e ∷ es) v = run-IsTrue_from (step s e) es (step-IsTrue s e v)

new_server-IsTrue : (max_conns : ℕ) → IsTrue (new_server max_conns)
unfolding new_server
new_server-IsTrue max_conns = record {
  slots = refl;
  active = refl;
  waited = refl;
  bounded = omega arith;
  delay = omega arith;
  over = λ o. refl;
}

pub run-IsTrue : (max_conns : ℕ) (es : List Event) → IsTrue (run (new_server max_conns) es)
run-IsTrue max_conns es = run-IsTrue_from (new_server max_conns) es (new_server-IsTrue max_conns)

-- When Shutdown reports that the server is drained, no goroutine of a connection is left.
run-drained :
    (max_conns : ℕ) (es : List Event)
    → drained (run (new_server max_conns) es) ≡ true
    → (run (new_server max_conns) es).conns ≡ []
unfolding drained
run-drained max_conns es h = (run-IsTrue max_conns es).over (ground arith)
