-- ===== src/SshGateway/Sessions/Delivery.antt =====
-- Whom an e-mail reaches: the waiters, and the calls of Resolve.
use rcp_server.Base.{
  ℕ, zero, suc, ◌≡◌, refl, Bool, true, false, ◌&&◌, ◌||◌, List, [], ◌∷◌, Option, none, some, arith,
  Text, any, ◌==◌, ==_iff, ◌⊎◌, inl, inr, sym, subst, ◌∙◌, text_eq, text_eq_iff, Option-cases,
  Bool-cases,
}
use rcp_server.Table.{numbers, texts, select, select-upsert, upsert}
use rcp_server.SshGateway.Sessions.Cases.{
  send_cases, close_cases, resolve_cases, expire_cases, wait_cases, tried,
}
use rcp_server.SshGateway.Sessions.{
  PendingSession, Action, sends, closes, SessionStore, new_session_store, email_of, open_session,
  forget, close_channel, resolve, expire, send, offer, pick, without, wait, Event, opens, resolves,
  expires, performs, waits, step, run,
}

-- A Resolve among the events named the session p by its nonce, gave its code, and carried the e-mail.
pub data Resolved (p : ℕ) (email : Text) : SessionStore → List Event → Type 0 where
  now :
      {s : SessionStore} {es : List Event} (nonce code : Text) (pending : PendingSession)
      → select nonce s.m ≡ some p
      → select p s.heap ≡ some pending
      → pending.code ≡ code
      → Resolved p email s (resolves nonce code email ∷ es)
  later :
      {s : SessionStore} {e : Event} {es : List Event}
      → Resolved p email (step s e) es
      → Resolved p email s (e ∷ es)

module _ (p : ℕ) (email : Text) where
  abbrev carries : Action → Bool
  carries (sends q to) = q == p && text_eq to email
  carries (closes q) = false

  abbrev holds : Option PendingSession → Bool
  holds none = false
  holds (some pending) = elim pending.resolved [ none ↦ false | some to ↦ text_eq to email ]

  -- the e-mail is in the session's channel, or a goroutine is about to put it there
  abbrev pub is_coming : SessionStore → Bool
  is_coming s = any carries s.actions || holds (select p s.heap)

  new_session_store-is_coming :
      (max_pending : ℕ) → is_coming (new_session_store max_pending) ≡ false
  unfolding new_session_store select
  new_session_store-is_coming max_pending = refl

  any-without :
      (i : ℕ) (actions : List Action)
      → any carries (without i actions) ≡ true
      → any carries actions ≡ true
  any-without i [] h = h
  any-without zero (a ∷ actions) h = ground arith
  any-without (suc i) (a ∷ actions) h = ground (arith, any-without i actions)

  any-pick :
      (i : ℕ) (actions : List Action) (a : Action)
      → pick i actions ≡ some a
      → carries a ≡ true
      → any carries actions ≡ true
  any-pick i [] a h c = absurd (ground arith)
  any-pick zero (b ∷ actions) a h c = ground arith
  any-pick (suc i) (b ∷ actions) a h c = ground (arith, any-pick i actions a)

  close-is_coming : (q : ℕ) (s : SessionStore) → is_coming (close_channel q s) ≡ is_coming s
  close-is_coming q s = elim (close_cases q s) [
    | inl same ↦ rw same
    | inr (pending, here, is) ↦
        rw is
          (ground (arith, select-upsert q p (record pending { closed = true }) s.heap, ==_iff q p))
  ]

  send-is_coming :
      (q : ℕ) (to : Text) (s : SessionStore)
      → is_coming (send q to s) ≡ true
      → (is_coming s ≡ true) ⊎ (carries (sends q to) ≡ true)
  send-is_coming q to s = elim (send_cases q to s) [
    | inl same ↦ rw same (λ h. inl h)
    | inr (pending, here, is) ↦
        rw is (λ h. ground (arith, h, select-upsert q p (offer to pending) s.heap, ==_iff q p))
  ]

  performs-is_coming :
      (i : ℕ) (s : SessionStore) → is_coming (step s (performs i)) ≡ true → is_coming s ≡ true
  unfolding step
  performs-is_coming i s h = elim (Option-cases (pick i s.actions)) [
    | inl none_left ↦ ground (arith, any-without i s.actions)
    | inr (sends q to, at) ↦ ground (
      arith,
      any-without i s.actions,
      any-pick i s.actions (sends q to) at,
      send-is_coming q to (record s { actions = without i s.actions }),
    )
    | inr (closes q, at) ↦ ground (
      arith,
      any-without i s.actions,
      close-is_coming q (record s { actions = without i s.actions }),
    )
  ]

  waits-is_coming : (q : ℕ) (s : SessionStore) → is_coming (wait q s).1 ≡ true → is_coming s ≡ true
  waits-is_coming q s = elim (wait_cases q s) [
    | inl same ↦ rw same (λ h. h)
    | inr (pending, to, here, held, is) ↦ rw is (λ h.
        ground
          (arith, h, select-upsert q p (record pending { resolved = none }) s.heap, ==_iff q p))
  ]

  expire-is_coming : (q : ℕ) (s : SessionStore) → is_coming (expire q s) ≡ is_coming s
  expire-is_coming q s = elim (expire_cases q s) [
    | inl same ↦ rw same
    | inr (pending, here, found, is) ↦ rw is
  ]

  open-is_coming :
      (nonce code : Text) (s : SessionStore)
      → is_coming (open_session nonce code s).1 ≡ true
      → is_coming s ≡ true
  unfolding open_session select
  open-is_coming nonce code s h = ground arith

  -- the Resolve that names p, by its code, with the e-mail
  IsResolution : SessionStore → Text → Text → Text → Type 0
  IsResolution s nonce code to =
      (select nonce s.m ≡ some p)
      × ((pending : PendingSession) × (select p s.heap ≡ some pending)
          × (pending.code ≡ code)
          × (to ≡ email))

  resolve-is_coming :
      (nonce code to : Text) (s : SessionStore)
      → is_coming (resolve nonce code to s).1 ≡ true
      → (is_coming s ≡ true) ⊎ IsResolution s nonce code to
  unfolding IsResolution
  resolve-is_coming nonce code to s = elim (resolve_cases nonce code to s) [
    | inl same ↦ rw same (λ h. inl h)
    | inr (q, pending, found, here, inl (match, sent)) ↦ rw sent (λ h.
        elim (Bool-cases (carries (sends q to))) [
          | inl sent_on ↦ inr (
            ground (arith, ==_iff q p),
            (pending, ground (arith, ==_iff q p), match, ground (arith, text_eq_iff to email)),
          )
          | inr other ↦ inl (ground (arith, h))
        ])
    | inr (q, pending, found, here, inr (inl (left, missed))) ↦
        rw missed
          (λ h. inl (ground (arith, h, select-upsert q p (tried pending) s.heap, ==_iff q p)))
    | inr (q, pending, found, here, inr (inr spent)) ↦ rw spent (λ h. inl (
        ground (
          arith,
          h,
          close-is_coming q
              (record s { m = forget nonce s.m; heap = upsert q (tried pending) s.heap }),
          select-upsert q p (tried pending) s.heap,
          ==_iff q p,
        )))
  ]

  resolves-Resolved :
      (nonce code to : Text) (s : SessionStore) (es : List Event)
      → IsResolution s nonce code to
      → Resolved p email s (resolves nonce code to ∷ es)
  unfolding IsResolution
  resolves-Resolved nonce code to s es (found, (pending, here, match, same)) =
      subst (λ x. Resolved p email s (resolves nonce code x ∷ es)) (sym same)
        (now nonce code pending found here match)

  step-is_coming :
      (s : SessionStore) (e : Event) (es : List Event)
      → is_coming (step s e) ≡ true
      → (is_coming s ≡ true) ⊎ Resolved p email s (e ∷ es)
  unfolding step
  step-is_coming s (opens nonce code) es h = inl (open-is_coming nonce code s h)
  step-is_coming s (resolves nonce code to) es h = elim (resolve-is_coming nonce code to s h) [
    | inl coming ↦ inl coming
    | inr resolution ↦ inr (resolves-Resolved nonce code to s es resolution)
  ]
  step-is_coming s (expires q) es h = inl (sym (expire-is_coming q s) ∙ h)
  step-is_coming s (performs i) es h = inl (performs-is_coming i s h)
  step-is_coming s (waits q) es h = inl (waits-is_coming q s h)

  run-is_coming :
      (s : SessionStore) (es : List Event)
      → is_coming (run s es) ≡ true
      → (is_coming s ≡ true) ⊎ Resolved p email s es
  unfolding run
  run-is_coming s [] h = inl h
  run-is_coming s (e ∷ es) h = elim (run-is_coming (step s e) es h) [
    | inl coming ↦ step-is_coming s e es coming
    | inr later_on ↦ inr (later later_on)
  ]

  wait-is_coming : (s : SessionStore) → (wait p s).0 ≡ email_of email → is_coming s ≡ true
  unfolding wait
  wait-is_coming s h = ground (arith, text_eq_iff email email)

  -- A session's waiter is given an e-mail only where a Resolve that named the session by its nonce,
  -- and gave its code, carried that e-mail, whatever the order of the goroutines' steps.
  pub wait-Resolved :
      (max_pending : ℕ) (es : List Event)
      → (wait p (run (new_session_store max_pending) es)).0 ≡ email_of email
      → Resolved p email (new_session_store max_pending) es
  wait-Resolved max_pending es h =
      elim (run-is_coming (new_session_store max_pending) es (wait-is_coming _ h)) [
        | inl coming ↦ absurd (ground (arith, new_session_store-is_coming max_pending))
        | inr resolution ↦ resolution
      ]
