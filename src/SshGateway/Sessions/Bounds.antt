-- ===== src/SshGateway/Sessions/Bounds.antt =====
-- How many sessions may be pending, and how many codes may be tried on one.
use rcp_server.Base.{
  ℕ, suc, ◌≤◌, ◌≡◌, refl, Bool, true, not, List, [], ◌∷◌, Option, none, some, arith, Text, ◌==◌,
  if◌then◌else◌, ◌⊎◌, inl, inr, leb_iff, length, keep, text_eq,
}
use rcp_server.Table.{numbers, texts, select, select-upsert, upsert}
use rcp_server.SshGateway.Sessions.Cases.{
  send_cases, close_cases, resolve_cases, expire_cases, wait_cases, tried,
}
use rcp_server.SshGateway.Sessions.Safety.{
  IsSafe, step-IsSafe, run-IsSafe, new_session_store-IsSafe, registered, close_channel-some,
}
use rcp_server.SshGateway.Sessions.{
  PendingSession, Action, sends, closes, SessionStore, new_session_store, open_session, forget,
  close_channel, match_code, resolve, send, offer, pick, without, perform, Event, opens, resolves,
  expires, performs, waits, step, run, default_max_pending_sessions,
}

module _ {A : Type 0} where
  length-keep : (p : A → Bool) (xs : List A) → length (keep p xs) ≤ length xs
  length-keep p [] = omega arith
  length-keep p (x ∷ xs) = ground (arith, length-keep p xs)

length-upsert :
    (k : Text) (v : ℕ) (rows : List (Text × ℕ)) → length (upsert k v rows) ≤ suc (length rows)
unfolding upsert
length-upsert k v [] = omega arith
length-upsert k v ((j, w) ∷ rows) = ground (arith, length-upsert k v rows)

-- a store with room for what it holds, and the limit it was made with
abbrev pub IsWithin : ℕ → SessionStore → Type 0
IsWithin limit s = (s.max_pending ≡ limit) × (length s.m ≤ limit)

close-m : (p : ℕ) (s : SessionStore) → (close_channel p s).m ≡ s.m
unfolding close_channel
close-m p s = ground arith

close-max_pending : (p : ℕ) (s : SessionStore) → (close_channel p s).max_pending ≡ s.max_pending
unfolding close_channel
close-max_pending p s = ground arith

module _ (limit : ℕ) where
  perform-IsWithin :
      (a : Option Action) (s : SessionStore) → IsWithin limit s → IsWithin limit (perform a s)
  unfolding send
  perform-IsWithin none s v = v
  perform-IsWithin (some (sends p email)) s v = ground arith
  perform-IsWithin (some (closes p)) s v = ground (arith, close-m p s, close-max_pending p s)

  resolve-IsWithin :
      (nonce code email : Text) (s : SessionStore)
      → IsWithin limit s
      → IsWithin limit (resolve nonce code email s).1
  unfolding resolve match_code
  resolve-IsWithin nonce code email s v = elim (resolve_cases nonce code email s) [
    | inl same ↦ rw same v
    | inr (p, pending, found, here, inl (match, sent)) ↦ rw sent (v.0, kept nonce)
    | inr (p, pending, found, here, inr (inl (left, tried))) ↦ rw tried v
    | inr (p, pending, found, here, inr (inr spent)) ↦ rw spent (
        ground (
          arith,
          kept nonce,
          close-m p (record s { m = forget nonce s.m; heap = upsert p (tried pending) s.heap }),
          close-max_pending p
              (record s { m = forget nonce s.m; heap = upsert p (tried pending) s.heap }),
        ))
  ]
    where
      kept : (nonce : Text) → length (forget nonce s.m) ≤ limit
      kept nonce = omega (arith, v.1, length-keep (λ r. not (text_eq r.0 nonce)) s.m)

  step-IsWithin : (s : SessionStore) (e : Event) → IsWithin limit s → IsWithin limit (step s e)
  unfolding step open_session
  step-IsWithin s (opens nonce code) v =
      ground (arith, leb_iff s.max_pending (length s.m), length-upsert nonce s.next s.m)
  step-IsWithin s (resolves nonce code email) v = resolve-IsWithin nonce code email s v
  step-IsWithin s (expires p) v = elim (expire_cases p s) [
    | inl same ↦ rw same v
    | inr (pending, here, found, is) ↦
        rw is (v.0, omega (arith, v.1, length-keep (λ r. not (text_eq r.0 pending.nonce)) s.m))
  ]
  step-IsWithin s (performs i) v =
      perform-IsWithin (pick i s.actions) (record s { actions = without i s.actions }) v
  step-IsWithin s (waits p) v = elim (wait_cases p s) [
    | inl same ↦ rw same v
    | inr (pending, email, here, held, is) ↦ rw is v
  ]

  run-IsWithin : (s : SessionStore) (es : List Event) → IsWithin limit s → IsWithin limit (run s es)
  unfolding run
  run-IsWithin s [] v = v
  run-IsWithin s (e ∷ es) v = run-IsWithin (step s e) es (step-IsWithin s e v)

-- However many sessions are opened, and whatever becomes of them, no more than the store's limit are
-- pending at a time; the limit is the configured one, or the default where that is 0.
run-limit :
    (max_pending : ℕ) (es : List Event)
    → length (run (new_session_store max_pending) es).m
      ≤ (if max_pending == 0 then default_max_pending_sessions else max_pending)
unfolding new_session_store
run-limit max_pending es = (run-IsWithin _ (new_session_store max_pending) es (refl, omega arith)).1

-- a session of which fewer than five codes were wrong, or which the fifth has closed
abbrev pub IsSpared : PendingSession → Type 0
IsSpared pending =
    (pending.code_attempts ≤ 4) ⊎ ((pending.closed ≡ true) × (pending.code_attempts ≡ 5))

abbrev pub AreSpared : List (ℕ × PendingSession) → Type 0
AreSpared heap =
    (q : ℕ) (pending : PendingSession) → select q heap ≡ some pending → IsSpared pending

module _ (heap : List (ℕ × PendingSession)) (h : AreSpared heap) where
  upsert-AreSpared :
      (p : ℕ) (pending : PendingSession) → IsSpared pending → AreSpared (upsert p pending heap)
  upsert-AreSpared p pending spared q other is =
      ground (arith, h q other, select-upsert p q pending heap)

  -- only what was last written to a place counts
  upsert_twice-AreSpared :
      (p : ℕ) (a b : PendingSession) → IsSpared b → AreSpared (upsert p b (upsert p a heap))
  upsert_twice-AreSpared p a b spared q other is =
      ground (arith, h q other, select-upsert p q a heap, select-upsert p q b (upsert p a heap))

module _ (s : SessionStore) (h : AreSpared s.heap) where
  close-AreSpared : (p : ℕ) → AreSpared (close_channel p s).heap
  close-AreSpared p = elim (close_cases p s) [
    | inl same ↦ rw same h
    | inr (pending, here, is) ↦
        rw is (upsert-AreSpared s.heap h p _ (ground (arith, h p pending here)))
  ]

  send-AreSpared : (p : ℕ) (email : Text) → AreSpared (send p email s).heap
  send-AreSpared p email = elim (send_cases p email s) [
    | inl same ↦ rw same h
    | inr (pending, here, is) ↦
        rw is (upsert-AreSpared s.heap h p (offer email pending) (ground (arith, h p pending here)))
  ]

  perform-AreSpared : (a : Option Action) → AreSpared (perform a s).heap
  perform-AreSpared none = h
  perform-AreSpared (some (sends p email)) = send-AreSpared p email
  perform-AreSpared (some (closes p)) = close-AreSpared p

  resolve-AreSpared :
      (nonce code email : Text) → IsSafe s → AreSpared (resolve nonce code email s).1.heap
  resolve-AreSpared nonce code email v = elim (resolve_cases nonce code email s) [
    | inl same ↦ rw same h
    | inr (p, pending, found, here, inl (match, sent)) ↦ rw sent h
    | inr (p, pending, found, here, inr (inl (left, missed))) ↦
        rw missed (upsert-AreSpared s.heap h p (tried pending) (inl left))
    | inr (p, pending, found, here, inr (inr spent)) ↦ rw spent (
        rw
          (close_channel-some p (tried pending)
            (record s { m = forget nonce s.m; heap = upsert p (tried pending) s.heap })
            (ground (arith, select-upsert p p (tried pending) s.heap)))
          (upsert_twice-AreSpared s.heap h p (tried pending)
            (record (tried pending) { closed = true })
            (ground (arith, h p pending here, registered s v nonce p found))))
  ]

opens-AreSpared :
    (s : SessionStore) (nonce code : Text)
    → AreSpared s.heap
    → AreSpared (open_session nonce code s).1.heap
unfolding open_session select
opens-AreSpared s nonce code h q pending is = ground (arith, h q pending)

none-AreSpared : (max_pending : ℕ) → AreSpared (new_session_store max_pending).heap
unfolding new_session_store select
none-AreSpared max_pending q pending is = absurd (ground arith)

step-AreSpared :
    (s : SessionStore) (e : Event) → IsSafe s → AreSpared s.heap → AreSpared (step s e).heap
unfolding step
step-AreSpared s (opens nonce code) v h = opens-AreSpared s nonce code h
step-AreSpared s (resolves nonce code email) v h = resolve-AreSpared s h nonce code email v
step-AreSpared s (expires p) v h = elim (expire_cases p s) [
  | inl same ↦ rw same h
  | inr (pending, here, found, is) ↦ rw is h
]
step-AreSpared s (performs i) v h =
    perform-AreSpared (record s { actions = without i s.actions }) h (pick i s.actions)
step-AreSpared s (waits p) v h = elim (wait_cases p s) [
  | inl same ↦ rw same h
  | inr (pending, email, here, held, is) ↦ rw is (upsert-AreSpared s.heap h p _ (h p pending here))
]

run-AreSpared :
    (s : SessionStore) (es : List Event) → IsSafe s → AreSpared s.heap → AreSpared (run s es).heap
unfolding run
run-AreSpared s [] v h = h
run-AreSpared s (e ∷ es) v h =
    run-AreSpared (step s e) es (step-IsSafe s e v) (step-AreSpared s e v h)

-- Whatever is tried in whatever order, a nonce that still names a session has had at most four wrong
-- codes: the fifth makes the nonce unknown.
run-attempts :
    (max_pending : ℕ) (es : List Event) (nonce : Text) (p : ℕ) (pending : PendingSession)
    → select nonce (run (new_session_store max_pending) es).m ≡ some p
    → select p (run (new_session_store max_pending) es).heap ≡ some pending
    → pending.code_attempts ≤ 4
run-attempts max_pending es nonce p pending found here = ground (
  arith,
  run-AreSpared (new_session_store max_pending) es (new_session_store-IsSafe max_pending)
      (none-AreSpared max_pending) p pending here,
  registered (run (new_session_store max_pending) es)
      (run-IsSafe (new_session_store max_pending) es (new_session_store-IsSafe max_pending)) nonce p
      found,
)
