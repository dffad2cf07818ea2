-- ===== src/SshGateway/Sessions/Cases.antt =====
-- What each step does to the store of pending sessions, branch by branch.
use rcp_server.Base.{
  ℕ, suc, ◌≤◌, ◌≡◌, true, ◌||◌, ◌∷◌, none, some, arith, Text, ◌==◌, ==_iff, Option-cases,
  Bool-cases, ◌⊎◌, inl, inr, text_eq, leb, leb_iff, text_eq_iff,
}
use rcp_server.Table.{numbers, texts, select, upsert}
use rcp_server.SshGateway.Sessions.{
  PendingSession, sends, closes, SessionStore, done, nonce_unknown, code_mismatch, forget,
  close_channel, match_code, resolve, expire, send, offer, wait, max_code_attempts,
}

pub send_cases :
    (p : ℕ) (email : Text) (s : SessionStore)
    → (send p email s ≡ s)
      ⊎ ((pending : PendingSession) × (select p s.heap ≡ some pending)
          × (send p email s ≡ record s {
            heap = upsert p (offer email pending) s.heap;
            panicked = s.panicked || pending.closed;
          }))
unfolding send
send_cases p email s = elim (Option-cases (select p s.heap)) [
  | inl h ↦ inl (ground arith)
  | inr (pending, h) ↦ inr (pending, h, ground arith)
]

pub close_cases :
    (p : ℕ) (s : SessionStore)
    → (close_channel p s ≡ s)
      ⊎ ((pending : PendingSession) × (select p s.heap ≡ some pending)
          × (close_channel p s ≡ record s {
            heap = upsert p (record pending { closed = true }) s.heap;
            panicked = s.panicked || pending.closed;
          }))
unfolding close_channel
close_cases p s = elim (Option-cases (select p s.heap)) [
  | inl h ↦ inl (ground arith)
  | inr (pending, h) ↦ inr (pending, h, ground arith)
]

-- the session with one more failed attempt
abbrev pub tried : PendingSession → PendingSession
tried pending = record pending { code_attempts = suc pending.code_attempts }

pub resolve_cases :
    (nonce code email : Text) (s : SessionStore)
    → (resolve nonce code email s ≡ (nonce_unknown, s))
      ⊎ ((p : ℕ) × (pending : PendingSession) × (select nonce s.m ≡ some p)
          × (select p s.heap ≡ some pending)
          × (((pending.code ≡ code)
                × (resolve nonce code email s ≡ (
                  done,
                  record s { m = forget nonce s.m; actions = sends p email ∷ s.actions },
                )))
              ⊎ (((suc pending.code_attempts ≤ 4)
                    × (resolve nonce code email s
                        ≡ (code_mismatch, record s { heap = upsert p (tried pending) s.heap })))
                  ⊎ (resolve nonce code email s ≡ (
                    code_mismatch,
                    close_channel p
                        (record s { m = forget nonce s.m; heap = upsert p (tried pending) s.heap }),
                  )))))
unfolding resolve match_code
resolve_cases nonce code email s = elim (Option-cases (select nonce s.m)) [
  | inl h ↦ inl (ground arith)
  | inr (p, found) ↦ elim (Option-cases (select p s.heap)) [
    | inl h ↦ inl (ground arith)
    | inr (pending, here) ↦ inr (
      p,
      pending,
      found,
      here,
      elim (Bool-cases (text_eq pending.code code)) [
        | inl same ↦ inl (ground (arith, text_eq_iff pending.code code), ground arith)
        | inr other ↦ elim (Bool-cases (leb max_code_attempts (suc pending.code_attempts))) [
          | inl spent ↦ inr (inr (ground arith))
          | inr left ↦ inr (
              inl (
                ground (arith, leb_iff max_code_attempts (suc pending.code_attempts)),
                ground arith,
              ))
        ]
      ],
    )
  ]
]

pub expire_cases :
    (p : ℕ) (s : SessionStore)
    → (expire p s ≡ s)
      ⊎ ((pending : PendingSession) × (select p s.heap ≡ some pending)
          × (select pending.nonce s.m ≡ some p)
          × (expire p s
              ≡ record s { m = forget pending.nonce s.m; actions = closes p ∷ s.actions }))
unfolding expire
expire_cases p s = elim (Option-cases (select p s.heap)) [
  | inl h ↦ inl (ground arith)
  | inr (pending, here) ↦ elim (Option-cases (select pending.nonce s.m)) [
    | inl h ↦ inl (ground arith)
    | inr (current, found) ↦ elim (Bool-cases (current == p)) [
      | inl same ↦ inr (pending, here, ground (arith, ==_iff current p), ground arith)
      | inr other ↦ inl (ground arith)
    ]
  ]
]

pub wait_cases :
    (p : ℕ) (s : SessionStore)
    → ((wait p s).1 ≡ s)
      ⊎ ((pending : PendingSession) × (email : Text) × (select p s.heap ≡ some pending)
          × (pending.resolved ≡ some email)
          × ((wait p s).1
              ≡ record s { heap = upsert p (record pending { resolved = none }) s.heap }))
unfolding wait
wait_cases p s = elim (Option-cases (select p s.heap)) [
  | inl h ↦ inl (ground arith)
  | inr (pending, h) ↦ elim (Option-cases pending.resolved) [
    | inl empty ↦ inl (ground arith)
    | inr (email, held) ↦ inr (pending, email, h, held, ground arith)
  ]
]
