-- ===== src/SshGateway/Sessions/Safety.antt =====
-- Sends on closed channels and double closes: whether a session is registered, an action on it is to
-- come, or its channel is closed.
use rcp_server.Base.{
  ℕ, zero, suc, ◌+◌, ◌≤◌, ◌≡◌, refl, Bool, true, false, List, [], ◌∷◌, Option, none, some, arith,
  Text, count, ◌==◌, if◌then◌else◌, Option-cases, inl, inr, subst, sym, text_eq, not, ◌||◌,
}
use rcp_server.Table.{
  numbers, texts, select, upsert, IsUnique, select-upsert, upsert-IsUnique, keep-IsUnique,
  count-upsert_row, count-delete,
}
use rcp_server.SshGateway.Sessions.Cases.{
  send_cases, close_cases, resolve_cases, expire_cases, wait_cases,
}
use rcp_server.SshGateway.Sessions.{
  PendingSession, Action, sends, closes, SessionStore, new_session_store, open_session, forget,
  close_channel, resolve, expire, pick, without, perform, wait, Event, opens, resolves, expires,
  performs, waits, step, run,
}

abbrev maps_to : ℕ → Text × ℕ → Bool
maps_to q r = r.1 == q

abbrev acts_on : ℕ → Action → Bool
acts_on q (sends p email) = p == q
acts_on q (closes p) = p == q

abbrev closed_count : Option PendingSession → ℕ
closed_count none = 0
closed_count (some pending) = if pending.closed then 1 else 0

-- who may still write to the session's channel, and whether it has been closed
abbrev pub claims : ℕ → SessionStore → ℕ
claims q s = count (maps_to q) s.m + count (acts_on q) s.actions + closed_count (select q s.heap)

pub record IsSafe (s : SessionStore) : Type 0 where
  pub calm : s.panicked ≡ false
  pub claimed : (q : ℕ) → claims q s ≤ 1
  pub fresh : (q : ℕ) → s.next ≤ q → claims q s ≡ 0
  pub unique : IsUnique s.m

count-without :
    (q i : ℕ) (actions : List Action) (a : Action)
    → pick i actions ≡ some a
    → count (acts_on q) (without i actions) + (if acts_on q a then 1 else 0)
      ≡ count (acts_on q) actions
count-without q i [] a h = absurd (ground arith)
count-without q zero (b ∷ actions) a h = ground arith
count-without q (suc i) (b ∷ actions) a h = ground (arith, count-without q i actions a)

count-without_le :
    (q i : ℕ) (actions : List Action)
    → count (acts_on q) (without i actions) ≤ count (acts_on q) actions
count-without_le q i [] = omega arith
count-without_le q zero (b ∷ actions) = ground arith
count-without_le q (suc i) (b ∷ actions) = ground (arith, count-without_le q i actions)

pub close_channel-some :
    (p : ℕ) (pending : PendingSession) (s : SessionStore)
    → select p s.heap ≡ some pending
    → close_channel p s ≡ record s {
      heap = upsert p (record pending { closed = true }) s.heap;
      panicked = s.panicked || pending.closed;
    }
unfolding close_channel
close_channel-some p pending s h = ground (arith)

module _ (s : SessionStore) (v : IsSafe s) where
  open_session-IsSafe : (nonce code : Text) → IsSafe (open_session nonce code s).1
  unfolding open_session select
  open_session-IsSafe nonce code = record {
    calm = ground (arith, v.calm);
    claimed = λ q.
        ground (arith, v.claimed q, v.fresh s.next, count-upsert_row (maps_to q) nonce s.next s.m);
    fresh = λ q h. ground (arith, v.fresh q, count-upsert_row (maps_to q) nonce s.next s.m);
    unique = ground (arith, upsert-IsUnique nonce s.next s.m v.unique);
  }

  -- a registered session's channel is open, and no action on it is to come
  pub registered :
      (nonce : Text) (p : ℕ)
      → select nonce s.m ≡ some p
      → (count (acts_on p) s.actions ≡ 0)
        × (closed_count (select p s.heap) ≡ 0)
        × (count (maps_to p) (forget nonce s.m) ≡ 0)
  registered nonce p h = ground (arith, v.claimed p, count-delete (maps_to p) nonce s.m v.unique)

  -- a session whose last code is still to be tried
  missed-IsSafe :
      (p : ℕ) (pending pending' : PendingSession)
      → select p s.heap ≡ some pending
      → pending'.closed ≡ pending.closed
      → IsSafe (record s { heap = upsert p pending' s.heap })
  missed-IsSafe p pending pending' found same = record {
    calm = v.calm;
    claimed = λ q. ground (arith, v.claimed q, select-upsert p q pending' s.heap);
    fresh = λ q h. ground (arith, v.fresh q h, select-upsert p q pending' s.heap);
    unique = v.unique;
  }

  -- taking a session out of the map leaves its one claim to an action that is to come
  moved-IsSafe :
      (nonce : Text) (p : ℕ) (a : Action)
      → select nonce s.m ≡ some p
      → ((q : ℕ) → acts_on q a ≡ (p == q))
      → IsSafe (record s { m = forget nonce s.m; actions = a ∷ s.actions })
  moved-IsSafe nonce p a found acts = record {
    calm = v.calm;
    claimed = λ q. ground (arith, v.claimed q, acts q, count-delete (maps_to q) nonce s.m v.unique);
    fresh = λ q h. ground (arith, v.fresh q h, acts q, count-delete (maps_to q) nonce s.m v.unique);
    unique = keep-IsUnique (λ r. not (text_eq r.0 nonce)) s.m v.unique;
  }

  -- closing a session's channel that was just taken out of the map
  dropped-IsSafe :
      (nonce : Text) (p : ℕ) (pending pending' : PendingSession)
      → select nonce s.m ≡ some p
      → select p s.heap ≡ some pending
      → pending'.closed ≡ pending.closed
      → IsSafe
          (close_channel p (record s { m = forget nonce s.m; heap = upsert p pending' s.heap }))
  dropped-IsSafe nonce p pending pending' found here same =
      rw
        (close_channel-some p pending'
          (record s { m = forget nonce s.m; heap = upsert p pending' s.heap })
          (ground (arith, select-upsert p p pending' s.heap)))
        record {
          calm = ground (arith, v.calm, registered nonce p found);
          claimed = λ q. ground (
            arith,
            v.claimed q,
            registered nonce p found,
            count-delete (maps_to q) nonce s.m v.unique,
            select-upsert p q pending' s.heap,
            select-upsert p q (record pending' { closed = true }) (upsert p pending' s.heap),
          );
          fresh = λ q h. ground (
            arith,
            v.fresh q h,
            v.fresh p,
            count-delete (maps_to q) nonce s.m v.unique,
            select-upsert p q pending' s.heap,
            select-upsert p q (record pending' { closed = true }) (upsert p pending' s.heap),
          );
          unique = keep-IsUnique (λ r. not (text_eq r.0 nonce)) s.m v.unique;
        }

  -- the session of an action that was to come: the action was its one claim
  due :
      (i p : ℕ) (a : Action)
      → pick i s.actions ≡ some a
      → acts_on p a ≡ true
      → (count (maps_to p) s.m ≡ 0)
        × (count (acts_on p) (without i s.actions) ≡ 0)
        × (closed_count (select p s.heap) ≡ 0)
  due i p a h acts = ground (arith, v.claimed p, count-without p i s.actions a h)

  picked-IsSafe :
      (i p : ℕ) (a : Action) (pending pending' : PendingSession)
      → pick i s.actions ≡ some a
      → ((q : ℕ) → acts_on q a ≡ (p == q))
      → select p s.heap ≡ some pending
      → IsSafe (record s {
        actions = without i s.actions;
        heap = upsert p pending' s.heap;
        panicked = s.panicked || pending.closed;
      })
  picked-IsSafe i p a pending pending' h acts here = record {
    calm = ground (arith, v.calm, due i p a h, acts p);
    claimed = λ q. ground (
      arith,
      v.claimed q,
      acts q,
      due i p a h,
      count-without q i s.actions a h,
      select-upsert p q pending' s.heap,
    );
    fresh = λ q k. ground (
      arith,
      v.fresh q k,
      acts q,
      count-without q i s.actions a h,
      select-upsert p q pending' s.heap,
    );
    unique = v.unique;
  }

  -- an action on no session at all
  lost-IsSafe : (i : ℕ) → IsSafe (record s { actions = without i s.actions })
  lost-IsSafe i = record {
    calm = v.calm;
    claimed = λ q. ground (arith, v.claimed q, count-without_le q i s.actions);
    fresh = λ q k. ground (arith, v.fresh q k, count-without_le q i s.actions);
    unique = v.unique;
  }

  perform-IsSafe :
      (i : ℕ) → IsSafe (perform (pick i s.actions) (record s { actions = without i s.actions }))
  perform-IsSafe i = elim (Option-cases (pick i s.actions)) [
    | inl h ↦ rw h (lost-IsSafe i)
    | inr (sends p email, h) ↦
        elim (send_cases p email (record s { actions = without i s.actions })) [
          | inl same ↦ rw h (subst IsSafe (sym same) (lost-IsSafe i))
          | inr (pending, here, is) ↦ rw h (
              subst IsSafe (sym is)
                (picked-IsSafe i p (sends p email) pending _ h (λ q. refl) here))
        ]
    | inr (closes p, h) ↦ elim (close_cases p (record s { actions = without i s.actions })) [
      | inl same ↦ rw h (subst IsSafe (sym same) (lost-IsSafe i))
      | inr (pending, here, is) ↦
          rw h (subst IsSafe (sym is) (picked-IsSafe i p (closes p) pending _ h (λ q. refl) here))
    ]
  ]

  resolve-IsSafe : (nonce code email : Text) → IsSafe (resolve nonce code email s).1
  resolve-IsSafe nonce code email = elim (resolve_cases nonce code email s) [
    | inl same ↦ rw same v
    | inr (p, pending, found, here, inl (match, sent)) ↦
        rw sent (moved-IsSafe nonce p (sends p email) found (λ q. refl))
    | inr (p, pending, found, here, inr (inl (left, tried))) ↦
        rw tried (missed-IsSafe p pending _ here refl)
    | inr (p, pending, found, here, inr (inr spent)) ↦
        rw spent (dropped-IsSafe nonce p pending _ found here refl)
  ]

  expire-IsSafe : (p : ℕ) → IsSafe (expire p s)
  expire-IsSafe p = elim (expire_cases p s) [
    | inl same ↦ subst IsSafe (sym same) v
    | inr (pending, here, found, is) ↦
        subst IsSafe (sym is) (moved-IsSafe pending.nonce p (closes p) found (λ q. refl))
  ]

  wait-IsSafe : (p : ℕ) → IsSafe (wait p s).1
  wait-IsSafe p = elim (wait_cases p s) [
    | inl same ↦ subst IsSafe (sym same) v
    | inr (pending, email, here, held, is) ↦
        subst IsSafe (sym is) (missed-IsSafe p pending _ here refl)
  ]

pub step-IsSafe : (s : SessionStore) (e : Event) → IsSafe s → IsSafe (step s e)
unfolding step
step-IsSafe s (opens nonce code) v = open_session-IsSafe s v nonce code
step-IsSafe s (resolves nonce code email) v = resolve-IsSafe s v nonce code email
step-IsSafe s (expires p) v = expire-IsSafe s v p
step-IsSafe s (performs i) v = perform-IsSafe s v i
step-IsSafe s (waits p) v = wait-IsSafe s v p

pub run-IsSafe : (s : SessionStore) (es : List Event) → IsSafe s → IsSafe (run s es)
unfolding run
run-IsSafe s [] v = v
run-IsSafe s (e ∷ es) v = run-IsSafe (step s e) es (step-IsSafe s e v)

pub new_session_store-IsSafe : (max_pending : ℕ) → IsSafe (new_session_store max_pending)
unfolding new_session_store select
new_session_store-IsSafe max_pending = record {
  calm = refl;
  claimed = λ q. omega arith;
  fresh = λ q h. refl;
  unique = tt;
}

-- Whatever the order of the goroutines' steps from a new store on, none sends on a closed channel
-- and none closes a channel twice.
pub run-never_panics :
    (max_pending : ℕ) (es : List Event) → (run (new_session_store max_pending) es).panicked ≡ false
run-never_panics max_pending es =
    (run-IsSafe (new_session_store max_pending) es (new_session_store-IsSafe max_pending)).calm
