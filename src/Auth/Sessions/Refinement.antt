-- ===== src/Auth/Sessions/Refinement.antt =====
-- The rows of users and the specification of their sessions.
use rcp_server.Base.{
  ℕ, ◌≡◌, refl, Bool, true, false, List, [], ◌∷◌, Option, none, some, if◌then◌else◌, Text, arith,
  Option-cases, Bool-cases, inl, inr, any, ap, sym, ◌∙◌, not,
}
use mathlib.Core.Path.{fun_ext}
use rcp_server.Effects.{Result, ok, err, next_fault, continue, query}
use rcp_server.Table.{texts, select, upsert, select-upsert}
use rcp_server.Auth.{
  Error, user_lookup_failed, User, UserRow, Rows, World, is_taken, has_jti, or_kept_jti,
  upsert_user, rotate_refresh_jti, clear_refresh_jti_if_matches, merged, with_jti, replaced,
}
use rcp_server.Auth.Jwt.{Jwt}
use rcp_server.Auth.Tokens.{TokenPair, generate_auth_tokens, generate_auth_tokens-some}
use rcp_server.Auth.Refresh.{Grant, if_rotated, finish_refresh, logout, logout_target}
use rcp_server.Auth.Sessions.{
  Event, upserts, finishes, logs_out, Sessions, update, jti_of, sessions, exchange, exchange_if,
  is_ok, is_true, step, run, works, specified, specified_run,
}

sessions-upsert :
    (email : Text) (row : UserRow) (rows : Rows)
    → sessions (upsert email row rows) ≡ update (sessions rows) email row.current_refresh_jti
unfolding sessions
sessions-upsert email row rows = fun_ext λ other. ground (arith, select-upsert email other row rows)

merged-jti :
    (id : ℕ) (user : User) (old : Option UserRow)
    → (merged id user old).current_refresh_jti ≡ or_kept_jti user.current_refresh_jti (jti_of old)
merged-jti id user none = ground arith
merged-jti id user (some row) = refl

-- what an UPDATE that looks for an id does, as an exchange of sessions
abbrev Exchanges : Grant → Option Text → Rows → Option UserRow → Type 0
Exchanges grant jti rows row =
    (b : Bool) × ((rows' : Rows) × (replaced grant.email grant.jti jti rows row ≡ ok (b, rows'))
      × (b ≡ (exchange (sessions rows) grant jti).0)
      × (sessions rows' ≡ (exchange (sessions rows) grant jti).1))

replaced-exchange :
    (grant : Grant) (jti : Option Text) (rows : Rows) (row : Option UserRow)
    → sessions rows grant.email ≡ jti_of row
    → Exchanges grant jti rows row
replaced-exchange grant jti rows none is = (false, (rows, refl, rw is refl, rw is refl))
replaced-exchange grant jti rows (some row) is =
    elim (Bool-cases (has_jti grant.jti row.current_refresh_jti)) [
      | inl same ↦ (
        true,
        (
          upsert grant.email (with_jti jti row) rows,
          rw same refl,
          rw (is, same) refl,
          rw (is, same) (sessions-upsert grant.email (with_jti jti row) rows),
        ),
      )
      | inr other ↦ (false, (rows, rw other refl, rw (is, other) refl, rw (is, other) refl))
    ]

abbrev exchanges :
    (grant : Grant) (jti : Option Text) (rows : Rows)
    → Exchanges grant jti rows (select grant.email rows)
unfolding sessions
exchanges grant jti rows = replaced-exchange grant jti rows (select grant.email rows) refl

-- One event: whether it succeeded, and the sessions after it.
abbrev pub IsRefined : World → Bool × World → Bool × Sessions → Type 0
IsRefined w (b, w') (b', s') = (b ≡ b') × (sessions w'.rows ≡ s')

abbrev refused_if : Bool → Bool × Sessions → Sessions → Bool × Sessions
refused_if fails done s = if fails then (false, s) else done

-- the update behind RotateRefreshJTI and ClearRefreshJTIIfMatches
abbrev update_jti : Grant → Option Text → World → Result Error Bool × World
update_jti grant jti =
    query user_lookup_failed
      (λ rows. replaced grant.email grant.jti jti rows (select grant.email rows))

update_jti-IsRefined :
    (w : World) (grant : Grant) (jti : Option Text)
    → IsRefined w
        (is_true (update_jti grant jti w).0, (update_jti grant jti w).1)
        (refused_if
          (next_fault w.faults).0
          (exchange (sessions w.rows) grant jti)
          (sessions w.rows))
update_jti-IsRefined w grant jti = elim (Bool-cases (next_fault w.faults).0) [
  | inl fails ↦ rw fails (refl, refl)
  | inr answers ↦
      let (b, (rows', is, same, after)) = exchanges grant jti w.rows in
      rw (answers, is) (same, after)
]

-- the answer of a refresh is that of its rotation
is_ok-if_rotated :
    (tokens : TokenPair) (m : Result Error Bool × World)
    → (is_ok (continue (if_rotated tokens) m).0 ≡ is_true m.0)
      × ((continue (if_rotated tokens) m).1 ≡ m.1)
is_ok-if_rotated tokens (ok true, w) = (refl, refl)
is_ok-if_rotated tokens (ok false, w) = (refl, refl)
is_ok-if_rotated tokens (err e, w) = (refl, refl)

module _ (jwt : Jwt) (secret_key : Text) where
  upserts-IsRefined :
      (w : World) (id : ℕ) (user : User)
      → IsRefined w (step jwt secret_key w (upserts id user)) (
          specified jwt secret_key
            (works jwt secret_key w (upserts id user))
            (upserts id user)
            (sessions w.rows))
  unfolding step works specified upsert_user sessions
  upserts-IsRefined w id user = elim (Bool-cases (next_fault w.faults).0) [
    | inl fails ↦ rw fails (refl, refl)
    | inr answers ↦ elim (Bool-cases (any (is_taken user) w.rows)) [
      | inl taken ↦ rw (answers, taken) (refl, refl)
      | inr free ↦
          rw (answers, free)
            (
              refl,
              sessions-upsert user.email (merged id user (select user.email w.rows)) w.rows
                  ∙ ap (update (sessions w.rows) user.email)
                      (merged-jti id user (select user.email w.rows)),
            )
    ]
  ]

  specified-not :
      (fails : Bool) (e : Event) (s : Sessions)
      → refused_if fails (specified jwt secret_key true e s) s
        ≡ specified jwt secret_key (not fails) e s
  unfolding specified
  specified-not true e s = refl
  specified-not false e s = refl

  finishes-IsRefined :
      (w : World) (grant : Grant) (jti : Text) (clock : ℕ → ℕ)
      → IsRefined w (step jwt secret_key w (finishes grant jti clock)) (
          specified jwt secret_key
            (works jwt secret_key w (finishes grant jti clock))
            (finishes grant jti clock)
            (sessions w.rows))
  unfolding step works specified finish_refresh rotate_refresh_jti
  finishes-IsRefined w grant jti clock =
      let e = finishes grant jti clock in
      elim (Option-cases (generate_auth_tokens jwt secret_key grant.email jti clock)) [
        | inl unsigned ↦ rw unsigned (refl, refl)
        | inr (tokens, made) ↦
            let (_, _, is_jti, _) =
              generate_auth_tokens-some jwt secret_key grant.email jti clock tokens made in
            let (same, after) = update_jti-IsRefined w grant (some jti) in
            let m = update_jti grant (some jti) w in
            let spec = specified-not (next_fault w.faults).0 e (sessions w.rows) in
            let t : TokenPair = record tokens { refresh_jti = jti } in
            rw (made, is_jti)
              (
                (is_ok-if_rotated t m).0 ∙ same ∙ ap (λ r. r.0) spec,
                ap (λ v. sessions v.rows) (is_ok-if_rotated t m).1 ∙ after ∙ ap (λ r. r.1) spec,
              )
      ]

  logs_out-IsRefined :
      (w : World) (now : ℕ) (token : Text)
      → IsRefined w (step jwt secret_key w (logs_out now token)) (
          specified jwt secret_key
            (works jwt secret_key w (logs_out now token))
            (logs_out now token)
            (sessions w.rows))
  unfolding step works specified logout clear_refresh_jti_if_matches
  logs_out-IsRefined w now token = elim (Option-cases (logout_target jwt secret_key now token)) [
    | inl nobody ↦ elim (Bool-cases (next_fault w.faults).0) [
      | inl fails ↦ rw (fails, nobody) (refl, refl)
      | inr answers ↦ rw (answers, nobody) (refl, refl)
    ]
    | inr (grant, ends) ↦
        let (same, after) = update_jti-IsRefined w grant none in
        let s : Sessions = sessions w.rows in
        let fails = (next_fault w.faults).0 in
        let spec =
          sym (ap (λ o. refused_if fails (exchange_if s o) s) ends)
          ∙ specified-not fails (logs_out now token) s in
        rw ends (same ∙ ap (λ r. r.0) spec, after ∙ ap (λ r. r.1) spec)
  ]

  pub step-IsRefined :
      (w : World) (e : Event)
      → IsRefined w
          (step jwt secret_key w e)
          (specified jwt secret_key (works jwt secret_key w e) e (sessions w.rows))
  step-IsRefined w (upserts id user) = upserts-IsRefined w id user
  step-IsRefined w (finishes grant jti clock) = finishes-IsRefined w grant jti clock
  step-IsRefined w (logs_out now token) = logs_out-IsRefined w now token

  -- Over any history of sign-ins, rotations and logouts, in any order, the stored ids are those of
  -- the specification: a sign-in opens its session, and a rotation or a logout exchanges or ends the
  -- session whose id it has, and no other; what does not reach the database or is not signed, and a
  -- sign-in with another user's account of Google, changes nothing.
  pub sessions-run :
      (w : World) (es : List Event)
      → sessions (run jwt secret_key w es).rows
        ≡ specified_run jwt secret_key w es (sessions w.rows)
  unfolding run specified_run
  sessions-run w [] = refl
  sessions-run w (e ∷ es) =
      sessions-run (step jwt secret_key w e).1 es
      ∙ ap (specified_run jwt secret_key (step jwt secret_key w e).1 es) (step-IsRefined w e).1
