-- ===== src/Auth/Sessions/Once.antt =====
-- Refresh tokens over a history of events: their single use, and the logout.
use rcp_server.Base.{
  ℕ, ◌≡◌, refl, Bool, true, false, List, [], ◌∷◌, some, Text, text_eq, text_eq_iff, arith,
  Option-cases, inl, inr, All, ap, sym, ◌∙◌, subst,
}
use rcp_server.Effects.{ok, Result-cases}
use rcp_server.Table.{texts}
use rcp_server.Auth.{World, has_jti, find_by_email}
use rcp_server.Auth.Jwt.{Claims, Jwt}
use rcp_server.Auth.Tokens.{TokenPair, token_type_refresh, validate_token, validate_token_iff}
use rcp_server.Auth.Refresh.{
  Grant, begin_refresh, finish_refresh, refresh_access_token, logout_target,
}
use rcp_server.Auth.Sessions.{
  Event, upserts, finishes, logs_out, Sessions, sessions, is_ok, step, run, works, specified,
}
use rcp_server.Auth.Sessions.Refinement.{step-IsRefined}

-- the session of a grant is not active
abbrev pub IsSpent : Grant → Sessions → Type 0
IsSpent grant s = has_jti grant.jti (s grant.email) ≡ false

-- the event does not draw the id of a grant
abbrev pub IsFresh : Grant → Event → Type 0
IsFresh grant (upserts id user) = has_jti grant.jti user.current_refresh_jti ≡ false
IsFresh grant (finishes other jti clock) = text_eq jti grant.jti ≡ false
IsFresh grant (logs_out now token) = Unit

abbrev pub grant_of : Claims → Grant
grant_of c = record { email = c.email; jti = c.id }

module _ (jwt : Jwt) (secret_key : Text) where
  specified-IsSpent :
      (grant : Grant) (works : Bool) (e : Event) (s : Sessions)
      → IsFresh grant e
      → IsSpent grant s
      → IsSpent grant (specified jwt secret_key works e s).1
  unfolding specified
  specified-IsSpent grant false e s f h = h
  specified-IsSpent grant true (upserts id user) s f h =
      ground (arith, text_eq_iff user.email grant.email)
  specified-IsSpent grant true (finishes other jti clock) s f h =
      ground (arith, text_eq_iff other.email grant.email)
  specified-IsSpent grant true (logs_out now token) s f h =
      elim (Option-cases (logout_target jwt secret_key now token)) [
        | inl nobody ↦ rw nobody h
        | inr (other, ends) ↦ rw ends (ground (arith, text_eq_iff other.email grant.email))
      ]

  step-IsSpent :
      (grant : Grant) (w : World) (e : Event)
      → IsFresh grant e
      → IsSpent grant (sessions w.rows)
      → IsSpent grant (sessions (step jwt secret_key w e).1.rows)
  step-IsSpent grant w e f h =
      subst (IsSpent grant) (sym (step-IsRefined jwt secret_key w e).1)
        (specified-IsSpent grant (works jwt secret_key w e) e (sessions w.rows) f h)

  run-IsSpent :
      (grant : Grant) (w : World) (es : List Event)
      → All (IsFresh grant) es
      → IsSpent grant (sessions w.rows)
      → IsSpent grant (sessions (run jwt secret_key w es).rows)
  unfolding run
  run-IsSpent grant w [] f h = h
  run-IsSpent grant w (e ∷ es) f h =
      run-IsSpent grant (step jwt secret_key w e).1 es f.1 (step-IsSpent grant w e f.0 h)

  specified-finishes :
      (grant : Grant) (jti : Text) (clock : ℕ → ℕ) (works : Bool) (s : Sessions)
      → text_eq jti grant.jti ≡ false
      → (specified jwt secret_key works (finishes grant jti clock) s).0 ≡ true
      → IsSpent grant (specified jwt secret_key works (finishes grant jti clock) s).1
  unfolding specified
  specified-finishes grant jti clock false s f h = ground arith
  specified-finishes grant jti clock true s f h =
      ground (arith, text_eq_iff grant.email grant.email)

  -- what a spent grant meets
  specified-refused :
      (grant : Grant) (jti : Text) (clock : ℕ → ℕ) (works : Bool) (s : Sessions)
      → IsSpent grant s
      → (specified jwt secret_key works (finishes grant jti clock) s).0 ≡ false
  unfolding specified
  specified-refused grant jti clock false s h = refl
  specified-refused grant jti clock true s h = rw h refl

  pub finishes-refused :
      (grant : Grant) (jti : Text) (clock : ℕ → ℕ) (w : World)
      → IsSpent grant (sessions w.rows)
      → (step jwt secret_key w (finishes grant jti clock)).0 ≡ false
  finishes-refused grant jti clock w h =
      (step-IsRefined jwt secret_key w (finishes grant jti clock)).0
      ∙ specified-refused grant jti clock _ (sessions w.rows) h

  -- what a refresh has checked when it goes on
  begin_refresh-ok :
      (now : ℕ) (token : Text) (w : World) {grant : Grant} {w' : World}
      → begin_refresh jwt secret_key now token w ≡ (ok grant, w')
      → (c : Claims) × ((validate_token jwt secret_key now token ≡ some c)
          × (c.kind ≡ token_type_refresh)
          × (grant ≡ grant_of c)
          × (has_jti c.id (sessions w.rows c.email) ≡ true)
          × (w'.rows ≡ w.rows))
  unfolding begin_refresh find_by_email sessions
  begin_refresh-ok now token w h = elim (Option-cases (validate_token jwt secret_key now token)) [
    | inl invalid ↦ absurd (ground (arith, invalid))
    | inr (c, valid) ↦ (c, ground (arith, valid, text_eq_iff c.kind token_type_refresh))
  ]

  validated_same :
      (now later : ℕ) (token : Text) {c d : Claims}
      → validate_token jwt secret_key now token ≡ some c
      → validate_token jwt secret_key later token ≡ some d
      → c ≡ d
  validated_same now later token h k =
      let (at_now, _, _) = (validate_token_iff jwt secret_key now token _).0 h in
      let (at_later, _, _) = (validate_token_iff jwt secret_key later token _).0 k in cc

  -- a refresh that succeeds is a rotation that does, on the rows as they were
  refresh_access_token-ok :
      (now : ℕ) (token jti : Text) (clock : ℕ → ℕ) (w : World) {tokens : TokenPair} {w' : World}
      → refresh_access_token jwt secret_key now token jti clock w ≡ (ok tokens, w')
      → (c : Claims) × ((v : World) × (validate_token jwt secret_key now token ≡ some c)
          × (v.rows ≡ w.rows)
          × (step jwt secret_key v (finishes (grant_of c) jti clock) ≡ (true, w')))
  unfolding refresh_access_token step
  refresh_access_token-ok now token jti clock w h =
      elim (Result-cases (begin_refresh jwt secret_key now token w).0) [
        | inr (e, refused) ↦ absurd (ground (arith, refused))
        | inl (grant, begun) ↦
            let v = (begin_refresh jwt secret_key now token w).1 in
            let (c, (valid, _, is_c, _, same)) =
              begin_refresh-ok now token w {grant = grant} {w' = v} (ground (arith, begun)) in
            (c, (v, valid, same, ground (arith, begun, is_c)))
      ]

  pub refresh-refused :
      (now later : ℕ) (token jti : Text) (clock : ℕ → ℕ) (c : Claims) (w : World)
      → validate_token jwt secret_key now token ≡ some c
      → IsSpent (grant_of c) (sessions w.rows)
      → is_ok (refresh_access_token jwt secret_key later token jti clock w).0 ≡ false
  unfolding refresh_access_token
  refresh-refused now later token jti clock c w valid spent =
      elim (Result-cases (begin_refresh jwt secret_key later token w).0) [
        | inr (e, refused) ↦ ground (arith, refused)
        | inl (grant, begun) ↦
            let v = (begin_refresh jwt secret_key later token w).1 in
            let (d, (valid', _, _, active, _)) =
              begin_refresh-ok later token w {grant = grant} {w' = v} (ground (arith, begun)) in
            absurd (ground (arith, active, spent, validated_same now later token valid valid'))
      ]

  IsSpent-after :
      (c : Claims) (jti : Text) (clock : ℕ → ℕ) (v w' : World)
      → step jwt secret_key v (finishes (grant_of c) jti clock) ≡ (true, w')
      → text_eq jti c.id ≡ false
      → IsSpent (grant_of c) (sessions w'.rows)
  IsSpent-after c jti clock v w' stepped new =
      let e = finishes (grant_of c) jti clock in
      let (succeeds, after) = step-IsRefined jwt secret_key v e in
      let found =
        specified-finishes (grant_of c) jti clock (works jwt secret_key v e) (sessions v.rows) new
          (sym succeeds ∙ ap (λ r. r.0) stepped) in
      subst (λ u. IsSpent (grant_of c) (sessions u.rows)) (ap (λ r. r.1) stepped)
        (subst (IsSpent (grant_of c)) (sym after) found)

  refresh_access_token-IsSpent :
      (now : ℕ) (token jti : Text) (clock : ℕ → ℕ) (w : World) (tokens : TokenPair) (w' : World)
      (c : Claims)
      → refresh_access_token jwt secret_key now token jti clock w ≡ (ok tokens, w')
      → validate_token jwt secret_key now token ≡ some c
      → text_eq jti c.id ≡ false
      → IsSpent (grant_of c) (sessions w'.rows)
  refresh_access_token-IsSpent now token jti clock w tokens w' c done valid new =
      let (d, (v, valid', _, stepped)) =
        refresh_access_token-ok now token jti clock w {tokens = tokens} {w' = w'} done in
      let is_c = validated_same now now token valid' valid in
      IsSpent-after c jti clock v w'
        (subst (λ x. step jwt secret_key v (finishes (grant_of x) jti clock) ≡ (true, w')) is_c
          stepped)
        new

  -- A refresh token works once. After a refresh with it has succeeded, in whatever order other
  -- refreshes, logouts and sign-ins follow, as long as none of them draws its id again, a refresh with
  -- it is refused, and so is the rotation of one that had read the row before.
  pub refresh-once :
      (now : ℕ) (token jti : Text) (clock : ℕ → ℕ) (w : World) (tokens : TokenPair) (w' : World)
      (c : Claims) (es : List Event) (later : ℕ) (jti' : Text) (clock' : ℕ → ℕ)
      → refresh_access_token jwt secret_key now token jti clock w ≡ (ok tokens, w')
      → validate_token jwt secret_key now token ≡ some c
      → text_eq jti c.id ≡ false
      → All (IsFresh (grant_of c)) es
      → (is_ok
            (refresh_access_token jwt secret_key later token jti' clock'
              (run jwt secret_key w' es)).0
          ≡ false)
        × (is_ok
              (finish_refresh jwt secret_key jti' clock' (grant_of c) (run jwt secret_key w' es)).0
            ≡ false)
  unfolding step
  refresh-once now token jti clock w tokens w' c es later jti' clock' done valid new fresh =
      let spent =
        run-IsSpent (grant_of c) w' es fresh
          (refresh_access_token-IsSpent now token jti clock w tokens w' c done valid new) in
      (
        refresh-refused now later token jti' clock' c (run jwt secret_key w' es) valid spent,
        finishes-refused (grant_of c) jti' clock' (run jwt secret_key w' es) spent,
      )
