-- ===== src/Auth/Sessions/Logout.antt =====
-- Logouts over a history of events.
use rcp_server.Base.{
  ℕ, ◌≡◌, refl, Bool, true, false, ◌⊎◌, List, [], ◌∷◌, none, some, Text, text_eq, text_eq_iff,
  arith, Option-cases, inl, inr, All, ap, sym, ◌∙◌,
}
use rcp_server.Auth.{World}
use rcp_server.Auth.Jwt.{Claims, Jwt}
use rcp_server.Auth.Tokens.{validate_token}
use rcp_server.Auth.Refresh.{Grant, finish_refresh, refresh_access_token, logout_target}
use rcp_server.Auth.Sessions.{
  Event, upserts, finishes, logs_out, Sessions, sessions, is_ok, step, run, works, specified,
}
use rcp_server.Auth.Sessions.Refinement.{step-IsRefined}
use rcp_server.Auth.Sessions.Once.{IsSpent, grant_of, refresh-refused, finishes-refused}

-- the event is not a sign-in with an e-mail
abbrev pub IsAway : Text → Event → Type 0
IsAway email (upserts id user) =
    (text_eq user.email email ≡ false) ⊎ (user.current_refresh_jti ≡ none)
IsAway email (finishes grant jti clock) = Unit
IsAway email (logs_out now token) = Unit

module _ (jwt : Jwt) (secret_key : Text) where
  specified-away :
      (email : Text) (works : Bool) (e : Event) (s : Sessions)
      → IsAway email e
      → s email ≡ none
      → (specified jwt secret_key works e s).1 email ≡ none
  unfolding specified
  specified-away email false e s a h = h
  specified-away email true (upserts id user) s (inl other) h = rw other h
  specified-away email true (upserts id user) s (inr keeps) h =
      ground (arith, text_eq_iff user.email email)
  specified-away email true (finishes grant jti clock) s a h =
      ground (arith, text_eq_iff grant.email email)
  specified-away email true (logs_out now token) s a h =
      elim (Option-cases (logout_target jwt secret_key now token)) [
        | inl nobody ↦ rw nobody h
        | inr (grant, ends) ↦ rw ends (ground (arith, text_eq_iff grant.email email))
      ]

  run-away :
      (email : Text) (w : World) (es : List Event)
      → All (IsAway email) es
      → sessions w.rows email ≡ none
      → sessions (run jwt secret_key w es).rows email ≡ none
  unfolding run
  run-away email w [] a h = h
  run-away email w (e ∷ es) a h = run-away email (step jwt secret_key w e).1 es a.1 (
      ap (λ s. s email) (step-IsRefined jwt secret_key w e).1
      ∙ specified-away email (works jwt secret_key w e) e (sessions w.rows) a.0 h)

  specified-logs_out :
      (now : ℕ) (token : Text) (works : Bool) (s : Sessions) (ended : Grant)
      → logout_target jwt secret_key now token ≡ some ended
      → (specified jwt secret_key works (logs_out now token) s).0 ≡ true
      → (specified jwt secret_key works (logs_out now token) s).1 ended.email ≡ none
  unfolding specified
  specified-logs_out now token false s ended target h = ground arith
  specified-logs_out now token true s ended target h =
      ground (arith, target, text_eq_iff ended.email ended.email)

  gone-IsSpent : (grant : Grant) (s : Sessions) → s grant.email ≡ none → IsSpent grant s
  gone-IsSpent grant s h = rw h refl

  -- A logout that ends a session ends it for good: until someone signs in with the e-mail again, every
  -- refresh for it is refused, whatever valid token it has, and so is the rotation of one that had read
  -- the row before.
  pub logout-ends :
      (now : ℕ) (token : Text) (w : World) (ended : Grant) (es : List Event) (later : ℕ)
      (token' jti : Text) (clock : ℕ → ℕ) (c : Claims)
      → (step jwt secret_key w (logs_out now token)).0 ≡ true
      → logout_target jwt secret_key now token ≡ some ended
      → All (IsAway ended.email) es
      → validate_token jwt secret_key later token' ≡ some c
      → c.email ≡ ended.email
      → (is_ok
            (refresh_access_token jwt secret_key later token' jti clock
              (run jwt secret_key (step jwt secret_key w (logs_out now token)).1 es)).0
          ≡ false)
        × (is_ok
              (finish_refresh jwt secret_key jti clock
                (grant_of c)
                (run jwt secret_key (step jwt secret_key w (logs_out now token)).1 es)).0
            ≡ false)
  unfolding step
  logout-ends now token w ended es later token' jti clock c done target away valid same =
      let v = run jwt secret_key (step jwt secret_key w (logs_out now token)).1 es in
      let (succeeds, after) = step-IsRefined jwt secret_key w (logs_out now token) in
      let closed =
        ap (λ s. s ended.email) after
        ∙ specified-logs_out now token (works jwt secret_key w (logs_out now token))
            (sessions w.rows) ended target (sym succeeds ∙ done) in
      let gone =
        run-away ended.email (step jwt secret_key w (logs_out now token)).1 es away closed in
      let spent : IsSpent (grant_of c) (sessions v.rows) =
        gone-IsSpent (grant_of c) (sessions v.rows) (rw same gone) in
      (
        refresh-refused jwt secret_key later later token' jti clock c v valid spent,
        finishes-refused jwt secret_key (grant_of c) jti clock v spent,
      )
