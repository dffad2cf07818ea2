-- ===== src/Auth/Login/Session.antt =====
-- Sign-ins with Google and the sessions that they open.
use rcp_server.Base.{
  ℕ, ◌≡◌, ◌<◌, ◌+◌, refl, Bool, true, false, [], ◌∷◌, Option, some, Text, text_eq_iff, arith,
  Option-cases, inl, inr, sym, ap, ◌∙◌, is_empty, subst,
}
use rcp_server.Effects.{ok, Result-cases}
use rcp_server.Table.{texts, select}
use rcp_server.Auth.{User, World, upsert_user, find_by_email, rotate_refresh_jti}
use rcp_server.Auth.Jwt.{Claims, Jwt}
use rcp_server.Auth.Tokens.{
  TokenPair, refresh_token_ttl, token_type_refresh, validate_token, validate_token_iff,
  generate_auth_tokens, generate_auth_tokens-some,
}
use rcp_server.Auth.Refresh.{begin_refresh, finish_refresh, refresh_access_token}
use rcp_server.Auth.Sessions.{upserts, sessions, update, step, works, specified}
use rcp_server.Auth.Sessions.Refinement.{step-IsRefined}
use rcp_server.Auth.Login.{
  GoogleToken, Payload, Google, Identity, allowed_email_domain, has_suffix, identity_of,
  verify_google_code, signed_in, process_google_callback,
}

-- what Google vouches for, when it is asked for a code
abbrev pub IsVouched : Google → Text → Text → Type 0
IsVouched google code email =
    (token : GoogleToken) × ((payload : Payload) × (google.exchange code ≡ some token)
      × (google.validate token.id_token ≡ some payload)
      × (payload.email ≡ some email))

identity_of-ok :
    (token : GoogleToken) (payload : Payload) (who : Identity)
    → identity_of token (some payload) ≡ ok who
    → (payload.email ≡ some who.email) × (has_suffix who.email allowed_email_domain ≡ true)
identity_of-ok token payload who h = elim (Option-cases payload.email) [
  | inl silent ↦ absurd (ground (arith, silent))
  | inr ([], given) ↦ absurd (ground (arith, given))
  | inr (c ∷ email, given) ↦ elim (Option-cases payload.name) [
    | inl silent ↦ absurd (ground (arith, given, silent))
    | inr ([], named) ↦ absurd (ground (arith, given, named))
    | inr (d ∷ name, named) ↦ ground (arith, given, named)
  ]
]

verify_google_code-ok :
    (google : Google) (code : Text) (who : Identity)
    → verify_google_code google code ≡ ok who
    → IsVouched google code who.email × (has_suffix who.email allowed_email_domain ≡ true)
unfolding verify_google_code
verify_google_code-ok google code who h = elim (Option-cases (google.exchange code)) [
  | inl failed ↦ absurd (ground (arith, failed))
  | inr (token, got) ↦ elim (Option-cases (google.validate token.id_token)) [
    | inl invalid ↦ absurd (ground (arith, got, invalid))
    | inr (payload, valid) ↦
        let (email, suffix) = identity_of-ok token payload who (ground (arith, got, valid)) in
        ((token, (payload, got, valid, email)), suffix)
  ]
]

module _ (jwt : Jwt) (secret_key : Text) (google : Google) where
  -- what a sign-in that succeeds has done
  process_google_callback-ok :
      (id : ℕ) (jti : Text) (clock : ℕ → ℕ) (code : Text) (w : World) (user : User) (w' : World)
      → process_google_callback jwt secret_key google id jti clock code w ≡ (ok user, w')
      → (who : Identity) × ((tokens : TokenPair) × (verify_google_code google code ≡ ok who)
          × (generate_auth_tokens jwt secret_key who.email jti clock ≡ some tokens)
          × (user ≡ signed_in who tokens)
          × (step jwt secret_key w (upserts id user) ≡ (true, w')))
  unfolding process_google_callback step
  process_google_callback-ok id jti clock code w user w' h =
      elim (Result-cases (verify_google_code google code)) [
        | inr (e, refused) ↦ absurd (ground (arith, refused))
        | inl (who, known) ↦
            elim (Option-cases (generate_auth_tokens jwt secret_key who.email jti clock)) [
              | inl unsigned ↦ absurd (ground (arith, known, unsigned))
              | inr (tokens, made) ↦
                  elim (Result-cases (upsert_user id (signed_in who tokens) w).0) [
                    | inr (e, unsaved) ↦ absurd (ground (arith, known, made, unsaved))
                    | inl (done, saved) ↦ (
                      who,
                      (
                        tokens,
                        known,
                        made,
                        ground (arith, known, made, saved),
                        ground (arith, known, made, saved),
                      ),
                    )
                  ]
            ]
      ]

  specified-upserts :
      (works : Bool) (id : ℕ) (user : User) (s : Text → Option Text) (jti : Text)
      → user.current_refresh_jti ≡ some jti
      → (specified jwt secret_key works (upserts id user) s).0 ≡ true
      → (specified jwt secret_key works (upserts id user) s).1 ≡ update s user.email (some jti)
  unfolding specified
  specified-upserts false id user s jti is h = ground arith
  specified-upserts true id user s jti is h = rw is refl

  callback-sessions :
      (id : ℕ) (jti : Text) (clock : ℕ → ℕ) (code : Text) (w : World) (user : User) (w' : World)
      → user.current_refresh_jti ≡ some jti
      → step jwt secret_key w (upserts id user) ≡ (true, w')
      → sessions w'.rows ≡ update (sessions w.rows) user.email (some jti)
  callback-sessions id jti clock code w user w' is stepped =
      let (succeeds, after) = step-IsRefined jwt secret_key w (upserts id user) in
      ap (λ r. sessions r.1.rows) (sym stepped)
      ∙ after
      ∙ specified-upserts (works jwt secret_key w (upserts id user)) id user (sessions w.rows) jti
          is (sym succeeds ∙ ap (λ r. r.0) stepped)

  -- A callback signs someone in only where Google, for the code, vouches for the e-mail, which ends with
  -- @khu.ac.kr; the session of that e-mail is then the one with the drawn id, whichever it was before, and
  -- no other e-mail's session changes.
  pub process_google_callback-opens :
      (id : ℕ) (jti : Text) (clock : ℕ → ℕ) (code : Text) (w : World) (user : User) (w' : World)
      → process_google_callback jwt secret_key google id jti clock code w ≡ (ok user, w')
      → IsVouched google code user.email
        × (has_suffix user.email allowed_email_domain ≡ true)
        × (sessions w'.rows ≡ update (sessions w.rows) user.email (some jti))
  process_google_callback-opens id jti clock code w user w' h =
      let (who, (tokens, known, made, is_user, stepped)) =
        process_google_callback-ok id jti clock code w user w' h in
      let (vouched, suffix) = verify_google_code-ok google code who known in
      let (_, _, is_jti, _) =
        generate_auth_tokens-some jwt secret_key who.email jti clock tokens made in
      let email : who.email ≡ user.email = ap (λ u. u.email) (sym is_user) in
      (
        subst (IsVouched google code) email vouched,
        subst (λ e. has_suffix e allowed_email_domain ≡ true) email suffix,
        callback-sessions id jti clock code w user w'
            (ap (λ u. u.current_refresh_jti) is_user ∙ ap some is_jti) stepped,
      )

  refresh_active :
      (now : ℕ) (token jti jti' : Text) (clock : ℕ → ℕ) (c : Claims) (tokens : TokenPair)
      (w : World)
      → validate_token jwt secret_key now token ≡ some c
      → c.kind ≡ token_type_refresh
      → c.id ≡ jti
      → is_empty jti ≡ false
      → sessions w.rows c.email ≡ some jti
      → w.faults ≡ []
      → generate_auth_tokens jwt secret_key c.email jti' clock ≡ some tokens
      → (refresh_access_token jwt secret_key now token jti' clock w).0 ≡ ok tokens
  unfolding refresh_access_token begin_refresh finish_refresh find_by_email rotate_refresh_jti
      sessions
  refresh_active now token jti jti' clock c tokens w valid kind is_id full active answers made =
      elim (Option-cases (select c.email w.rows)) [
        | inl absent ↦ absurd (ground (arith, absent, active))
        | inr (row, there) ↦ ground (
          arith,
          valid,
          there,
          text_eq_iff c.kind token_type_refresh,
          text_eq_iff c.id jti,
          text_eq_iff jti jti,
        )
      ]

  -- The refresh token of a sign-in works: until its time, where the database answers and new tokens can be
  -- signed, a refresh with it gives the new tokens.
  process_google_callback-refresh :
      (id : ℕ) (jti : Text) (clock : ℕ → ℕ) (code : Text) (w : World) (user : User) (w' : World)
      (now : ℕ) (jti' : Text) (clock' : ℕ → ℕ) (tokens' : TokenPair)
      → process_google_callback jwt secret_key google id jti clock code w ≡ (ok user, w')
      → is_empty jti ≡ false
      → now < jwt.numeric_date (clock 2 + refresh_token_ttl)
      → w'.faults ≡ []
      → generate_auth_tokens jwt secret_key user.email jti' clock' ≡ some tokens'
      → (refresh_access_token jwt secret_key now user.refresh_token jti' clock' w').0 ≡ ok tokens'
  process_google_callback-refresh id jti clock code w user w' now jti' clock' tokens' h full live
        answers made' =
      let (who, (tokens, known, made, is_user, stepped)) =
        process_google_callback-ok id jti clock code w user w' h in
      let (_, signed, is_jti, _) =
        generate_auth_tokens-some jwt secret_key who.email jti clock tokens made in
      let valid =
        (validate_token_iff jwt secret_key now tokens.refresh_token _).1 (signed, live, tt) in
      let token : tokens.refresh_token ≡ user.refresh_token =
        ap (λ u. u.refresh_token) (sym is_user) in
      let email : user.email ≡ who.email = ap (λ u. u.email) is_user in
      let opened =
        callback-sessions id jti clock code w user w'
          (ap (λ u. u.current_refresh_jti) is_user ∙ ap some is_jti) stepped in
      let active : sessions w'.rows who.email ≡ some jti =
        ap (λ s. s who.email) opened ∙ ground (arith, email, text_eq_iff user.email who.email) in
      subst (λ t. (refresh_access_token jwt secret_key now t jti' clock' w').0 ≡ ok tokens') token
        (refresh_active now tokens.refresh_token jti jti' clock' _ tokens' w' valid refl refl full
          active answers
          (ap (λ e. generate_auth_tokens jwt secret_key e jti' clock') (sym email) ∙ made'))
