-- ===== src/Auth/Filter/Access.antt =====
-- Who passes the middlewares.
use rcp_server.Base.{
  ℕ, ◌≡◌, ◌<◌, ◌+◌, false, some, [], Text, text_eq, text_eq_iff, arith, Option-cases, Bool-cases,
  inl, inr,
}
use rcp_server.Effects.{ok, Result-cases, next_fault}
use rcp_server.Table.{texts, select}
use rcp_server.Auth.{UserRow, World, user_at, user_of, find_by_email}
use rcp_server.Auth.Jwt.{Claims, Jwt, hmac, IsInTime}
use rcp_server.Auth.Tokens.{
  TokenPair, access_token_ttl, token_type_access, validate_token, validate_token_iff,
  generate_auth_tokens, generate_auth_tokens-some, claims_of,
}
use rcp_server.Auth.Filter.{
  Request, Environment, Context, passes, access_token_from_request, is_dev_bypass, with_user,
  auth_required,
}

module _ (jwt : Jwt) (secret_key : Text) where
  -- The request carries an access token of a user who has a row.
  abbrev pub IsAuthentic : ℕ → Request → World → Context → Type 0
  IsAuthentic now r w context =
      (token : Text) × ((c : Claims) × (access_token_from_request r ≡ ok token)
        × (jwt.signed hmac secret_key token ≡ some c)
        × IsInTime now c.expires_at
        × (c.kind ≡ token_type_access)
        × (context.user_email ≡ c.email)
        × (user_at c.email (select c.email w.rows) ≡ some context.user))

  found_user :
      (c : Claims) (w : World) (context : Context) (w' : World)
      → with_user c (find_by_email c.email w) ≡ (passes context, w')
      → (user_at c.email (select c.email w.rows) ≡ some context.user)
        × (context.user_email ≡ c.email)
        × (w'.rows ≡ w.rows)
  unfolding find_by_email
  found_user c w context w' h = ground arith

  -- Without the bypass for development, AuthRequired lets a request through only with a token that is
  -- signed with the service's secret, an access token and in time, whose e-mail is that of a user with a
  -- row; that row's user is what the handlers get, and no row is changed.
  pub auth_required-IsAuthentic :
      (env : Environment) (id now : ℕ) (r : Request) (w : World) (context : Context) (w' : World)
      → ((token : Text) → is_dev_bypass env token ≡ false)
      → auth_required jwt secret_key env id now r w ≡ (passes context, w')
      → IsAuthentic now r w context × (w'.rows ≡ w.rows)
  unfolding auth_required
  auth_required-IsAuthentic env id now r w context w' normal h =
      elim (Result-cases (access_token_from_request r)) [
        | inr (e, refused) ↦ absurd (ground (arith, refused))
        | inl (token, carried) ↦ elim (Option-cases (validate_token jwt secret_key now token)) [
          | inl invalid ↦ absurd (ground (arith, carried, invalid, normal token))
          | inr (c, valid) ↦ elim (Bool-cases (text_eq c.kind token_type_access)) [
            | inl is_access ↦
                let (signed, live, _) = (validate_token_iff jwt secret_key now token c).0 valid in
                let (found, email, same) =
                  found_user c w context w'
                    (ground (arith, carried, valid, normal token, is_access)) in
                (
                  (
                    token,
                    (
                      c,
                      carried,
                      signed,
                      live,
                      (text_eq_iff c.kind token_type_access).0 is_access,
                      email,
                      found,
                    ),
                  ),
                  same,
                )
            | inr not_access ↦ absurd (ground (arith, carried, valid, normal token, not_access))
          ]
        ]
      ]

  -- A sign-in's access token works until its time: a request that carries it, without the bypass, passes
  -- AuthRequired with the user of its e-mail, where the database answers and the user has a row.
  auth_required-generate_auth_tokens :
      (env : Environment) (id now : ℕ) (email jti : Text) (clock : ℕ → ℕ) (tokens : TokenPair)
      (r : Request) (w : World) (row : UserRow)
      → ((token : Text) → is_dev_bypass env token ≡ false)
      → generate_auth_tokens jwt secret_key email jti clock ≡ some tokens
      → now < jwt.numeric_date (clock 0 + access_token_ttl)
      → access_token_from_request r ≡ ok tokens.access_token
      → (next_fault w.faults).0 ≡ false
      → select email w.rows ≡ some row
      → (auth_required jwt secret_key env id now r w).0
        ≡ passes (record {
          user_email = email;
          auth_claims = some (
              claims_of jwt secret_key email token_type_access
                (clock 0 + access_token_ttl)
                []
                (clock 1));
          user = user_of email row;
        })
  unfolding auth_required find_by_email
  auth_required-generate_auth_tokens env id now email jti clock tokens r w row normal made live
        carried answers there =
      let (signed, _, _, _) =
        generate_auth_tokens-some jwt secret_key email jti clock tokens made in
      let valid =
        (validate_token_iff jwt secret_key now tokens.access_token _).1 (signed, live, tt) in
      ground (
        arith,
        carried,
        valid,
        normal tokens.access_token,
        text_eq_iff token_type_access token_type_access,
      )
