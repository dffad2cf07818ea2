-- ===== src/Auth/Tokens.antt =====
-- token_service.go: the tokens that the service signs, and their validation. The id of a refresh
-- token is drawn by the uuid package and is an argument.
use rcp_server.Base.{
  ℕ, ◌+◌, ◌*◌, ◌≡◌, ◌↔◌, refl, Option, none, some, [], Text, codes, arith, Option-cases, inl, inr,
}
use rcp_server.Auth.Jwt.{Claims, Method, hmac, other, IsInTime, Jwt, IsStarted}

abbrev pub second : ℕ
second = 1000000000

abbrev pub access_token_ttl : ℕ
access_token_ttl = 3600 * second

abbrev pub refresh_token_ttl : ℕ
refresh_token_ttl = 14 * 24 * 3600 * second

abbrev pub token_type_access : Text
token_type_access = codes "access"

abbrev pub token_type_refresh : Text
token_type_refresh = codes "refresh"

abbrev pub jwt_issuer : Text
jwt_issuer = codes "rcp-auth-service"

pub record TokenPair : Type 0 where
  pub access_token : Text
  pub access_expiry : ℕ
  pub refresh_token : Text
  pub refresh_jti : Text

module _ (jwt : Jwt) (secret_key : Text) where
  abbrev pub claims_of : Text → Text → ℕ → Text → ℕ → Claims
  claims_of email kind expiry jti now = record {
    email = email;
    kind = kind;
    id = jti;
    expires_at = some (jwt.numeric_date expiry);
    not_before = none;
    issued_at = jwt.numeric_date now;
    issuer = jwt_issuer;
  }

  unfoldable pub create_token : Text → Text → ℕ → Text → ℕ → Option Text
  create_token email kind expiry jti now = jwt.sign secret_key (claims_of email kind expiry jti now)

  abbrev pub with_expiry : ℕ → Option Text → Option (Text × ℕ)
  with_expiry expiry none = none
  with_expiry expiry (some t) = some (t, expiry)

  -- GenerateAccessToken, with the two times that it reads
  unfoldable pub generate_access_token : Text → ℕ → ℕ → Option (Text × ℕ)
  generate_access_token email now issued =
      with_expiry (now + access_token_ttl)
        (create_token email token_type_access (now + access_token_ttl) [] issued)

  abbrev pub with_id : Text → Option Text → Option (Text × Text)
  with_id jti none = none
  with_id jti (some t) = some (t, jti)

  unfoldable pub generate_refresh_token : Text → Text → ℕ → ℕ → Option (Text × Text)
  generate_refresh_token email jti now issued =
      with_id jti (create_token email token_type_refresh (now + refresh_token_ttl) jti issued)

  abbrev pub paired : Text × ℕ → Option (Text × Text) → Option TokenPair
  paired _ none = none
  paired (access, expiry) (some (refresh, jti)) = some (record {
    access_token = access;
    access_expiry = expiry;
    refresh_token = refresh;
    refresh_jti = jti;
  })

  -- GenerateAuthTokens, with the readings of the clock
  unfoldable pub generate_auth_tokens : Text → Text → (ℕ → ℕ) → Option TokenPair
  generate_auth_tokens email jti clock = elim (generate_access_token email (clock 0) (clock 1)) [
    | none ↦ none
    | some access ↦ paired access (generate_refresh_token email jti (clock 2) (clock 3))
  ]

  -- the key function: the secret for HMAC, an error for any other method
  unfoldable pub key_for : Method → Option Text
  key_for hmac = some secret_key
  key_for other = none

  unfoldable pub validate_token : ℕ → Text → Option Claims
  validate_token now token = jwt.parse key_for now token

  key_for-some : (m : Method) {key : Text} → key_for m ≡ some key → (m ≡ hmac) × (key ≡ secret_key)
  unfolding key_for
  key_for-some hmac h = (refl, ground arith)
  key_for-some other h = absurd (ground arith)

  key_for-hmac : key_for hmac ≡ some secret_key
  unfolding key_for
  key_for-hmac = refl

  -- ValidateToken gives claims exactly where the token is signed by HMAC with the service's secret,
  -- carries them, has not expired, and is not for a later time.
  pub validate_token_iff :
      (now : ℕ) (token : Text) (c : Claims)
      → (validate_token now token ≡ some c) ↔ (
          (jwt.signed hmac secret_key token ≡ some c)
          × IsInTime now c.expires_at
          × IsStarted now c.not_before)
  unfolding validate_token
  validate_token_iff now token c = (
    (λ h.
        let (m, (key, given, carried, live, started)) = jwt.parse-signed key_for now token h in
        let (is_hmac, is_secret) = key_for-some m given in
        (ground (arith, carried), live, started)),
    (λ h. jwt.signed-parse key_for now secret_key token key_for-hmac h.0 h.1 h.2),
  )

  -- The tokens of one GenerateAuthTokens: the access token carries no id, and each has its type and
  -- the e-mail, until its time.
  pub generate_auth_tokens-some :
      (email jti : Text) (clock : ℕ → ℕ) (tokens : TokenPair)
      → generate_auth_tokens email jti clock ≡ some tokens
      → (jwt.signed hmac secret_key tokens.access_token
          ≡ some (claims_of email token_type_access (clock 0 + access_token_ttl) [] (clock 1)))
        × (jwt.signed hmac secret_key tokens.refresh_token
            ≡ some (claims_of email token_type_refresh (clock 2 + refresh_token_ttl) jti (clock 3)))
        × (tokens.refresh_jti ≡ jti)
        × (tokens.access_expiry ≡ clock 0 + access_token_ttl)
  unfolding generate_auth_tokens generate_access_token generate_refresh_token create_token
  generate_auth_tokens-some email jti clock tokens h =
      let access = claims_of email token_type_access (clock 0 + access_token_ttl) [] (clock 1) in
      let refresh =
        claims_of email token_type_refresh (clock 2 + refresh_token_ttl) jti (clock 3) in
      elim (Option-cases (jwt.sign secret_key access)) [
        | inl none_made ↦ absurd (ground (arith, none_made))
        | inr (a, is_a) ↦ elim (Option-cases (jwt.sign secret_key refresh)) [
          | inl none_made ↦ absurd (ground (arith, none_made, is_a))
          | inr (r, is_r) ↦ ground (
            arith,
            is_a,
            is_r,
            jwt.signed-sign secret_key access is_a,
            jwt.signed-sign secret_key refresh is_r,
          )
        ]
      ]
