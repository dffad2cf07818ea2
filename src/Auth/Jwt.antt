-- ===== src/Auth/Jwt.antt =====
-- The parameters of token_service.go: what github.com/golang-jwt/jwt/v5 is asked to do.
use rcp_server.Base.{ℕ, ◌≡◌, ◌<◌, ◌≤◌, Option, some, none, Text}

-- MyClaims with the registered claims that the service sets or reads
pub record Claims : Type 0 where
  pub email : Text
  pub kind : Text
  pub id : Text
  pub expires_at : Option ℕ
  pub not_before : Option ℕ
  pub issued_at : ℕ
  pub issuer : Text

-- the family of a token's `alg` header
pub data Method : Type 0 where
  hmac other : Method

-- a token without an expiry never expires
abbrev pub IsInTime : ℕ → Option ℕ → Type 0
IsInTime now none = Unit
IsInTime now (some e) = now < e

-- a token may say from when on it is valid
abbrev pub IsStarted : ℕ → Option ℕ → Type 0
IsStarted now none = Unit
IsStarted now (some t) = t ≤ now

-- `sign` is NewWithClaims and SignedString with HS256 and a key. `parse` is ParseWithClaims with the
-- caller's choice of a key for the token's method, which may be refused; `signed` is the claims that
-- a token carries where its signature with a method and a key verifies. `numeric_date` is NewNumericDate,
-- which cuts a time to whole seconds.
pub record Jwt : Type 0 where
  pub numeric_date : ℕ → ℕ
  pub sign : Text → Claims → Option Text
  pub parse : (Method → Option Text) → ℕ → Text → Option Claims
  pub signed : Method → Text → Text → Option Claims
  -- what is signed verifies, with its claims
  pub signed-sign :
      (key : Text) (c : Claims) {t : Text} → sign key c ≡ some t → signed hmac key t ≡ some c
  -- Parse accepts only with a key that the caller gave for the token's method, before the expiry and
  -- not before the start,
  pub parse-signed :
      (keys : Method → Option Text) (now : ℕ) (t : Text) {c : Claims}
      → parse keys now t ≡ some c
      → (m : Method) × ((key : Text) × (keys m ≡ some key)
          × (signed m key t ≡ some c)
          × IsInTime now c.expires_at
          × IsStarted now c.not_before)
  -- and it accepts what an HMAC key verifies, between these times.
  pub signed-parse :
      (keys : Method → Option Text) (now : ℕ) (key t : Text) {c : Claims}
      → keys hmac ≡ some key
      → signed hmac key t ≡ some c
      → IsInTime now c.expires_at
      → IsStarted now c.not_before
      → parse keys now t ≡ some c
