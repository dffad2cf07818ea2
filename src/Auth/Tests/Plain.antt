-- ===== src/Auth/Tests/Plain.antt =====
-- Tokens that carry their key and their claims in the open: an instance of the parameters of the JWT
-- library, for tests.
use rcp_server.Base.{
  ℕ, zero, suc, ◌≡◌, refl, Bool, true, [], ◌∷◌, ◌++◌, Option, none, some, if◌then◌else◌, Text,
  text_eq, text_eq_iff, length, ltb, ltb_iff, leb, leb_iff, ◌&&◌, arith, Option-cases, Bool-cases,
  inl, inr, ap, subst, sym, ◌∙◌, ◌↔◌, ◌/◌, ◌*◌,
}
use rcp_server.Auth.Jwt.{Claims, Method, hmac, other, IsInTime, IsStarted, Jwt}

abbrev with_head : ℕ → Option (Text × Text) → Option (Text × Text)
with_head c none = none
with_head c (some (s, rest)) = some (c ∷ s, rest)

abbrev read_text : ℕ → Text → Option (Text × Text)
read_text zero s = some ([], s)
read_text (suc n) [] = none
read_text (suc n) (c ∷ s) = with_head c (read_text n s)

abbrev write_text : Text → Text → Text
write_text s rest = length s ∷ (s ++ rest)

read_text-write_text : (s rest : Text) → read_text (length s) (s ++ rest) ≡ some (s, rest)
read_text-write_text [] rest = refl
read_text-write_text (c ∷ s) rest = ground (arith, read_text-write_text s rest)

abbrev after_read : {A : Type 0} → (Text → Text → Option A) → Option (Text × Text) → Option A
after_read k none = none
after_read k (some (t, rest)) = k t rest

abbrev then_read : {A : Type 0} → (Text → Text → Option A) → Text → Option A
then_read k [] = none
then_read k (n ∷ s) = after_read k (read_text n s)

then_read-write_text :
    {A : Type 0} (k : Text → Text → Option A) (s rest : Text)
    → then_read k (write_text s rest) ≡ k s rest
then_read-write_text k s rest = ap (after_read k) (read_text-write_text s rest)

abbrev code : Option ℕ → ℕ
code none = 0
code (some e) = suc e

abbrev time_of : ℕ → Option ℕ
time_of zero = none
time_of (suc e) = some e

abbrev pub written : Text → Claims → Text
written key c = write_text key (
    write_text c.email (
      write_text c.kind (
        write_text c.id
          (write_text c.issuer (code c.expires_at ∷ code c.not_before ∷ c.issued_at ∷ [])))))

abbrev claims_at : Text → Text → Text → Text → Text → Option Claims
claims_at email kind id issuer (e ∷ b ∷ i ∷ []) = some (record {
  email = email;
  kind = kind;
  id = id;
  expires_at = time_of e;
  not_before = time_of b;
  issued_at = i;
  issuer = issuer;
})
claims_at email kind id issuer _ = none

abbrev claims_in : Text → Option Claims
claims_in = then_read (λ email.
    then_read (λ kind. then_read (λ id. then_read (λ issuer. claims_at email kind id issuer))))

abbrev after_key : Text → Text → Text → Option Claims
after_key key k rest = if text_eq k key then claims_in rest else none

abbrev carried : Method → Text → Text → Option Claims
carried hmac key t = then_read (after_key key) t
carried other key t = none

abbrev in_time : ℕ → Option ℕ → Bool
in_time now none = true
in_time now (some e) = ltb now e

abbrev started : ℕ → Option ℕ → Bool
started now none = true
started now (some t) = leb t now

abbrev if_live : ℕ → Option Claims → Option Claims
if_live now none = none
if_live now (some c) = if in_time now c.expires_at && started now c.not_before then some c else none

abbrev parsed : Option Text → ℕ → Text → Option Claims
parsed none now t = none
parsed (some key) now t = if_live now (carried hmac key t)

time_of-code : (e : Option ℕ) → time_of (code e) ≡ e
time_of-code none = refl
time_of-code (some e) = refl

claims_in-written :
    (c : Claims)
    → claims_in (
        write_text c.email (
          write_text c.kind (
            write_text c.id
              (write_text c.issuer (code c.expires_at ∷ code c.not_before ∷ c.issued_at ∷ [])))))
      ≡ some c
claims_in-written c =
    then_read-write_text _ c.email _
    ∙ then_read-write_text _ c.kind _
    ∙ then_read-write_text _ c.id _
    ∙ then_read-write_text _ c.issuer _
    ∙ ap (λ e. some (record c { expires_at = e; not_before = time_of (code c.not_before) }))
        (time_of-code c.expires_at)
    ∙ ap (λ b. some (record c { not_before = b })) (time_of-code c.not_before)

carried-written : (key : Text) (c : Claims) → carried hmac key (written key c) ≡ some c
carried-written key c =
    then_read-write_text (after_key key) key _
    ∙ ground (arith, text_eq_iff key key, claims_in-written c)

in_time_iff : (now : ℕ) (e : Option ℕ) → (in_time now e ≡ true) ↔ IsInTime now e
in_time_iff now none = ground arith
in_time_iff now (some e) = ground (arith, ltb_iff now e)

started_iff : (now : ℕ) (t : Option ℕ) → (started now t ≡ true) ↔ IsStarted now t
started_iff now none = ground arith
started_iff now (some t) = ground (arith, leb_iff t now)

if_live-some :
    (now : ℕ) (o : Option Claims) (c : Claims)
    → if_live now o ≡ some c
    → (o ≡ some c) × IsInTime now c.expires_at × IsStarted now c.not_before
if_live-some now none c h = absurd (ground arith)
if_live-some now (some d) c h =
    elim (Bool-cases (in_time now d.expires_at && started now d.not_before)) [
      | inl live ↦
          let is : d ≡ c = ground (arith, live) in
          (
            ap some is,
            subst (λ x. IsInTime now x.expires_at) is
                ((in_time_iff now d.expires_at).0 (ground (arith, live))),
            subst (λ x. IsStarted now x.not_before) is
                ((started_iff now d.not_before).0 (ground (arith, live))),
          )
      | inr late ↦ absurd (ground (arith, late))
    ]

pub signs :
    (key : Text) (c : Claims) {t : Text}
    → some (written key c) ≡ some t
    → carried hmac key t ≡ some c
signs key c {t} h =
    subst (λ x. carried hmac key x ≡ some c) {x = written key c} {y = t} (ground arith)
      (carried-written key c)

pub parses :
    (keys : Method → Option Text) (now : ℕ) (t : Text) {c : Claims}
    → parsed (keys hmac) now t ≡ some c
    → (m : Method) × ((key : Text) × (keys m ≡ some key)
        × (carried m key t ≡ some c)
        × IsInTime now c.expires_at
        × IsStarted now c.not_before)
parses keys now t h = elim (Option-cases (keys hmac)) [
  | inl refused ↦ absurd (ground (arith, refused))
  | inr (key, given) ↦
      let (found, live, begun) =
        if_live-some now (carried hmac key t) _ (ap (λ o. parsed o now t) (sym given) ∙ h) in
      (hmac, (key, given, found, live, begun))
]

pub accepts :
    (keys : Method → Option Text) (now : ℕ) (key t : Text) {c : Claims}
    → keys hmac ≡ some key
    → carried hmac key t ≡ some c
    → IsInTime now c.expires_at
    → IsStarted now c.not_before
    → parsed (keys hmac) now t ≡ some c
accepts keys now key t {c} given found live begun =
    ap (λ o. parsed o now t) given
    ∙ ap (if_live now) found
    ∙ ground (arith, (in_time_iff now c.expires_at).1 live, (started_iff now c.not_before).1 begun)

abbrev pub plain : Jwt
plain = record {
  numeric_date = λ t. t / 1000000000 * 1000000000;
  sign = λ key c. some (written key c);
  parse = λ keys now t. parsed (keys hmac) now t;
  signed = carried;
  signed-sign = signs;
  parse-signed = parses;
  signed-parse = accepts;
}
