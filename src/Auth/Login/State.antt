-- ===== src/Auth/Login/State.antt =====
-- The state of an OAuth callback that came from the SSH gateway.
use rcp_server.Base.{
  ℕ, ◌≡◌, ◌↔◌, Bool, true, false, not, ◌==◌, [], ◌∷◌, ◌++◌, some, Text, codes, is_empty, length,
  all, arith, Option-cases, inl, inr, ap, ◌∙◌,
}
use rcp_server.Stdlib.Strings.{cut_prefix, cut, trim_space, is_digit}
use rcp_server.Auth.Login.{valid_ssh_code, ssh_state_of, after_prefix, parse_ssh_state}

abbrev pub is_not : ℕ → ℕ → Bool
is_not sep c = not (c == sep)

-- six digits
abbrev pub IsCode : Text → Type 0
IsCode code = (length code ≡ 6) × (all is_digit code ≡ true)

cut_prefix-some : (p s rest : Text) → cut_prefix p s ≡ some rest → s ≡ p ++ rest
cut_prefix-some [] s rest h = ground arith
cut_prefix-some (p ∷ ps) [] rest h = absurd (ground arith)
cut_prefix-some (p ∷ ps) (c ∷ s) rest h = ground (arith, cut_prefix-some ps s rest)

cut-some :
    (sep : ℕ) (s nonce code : Text)
    → cut sep s ≡ some (nonce, code)
    → (s ≡ nonce ++ (sep ∷ code)) × (all (is_not sep) nonce ≡ true)
cut-some sep [] nonce code h = absurd (ground arith)
cut-some sep (c ∷ s) nonce code h = elim (Option-cases (cut sep s)) [
  | inl uncut ↦ ground (arith, uncut)
  | inr ((before, after), found) ↦ ground (arith, found, cut-some sep s before after found)
]

cut-append :
    (sep : ℕ) (nonce code : Text)
    → all (is_not sep) nonce ≡ true
    → cut sep (nonce ++ (sep ∷ code)) ≡ some (nonce, code)
cut-append sep [] code a = ground arith
cut-append sep (c ∷ nonce) code a = ground (arith, cut-append sep nonce code)

-- A state is taken for one of the SSH gateway exactly if, without the white space around it, it is
-- `ssh:`, a nonce without a colon that is not empty, a colon, and a code of six digits.
parse_ssh_state_iff :
    (raw nonce code : Text)
    → (parse_ssh_state raw ≡ some (record { nonce = nonce; code = code })) ↔ (
        (trim_space raw ≡ codes "ssh:" ++ (nonce ++ (b':' ∷ code)))
        × (is_empty nonce ≡ false)
        × (all (is_not b':') nonce ≡ true)
        × IsCode code)
unfolding parse_ssh_state valid_ssh_code
parse_ssh_state_iff raw nonce code = (
  (λ h. elim (Option-cases (cut_prefix (codes "ssh:") (trim_space raw))) [
    | inl other ↦ absurd (ground (arith, other, h))
    | inr (rest, prefixed) ↦ elim (Option-cases (cut b':' rest)) [
      | inl uncut ↦ absurd (ground (arith, prefixed, uncut, h))
      | inr ((before, after), found) ↦ ground (
        arith,
        h,
        prefixed,
        found,
        cut_prefix-some (codes "ssh:") (trim_space raw) rest prefixed,
        cut-some b':' rest before after found,
      )
    ]
  ]),
  (λ (is, full, plain, coded).
      ap (λ t. after_prefix (cut_prefix (codes "ssh:") t)) is
      ∙ ap ssh_state_of (cut-append b':' nonce code plain)
      ∙ ground arith),
)
