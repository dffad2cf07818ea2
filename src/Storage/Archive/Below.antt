-- ===== src/Storage/Archive/Below.antt =====
-- Which objects of a container an archive is of.
use rcp_server.Base.{
  ℕ, ◌≡◌, ◌≢◌, refl, ap, ◌∙◌, ◌⊎◌, inl, inr, Bool, true, false, List, [], ◌∷◌, ◌++◌, ◌==◌, ==_iff,
  Text, text_eq, text_eq_iff, is_empty, keep, count, All, arith, Bool-cases,
}
use rcp_server.Functions.Order.{order_by-IsOrdered, count-order_by, IsOrdered}
use rcp_server.Storage.Archive.{
  trim_slashes, ends_with_slash, normalize_object_prefix, has_prefix, matches,
}

abbrev pub IsSlash : ℕ → Type 0
IsSlash c = c ≡ b'/'

abbrev pub StartsPlain : Text → Type 0
StartsPlain [] = Unit
StartsPlain (c ∷ s) = c ≢ b'/'

-- the text without the slashes that it begins with
abbrev pub IsTrimmed : Text → Text → Type 0
IsTrimmed raw body =
    (slashes : Text) × All IsSlash slashes × (raw ≡ slashes ++ body) × StartsPlain body

abbrev pub EndsInSlash : Text → Type 0
EndsInSlash body = (init : Text) × (body ≡ init ++ b'/' ∷ [])

-- The prefix that a caller asks for: nothing, or what is left of it with a slash at its end.
abbrev pub IsFolder : Text → Text → Type 0
IsFolder raw prefix =
    (body : Text) × IsTrimmed raw body
    × (((body ≡ []) × (prefix ≡ []))
        ⊎ ((EndsInSlash body × (prefix ≡ body))
            ⊎ ((body ≢ []) × (¬ EndsInSlash body) × (prefix ≡ body ++ b'/' ∷ []))))

abbrev pub IsBelow : Text → Text → Type 0
IsBelow prefix name = (rest : Text) × (name ≡ prefix ++ rest)

abbrev pub occurrences : Text → List Text → ℕ
occurrences name names = count (λ n. text_eq n name) names

-- the names below the prefix, each as often as it is listed, and no other, in byte order
abbrev pub IsSelection : Text → List Text → List Text → Type 0
IsSelection prefix names chosen =
    IsOrdered (λ n. n) chosen
    × ((name : Text)
        → (IsBelow prefix name × (occurrences name chosen ≡ occurrences name names))
          ⊎ ((¬ IsBelow prefix name) × (occurrences name chosen ≡ 0)))

pub trim_slashes-IsTrimmed : (raw : Text) → IsTrimmed raw (trim_slashes raw)
trim_slashes-IsTrimmed [] = ([], tt, refl, tt)
trim_slashes-IsTrimmed (c ∷ s) = elim (Bool-cases (c == b'/')) [
  | inl slash ↦
      (let (slashes, all, is, plain) = trim_slashes-IsTrimmed s in
        rw slash (c ∷ slashes, ((==_iff c b'/').0 slash, all), ap (λ t. c ∷ t) is, plain))
  | inr other ↦ rw other ([], tt, refl, ground (arith, other))
]

ends_with_slash-init : (s : Text) → ends_with_slash s ≡ true → EndsInSlash s
ends_with_slash-init [] h = absurd (ground arith)
ends_with_slash-init (c ∷ []) h = ([], ap (λ d. d ∷ []) ((==_iff c b'/').0 h))
ends_with_slash-init (c ∷ d ∷ s) h =
    let (init, is) = ends_with_slash-init (d ∷ s) h in (c ∷ init, ap (λ t. c ∷ t) is)

ends_with_slash-append : (init : Text) → ends_with_slash (init ++ b'/' ∷ []) ≡ true
ends_with_slash-append [] = refl
ends_with_slash-append (c ∷ []) = refl
ends_with_slash-append (c ∷ d ∷ s) = ends_with_slash-append (d ∷ s)

empty_text : (s : Text) → is_empty s ≡ true → s ≡ []
empty_text [] h = refl
empty_text (c ∷ s) h = absurd (ground arith)

filled_text : (s : Text) → is_empty s ≡ false → s ≢ []
filled_text s h is = absurd (ground (arith, h, ap is_empty is))

not_ending : (s : Text) → ends_with_slash s ≡ false → ¬ EndsInSlash s
not_ending s h (init, is) =
    absurd (ground (arith, h, ap ends_with_slash is ∙ ends_with_slash-append init))

pub normalize_object_prefix-IsFolder : (raw : Text) → IsFolder raw (normalize_object_prefix raw)
unfolding normalize_object_prefix
normalize_object_prefix-IsFolder raw =
    let body = trim_slashes raw in
    let trimmed = trim_slashes-IsTrimmed raw in
    elim (Bool-cases (is_empty body)) [
      | inl empty ↦ rw empty (body, trimmed, inl (empty_text body empty, empty_text body empty))
      | inr filled ↦ elim (Bool-cases (ends_with_slash body)) [
        | inl ends ↦
            rw (filled, ends) (body, trimmed, inr (inl (ends_with_slash-init body ends, refl)))
        | inr open_end ↦
            rw (filled, open_end)
              (body, trimmed, inr (inr (filled_text body filled, not_ending body open_end, refl)))
      ]
    ]

has_prefix-some : (prefix name : Text) → has_prefix prefix name ≡ true → IsBelow prefix name
has_prefix-some [] name h = (name, refl)
has_prefix-some (p ∷ ps) [] h = absurd (ground arith)
has_prefix-some (p ∷ ps) (c ∷ s) h =
    let (rest, is) = has_prefix-some ps s (ground (arith, h)) in (rest, ground (arith, is, h))

has_prefix-append : (prefix rest : Text) → has_prefix prefix (prefix ++ rest) ≡ true
has_prefix-append [] rest = refl
has_prefix-append (p ∷ ps) rest = ground (arith, has_prefix-append ps rest)

module _ (q : Text → Bool) (name : Text) where
  occurrences-kept :
      (names : List Text) → q name ≡ true → occurrences name (keep q names) ≡ occurrences name names
  occurrences-kept [] h = refl
  occurrences-kept (n ∷ ns) h = elim (Bool-cases (text_eq n name)) [
    | inl same ↦
        (let is : q n ≡ true = ap q ((text_eq_iff n name).0 same) ∙ h in
          ground (arith, is, same, occurrences-kept ns h))
    | inr other ↦ ground (arith, other, occurrences-kept ns h)
  ]

  occurrences-left_out : (names : List Text) → q name ≡ false → occurrences name (keep q names) ≡ 0
  occurrences-left_out [] h = refl
  occurrences-left_out (n ∷ ns) h = elim (Bool-cases (text_eq n name)) [
    | inl same ↦
        (let is : q n ≡ false = ap q ((text_eq_iff n name).0 same) ∙ h in
          ground (arith, is, same, occurrences-left_out ns h))
    | inr other ↦ ground (arith, other, occurrences-left_out ns h)
  ]

pub matches-IsSelection :
    (prefix : Text) (names : List Text) → IsSelection prefix names (matches prefix names)
unfolding matches
matches-IsSelection prefix names = (
  order_by-IsOrdered (λ n. n) (keep (has_prefix prefix) names),
  λ name.
      let sorted = count-order_by (λ n. n) (λ n. text_eq n name) (keep (has_prefix prefix) names) in
      elim (Bool-cases (has_prefix prefix name)) [
        | inl below ↦ inl (
          has_prefix-some prefix name below,
          sorted ∙ occurrences-kept (has_prefix prefix) name names below,
        )
        | inr outside ↦ inr (
          (λ (rest, is). absurd (ground (arith, is, outside, has_prefix-append prefix rest))),
          sorted ∙ occurrences-left_out (has_prefix prefix) name names outside,
        )
      ],
)
