-- ===== src/Functions/Sql/Soundness.antt =====
-- The scanner's steps and the lexemes of the statement.
use rcp_server.Base.{
  ℕ, ◌≡◌, refl, subst, Bool, true, false, not, ◌&&◌, [], ◌∷◌, ◌++◌, some, arith, ◌==◌, Text, All,
  Bool-cases, inl, inr,
}
use rcp_server.Functions.Sql.{skip_line, skip_block, skip_quoted, take_word, in_word, at}
use rcp_server.Functions.Sql.Lexemes.{StartsNot, has_close, quotable}

pub skip_line_lem :
    (s : Text)
    → (body : Text) × (s ≡ body ++ skip_line s)
      × All (λ c. (c == 10) ≡ false) body
      × StartsNot (λ c. not (c == 10)) (skip_line s)
unfolding skip_line
skip_line_lem [] = ([], refl, tt, tt)
skip_line_lem (c ∷ s) = elim (Bool-cases (c == 10)) [
  | inl end ↦ ([], ground arith, tt, ground arith)
  | inr on ↦
      let (body, split, inside, stop) = skip_line_lem s in
      (c ∷ body, ground arith, (on, inside), ground arith)
]

at_cons :
    (c d : ℕ) (body rest s : Text)
    → d ∷ s ≡ body ++ b'*' ∷ rest
    → (c == b'*' && d == b'/') ≡ false
    → at b'*' b'/' (c ∷ (body ++ b'*' ∷ [])) ≡ false
at_cons c d [] rest s e h = ground arith
at_cons c d (b ∷ body) rest s e h = ground arith

pub skip_block_lem :
    (s r : Text)
    → skip_block s ≡ some r
    → (body : Text) × (s ≡ body ++ b'*' ∷ b'/' ∷ r) × (has_close (body ++ b'*' ∷ []) ≡ false)
unfolding skip_block
skip_block_lem [] r h = absurd (cc)
skip_block_lem (c ∷ []) r h = absurd (cc)
skip_block_lem (c ∷ d ∷ s) r h = elim (Bool-cases (c == b'*' && d == b'/')) [
  | inl end ↦ ([], ground arith, ground arith)
  | inr on ↦
      let (body, split, inside) = skip_block_lem (d ∷ s) r (ground arith) in
      (c ∷ body, ground arith, ground (arith, at_cons c d body (b'/' ∷ r) s split on))
]

quotable_cons :
    (close : ℕ) (bracket : Bool) (c : ℕ) (body : Text)
    → (c == close) ≡ false
    → quotable close bracket body ≡ true
    → quotable close bracket (c ∷ body) ≡ true
quotable_cons close bracket c [] h k = ground arith
quotable_cons close bracket c (b ∷ body) h k = ground arith

-- what skip_quoted has read
abbrev pub IsQuoted : ℕ → Bool → Text → Text → Type 0
IsQuoted close bracket s r =
    (body : Text) × (s ≡ body ++ close ∷ r)
    × (quotable close bracket body ≡ true)
    × StartsNot (λ c. c == close && not bracket) r

pub skip_quoted_lem :
    (close : ℕ) (bracket : Bool) (s r : Text)
    → skip_quoted close bracket s ≡ some r
    → IsQuoted close bracket s r
unfolding skip_quoted
skip_quoted_lem close bracket [] r h = absurd (cc)
skip_quoted_lem close bracket (c ∷ []) r h = elim (Bool-cases (c == close)) [
  | inl end ↦
      let last : [] ≡ r = ground arith in
      subst (IsQuoted close bracket (c ∷ [])) last ([], ground arith, refl, tt)
  | inr on ↦ absurd (ground arith)
]
skip_quoted_lem close bracket (c ∷ d ∷ s) r h = elim (Bool-cases (c == close)) [
  | inl end ↦ elim (Bool-cases (d == close && not bracket)) [
    | inl doubled ↦
        let (body, split, inside, stop) = skip_quoted_lem close bracket s r (ground arith) in
        (c ∷ d ∷ body, ground arith, ground arith, stop)
    | inr single ↦
        let last : d ∷ s ≡ r = ground arith in
        subst (IsQuoted close bracket (c ∷ d ∷ s)) last ([], ground arith, refl, single)
  ]
  | inr on ↦
      let (body, split, inside, stop) = skip_quoted_lem close bracket (d ∷ s) r (ground arith) in
      (c ∷ body, ground arith, quotable_cons close bracket c body on inside, stop)
]

pub take_word_lem :
    (s : Text)
    → (s ≡ (take_word s).0 ++ (take_word s).1)
      × All (λ d. in_word d ≡ true) (take_word s).0
      × StartsNot in_word (take_word s).1
unfolding take_word
take_word_lem [] = (refl, tt, tt)
take_word_lem (c ∷ s) = ground (arith, take_word_lem s)
