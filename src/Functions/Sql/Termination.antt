-- ===== src/Functions/Sql/Termination.antt =====
-- The fuel of the loop of validateSQL, and the bytes that a round leaves.
use rcp_server.Base.{
  ℕ, zero, suc, ◌≤◌, ◌<◌, ◌≡◌, ◌≢◌, refl, Bool, true, false, List, [], ◌∷◌, ◌++◌, map, Option, none,
  some, arith, ◌==◌, Text, length,
}
use rcp_server.Functions.Sql.{
  skip_line, skip_block, skip_quoted, take_word, closing, upper, tail, Kind, blank, line, block,
  quoted, semicolon, word, symbol, kind_of, Outcome, resume, round, scan, tokens_of,
}

pub length-skip_line-le : (s : Text) → length (skip_line s) ≤ length s
unfolding skip_line
length-skip_line-le [] = omega arith
length-skip_line-le (c ∷ s) = ground (arith, length-skip_line-le s)

pub length-skip_block-le : (s r : Text) → skip_block s ≡ some r → length r ≤ length s
unfolding skip_block
length-skip_block-le [] r h = cc
length-skip_block-le (c ∷ []) r h = cc
length-skip_block-le (c ∷ d ∷ s) r h = ground (arith, length-skip_block-le (d ∷ s) r)

pub length-skip_quoted-le :
    (close : ℕ) (bracket : Bool) (s r : Text)
    → skip_quoted close bracket s ≡ some r
    → length r ≤ length s
unfolding skip_quoted
length-skip_quoted-le close bracket [] r h = cc
length-skip_quoted-le close bracket (c ∷ []) r h = ground arith
length-skip_quoted-le close bracket (c ∷ d ∷ s) r h =
    ground (
      arith,
      length-skip_quoted-le close bracket s r,
      length-skip_quoted-le close bracket (d ∷ s) r,
    )

pub length-take_word-le : (s : Text) → length (take_word s).1 ≤ length s
unfolding take_word
length-take_word-le [] = omega arith
length-take_word-le (c ∷ s) = ground (arith, length-take_word-le s)

length-tail-le : (s : Text) → length (tail s) ≤ length s
length-tail-le [] = omega arith
length-tail-le (c ∷ s) = omega arith

module _ (next : List Text → Bool → Text → Outcome) (n : ℕ) (s : Text) (fits : length s < n)
    (ends : (tokens : List Text) (terminated : Bool) (r : Text)
      → length r < n
      → next tokens terminated r ≢ none) where
  resume-ne-none :
      (o : Option Text) (after : Text → Outcome)
      → ((r : Text) → o ≡ some r → length r ≤ length s)
      → ((r : Text) → length r < n → after r ≢ none)
      → resume o after ≢ none
  resume-ne-none none after shorter k e = cc
  resume-ne-none (some r) after shorter k e = k r (omega (arith, shorter r refl)) e

  round-ne-none :
      (kind : Kind) (tokens : List Text) (terminated : Bool) (c : ℕ)
      → round next kind tokens terminated c s ≢ none
  unfolding round
  round-ne-none blank tokens terminated c = ends tokens terminated s fits
  round-ne-none line tokens terminated c =
      ends tokens terminated _ (omega (arith, length-skip_line-le (tail s), length-tail-le s))
  round-ne-none block tokens terminated c =
      resume-ne-none (skip_block (tail s)) (next tokens terminated)
        (λ r h. omega (arith, length-skip_block-le (tail s) r h, length-tail-le s))
        (ends tokens terminated)
  round-ne-none quoted tokens terminated c =
      resume-ne-none (skip_quoted (closing c) (c == b'[') s) _
        (length-skip_quoted-le (closing c) (c == b'[') s)
        (λ r l. ground (arith, ends tokens terminated r))
  round-ne-none semicolon tokens terminated c = ground (arith, ends tokens true s)
  round-ne-none word tokens terminated c = ground (
    arith,
    ends (tokens ++ map upper (c ∷ (take_word s).0) ∷ []) terminated (take_word s).1,
    length-take_word-le s,
  )
  round-ne-none symbol tokens terminated c = ground (arith, ends tokens terminated s)

-- The fuel of `scan` is enough when it exceeds the number of bytes.
scan-ne-none :
    (fuel : ℕ) (tokens : List Text) (terminated : Bool) (s : Text)
    → length s < fuel
    → scan fuel tokens terminated s ≢ none
unfolding scan
scan-ne-none zero tokens terminated s h = elim h [ ]
scan-ne-none (suc fuel) tokens terminated [] h = ground arith
scan-ne-none (suc fuel) tokens terminated (c ∷ s) h =
    round-ne-none (scan fuel) fuel s (omega arith) (scan-ne-none fuel) (kind_of c s) tokens
      terminated c

-- The scan of a statement ends: with the fuel that tokens_of gives it, it never runs out.
pub tokens_of-ne-none : (s : Text) → tokens_of s ≢ none
unfolding tokens_of
tokens_of-ne-none s = scan-ne-none (suc (length s)) [] false s (omega arith)
