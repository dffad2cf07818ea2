-- ===== src/Functions/Sql/Accepts.antt =====
-- What validateSQL accepts, in terms of the lexemes of the statement.
use mathlib.Core.List.{append-nil, append_assoc}
use rcp_server.Base.{
  ℕ, zero, suc, ◌≤◌, ◌≡◌, refl, sym, ap, ◌∙◌, Bool, true, false, not, ◌||◌, List, [], ◌∷◌, ◌++◌,
  map, some, arith, ◌==◌, Text, All, inl, inr, length, Option-cases,
}
use rcp_server.Functions.Errors.{ok, err}
use rcp_server.Functions.Sql.{
  skip_line, skip_block, skip_quoted, take_word, closing, upper, tail, at, scan, tokens_of, Kind,
  blank, line, block, quoted, semicolon, word, symbol, kind_of, Outcome, round, is_empty, is_one_of,
  forbidden_words, classify, validate_sql, Param, max_sql_bytes, max_sql_params,
}
use rcp_server.Functions.Sql.Lexemes
use rcp_server.Functions.Sql.Lexemes.{
  Lexeme, gap, literal, terminator, mark, Reads, read_blank, read_line, read_block, read_quoted,
  read_terminator, read_word, read_mark, Lexes, done, more, words, is_single, IsAllowed, StartsNot,
  has_close, quotable,
}
use rcp_server.Functions.Sql.Soundness.{
  skip_line_lem, skip_block_lem, skip_quoted_lem, take_word_lem,
}

-- the statement's lexemes, whose words are the tokens that the scan adds
abbrev pub IsRead : List Text → Bool → Text → List Text → Type 0
IsRead tokens terminated s out =
    (ls : List Lexeme) × Lexes s ls
    × (out ≡ tokens ++ words ls)
    × (is_single terminated (not (is_empty tokens)) ls ≡ true)
    × All IsAllowed (words ls)

is_empty-append : (tokens : List Text) (w : Text) → is_empty (tokens ++ w ∷ []) ≡ false
is_empty-append [] w = refl
is_empty-append (t ∷ tokens) w = refl

module _ (tokens : List Text) (terminated : Bool) (out : List Text) {s r : Text} where
  add_gap : Reads s gap r → IsRead tokens terminated r out → IsRead tokens terminated s out
  add_gap reads (ls, lexes, same, single, allowed) =
      (gap ∷ ls, more reads lexes, same, single, allowed)

  add_literal :
      Reads s literal r
      → terminated ≡ false
      → IsRead tokens terminated r out
      → IsRead tokens terminated s out
  add_literal reads running (ls, lexes, same, single, allowed) =
      (literal ∷ ls, more reads lexes, same, ground arith, allowed)

  add_mark :
      Reads s mark r
      → terminated ≡ false
      → IsRead tokens terminated r out
      → IsRead tokens terminated s out
  add_mark reads running (ls, lexes, same, single, allowed) =
      (mark ∷ ls, more reads lexes, same, ground arith, allowed)

  add_terminator :
      Reads s terminator r
      → (terminated || is_empty tokens) ≡ false
      → IsRead tokens true r out
      → IsRead tokens terminated s out
  add_terminator reads running (ls, lexes, same, single, allowed) =
      (terminator ∷ ls, more reads lexes, same, ground arith, allowed)

  add_word :
      (w : Text)
      → Reads s (Lexemes.word w) r
      → (terminated || is_one_of forbidden_words w) ≡ false
      → IsRead (tokens ++ w ∷ []) terminated r out
      → IsRead tokens terminated s out
  add_word w reads fine (ls, lexes, same, single, allowed) = (
    Lexemes.word w ∷ ls,
    more reads lexes,
    same ∙ append_assoc tokens (w ∷ []) (words ls),
    ground (arith, is_empty-append tokens w),
    (ground arith, allowed),
  )

module _ (next : List Text → Bool → Text → Outcome)
    (ih : (tokens : List Text) (terminated : Bool) (r : Text) (out : List Text)
      → next tokens terminated r ≡ some (ok out)
      → IsRead tokens terminated r out)
    (tokens : List Text) (terminated : Bool) (c : ℕ) (s : Text) (out : List Text) where
  abbrev Runs : Kind → Type 0
  Runs kind =
      kind_of c s ≡ kind
      → round next kind tokens terminated c s ≡ some (ok out)
      → IsRead tokens terminated (c ∷ s) out

  tail_lem : (x y : ℕ) → at x y (c ∷ s) ≡ true → c ∷ s ≡ x ∷ y ∷ tail s
  tail_lem x y h = split s h
    where
      split : (t : Text) → at x y (c ∷ t) ≡ true → c ∷ t ≡ x ∷ y ∷ tail t
      split [] e = cc
      split (d ∷ t) e = ground arith

  scan_blank : Runs blank
  unfolding kind_of round
  scan_blank k h = add_gap tokens terminated out (read_blank c s refl (ground arith)) (ih _ _ _ _ h)

  scan_line : Runs line
  unfolding kind_of round
  scan_line k h =
      let (body, split, inside, stop) = skip_line_lem (tail s) in
      add_gap tokens terminated out
        (read_line body (skip_line (tail s)) (ground (arith, tail_lem b'-' b'-')) inside stop)
        (ih _ _ _ _ h)

  scan_block : Runs block
  unfolding kind_of round
  scan_block k h = elim (Option-cases (skip_block (tail s))) [
    | inl missing ↦ absurd (ground arith)
    | inr (r, found) ↦
        let (body, split, inside) = skip_block_lem (tail s) r found in
        add_gap tokens terminated out
          (read_block body r (ground (arith, tail_lem b'/' b'*')) inside)
          (ih _ _ _ _ (rw found at h))
  ]

  scan_quoted : Runs quoted
  unfolding kind_of round
  scan_quoted k h = elim (Option-cases (skip_quoted (closing c) (c == b'[') s)) [
    | inl missing ↦ absurd (ground arith)
    | inr (r, found) ↦
        let (body, split, inside, stop) = skip_quoted_lem (closing c) (c == b'[') s r found in
        add_literal tokens terminated out
          (read_quoted c body r (ap (λ t. c ∷ t) split) (ground arith) inside stop) (ground arith)
          (ih _ _ _ _ (ground arith))
  ]

  scan_semicolon : Runs semicolon
  unfolding kind_of round
  scan_semicolon k h =
      add_terminator tokens terminated out (read_terminator s (ground arith)) (ground arith)
        (ih _ _ _ _ (ground arith))

  scan_word : Runs word
  unfolding kind_of round
  scan_word k h =
      let (split, inside, stop) = take_word_lem s in
      add_word tokens terminated out (map upper (c ∷ (take_word s).0))
        (read_word c (take_word s).0 (take_word s).1 (ap (λ t. c ∷ t) split) (ground arith) inside
          stop)
        (ground arith) (ih _ _ _ _ (ground arith))

  scan_symbol : Runs symbol
  unfolding kind_of round
  scan_symbol k h =
      add_mark tokens terminated out (read_mark c s refl (ground arith) (ground arith))
        (ground arith) (ih _ _ _ _ (ground arith))

  runs : (kind : Kind) → Runs kind
  runs blank = scan_blank
  runs line = scan_line
  runs block = scan_block
  runs quoted = scan_quoted
  runs semicolon = scan_semicolon
  runs word = scan_word
  runs symbol = scan_symbol

scan-IsRead :
    (fuel : ℕ) (tokens : List Text) (terminated : Bool) (s : Text) (out : List Text)
    → scan fuel tokens terminated s ≡ some (ok out)
    → IsRead tokens terminated s out
unfolding scan
scan-IsRead zero tokens terminated s out h = absurd (cc)
scan-IsRead (suc fuel) tokens terminated [] out h =
    ([], done, (ground arith) ∙ sym (append-nil tokens), refl, tt)
scan-IsRead (suc fuel) tokens terminated (c ∷ s) out h =
    runs (scan fuel) (scan-IsRead fuel) tokens terminated c s out (kind_of c s) refl h

-- A statement that validateSQL accepts is at most 4096 bytes long and has at most 32 parameters. It
-- is one statement: its lexemes have a semicolon only after a word, with nothing but blanks and
-- comments behind it. None of its words is one of those that reach files or extensions, and its
-- first words classify it.
pub validate_sql-ok :
    (s : Text) (params : List Param) (reads : Bool)
    → validate_sql s params ≡ ok reads
    → (length s ≤ max_sql_bytes)
      × (length params ≤ max_sql_params)
      × ((ls : List Lexeme) × Lexes s ls
          × (is_single false false ls ≡ true)
          × All IsAllowed (words ls)
          × (classify (words ls) ≡ ok reads))
unfolding validate_sql tokens_of
validate_sql-ok s params reads h = elim (Option-cases (tokens_of s)) [
  | inl out ↦ absurd (ground arith)
  | inr (err e, found) ↦ absurd (ground arith)
  | inr (ok tokens, found) ↦
      let (ls, lexes, same, single, allowed) =
        scan-IsRead (suc (length s)) [] false s tokens found in
      (ground arith, ground arith, (ls, lexes, single, allowed, ground arith))
]
