-- ===== src/Functions/Sql/Lexemes.antt =====
-- What SQLite's tokenizer sees in a statement, as a relation between the bytes and the lexemes: it
-- says where comments, quoted texts and words end without running the scanner.
use rcp_server.Base.{
  ℕ, ◌≡◌, Bool, true, false, not, ◌&&◌, ◌||◌, List, [], ◌∷◌, ◌++◌, map, ◌==◌, if◌then◌else◌, Text,
  All,
}
use rcp_server.Functions.Sql.{
  is_blank, is_quote, closing, starts_word, in_word, upper, is_one_of, forbidden_words, at,
}

pub data Lexeme : Type 0 where
  gap literal terminator mark : Lexeme
  word : Text → Lexeme

-- The first byte of a text, where it has one, passes the test.
abbrev pub StartsNot : (ℕ → Bool) → Text → Type 0
StartsNot p [] = Unit
StartsNot p (c ∷ s) = p c ≡ false

-- "*/" somewhere in the text
abbrev pub has_close : Text → Bool
has_close [] = false
has_close (c ∷ s) = at b'*' b'/' (c ∷ s) || has_close s

-- A quoted body: a closing quote stands in it only doubled, and in brackets not at all.
abbrev pub quotable : ℕ → Bool → Text → Bool
quotable close bracket [] = true
quotable close bracket (c ∷ []) = not (c == close)
quotable close bracket (c ∷ d ∷ s) =
    if c == close
    then (d == close && not bracket) && quotable close bracket s
    else quotable close bracket (d ∷ s)

-- `Reads s l r`: the text `s` is one lexeme `l` and then `r`.
pub data Reads (s : Text) : Lexeme → Text → Type 0 where
  read_blank : (c : ℕ) (r : Text) → s ≡ c ∷ r → is_blank c ≡ true → Reads s gap r
  read_line :
      (body r : Text)
      → s ≡ b'-' ∷ b'-' ∷ (body ++ r)
      → All (λ c. (c == 10) ≡ false) body
      → StartsNot (λ c. not (c == 10)) r
      → Reads s gap r
  read_block :
      (body r : Text)
      → s ≡ b'/' ∷ b'*' ∷ (body ++ b'*' ∷ b'/' ∷ r)
      → has_close (body ++ b'*' ∷ []) ≡ false
      → Reads s gap r
  read_quoted :
      (q : ℕ) (body r : Text)
      → s ≡ q ∷ (body ++ closing q ∷ r)
      → is_quote q ≡ true
      → quotable (closing q) (q == b'[') body ≡ true
      → StartsNot (λ c. c == closing q && not (q == b'[')) r
      → Reads s literal r
  read_terminator : (r : Text) → s ≡ b';' ∷ r → Reads s terminator r
  read_word :
      (c : ℕ) (more r : Text)
      → s ≡ c ∷ (more ++ r)
      → starts_word c ≡ true
      → All (λ d. in_word d ≡ true) more
      → StartsNot in_word r
      → Reads s (word (map upper (c ∷ more))) r
  read_mark :
      (c : ℕ) (r : Text)
      → s ≡ c ∷ r
      → (is_blank c || is_quote c || c == b';' || starts_word c) ≡ false
      → (at b'-' b'-' s || at b'/' b'*' s) ≡ false
      → Reads s mark r

pub data Lexes : Text → List Lexeme → Type 0 where
  done : Lexes [] []
  more : {s r : Text} {l : Lexeme} {ls : List Lexeme} → Reads s l r → Lexes r ls → Lexes s (l ∷ ls)

abbrev pub words : List Lexeme → List Text
words [] = []
words (word w ∷ ls) = w ∷ words ls
words (_ ∷ ls) = words ls

-- One statement: a semicolon comes after a word, and only gaps come after the semicolon. The flags
-- say whether a semicolon and a word have been read.
abbrev pub is_single : Bool → Bool → List Lexeme → Bool
is_single closed started [] = true
is_single closed started (gap ∷ ls) = is_single closed started ls
is_single closed started (terminator ∷ ls) = not closed && started && is_single true started ls
is_single closed started (word w ∷ ls) = not closed && is_single closed true ls
is_single closed started (_ ∷ ls) = not closed && is_single closed started ls

abbrev pub IsAllowed : Text → Type 0
IsAllowed w = is_one_of forbidden_words w ≡ false
