-- ===== src/Functions/Sql.antt =====
-- validateSQL of sql_database.go, over the bytes of a statement. The index `i` of the source is the
-- list of the bytes from `i` on; `scan` has fuel, whose amount `tokens_of` chooses.
pub mod Termination
pub mod Lexemes
pub mod Soundness
pub mod Accepts
mod Tests
use rcp_server.Base.{
  ℕ, zero, suc, ◌+◌, ◌-◌, ◌≡◌, Bool, true, false, not, ◌&&◌, ◌||◌, List, [], ◌∷◌, ◌++◌, map, Option,
  none, some, leb, ltb, ◌==◌, if◌then◌else◌, Text, codes, text_eq, length, any,
}
use rcp_server.Stdlib.Strings.{is_upper_letter, is_lower_letter, is_digit}
use rcp_server.Functions.Errors.{Error, Result, ok, err, invalid_database}

abbrev pub max_sql_bytes : ℕ
max_sql_bytes = 4096

abbrev pub max_sql_params : ℕ
max_sql_params = 32

-- the dynamic types that the switch on a parameter tells apart
pub data Param : Type 0 where
  null boolean number : Param
  text : Text → Param
  other : Param

unfoldable pub param_allowed : Param → Bool
param_allowed (text s) = leb (length s) 16384
param_allowed other = false
param_allowed _ = true

abbrev pub is_blank : ℕ → Bool
is_blank c = c == b' ' || c == 10 || c == 13 || c == 9

-- a byte that can start an identifier, and one that can go on with it
abbrev pub starts_word : ℕ → Bool
starts_word c = is_upper_letter c || is_lower_letter c || c == b'_'

abbrev pub in_word : ℕ → Bool
in_word c = is_upper_letter c || is_lower_letter c || is_digit c || c == b'_'

-- strings.ToUpper of an ASCII byte
abbrev pub upper : ℕ → ℕ
upper c = if is_lower_letter c then c - 32 else c

-- for i < len(statement) && statement[i] != '\n'
unfoldable pub skip_line : Text → Text
skip_line [] = []
skip_line (c ∷ s) = let rest = skip_line s in if c == 10 then c ∷ s else rest

-- what follows the first "*/"
unfoldable pub skip_block : Text → Option Text
skip_block [] = none
skip_block (c ∷ []) = none
skip_block (c ∷ d ∷ s) =
    let rest = skip_block (d ∷ s) in if c == b'*' && d == b'/' then some s else rest

-- what follows the closing quote; a doubled quote stands for itself, except in brackets
unfoldable pub skip_quoted : ℕ → Bool → Text → Option Text
skip_quoted close bracket [] = none
skip_quoted close bracket (c ∷ []) = if c == close then some [] else none
skip_quoted close bracket (c ∷ d ∷ s) =
    let doubled = skip_quoted close bracket s in
    let rest = skip_quoted close bracket (d ∷ s) in
    if c == close then (if d == close && not bracket then doubled else some (d ∷ s)) else rest

-- the identifier from here on, and what follows it
unfoldable pub take_word : Text → Text × Text
take_word [] = ([], [])
take_word (c ∷ s) =
    let (word, rest) = take_word s in if in_word c then (c ∷ word, rest) else ([], c ∷ s)

abbrev pub is_quote : ℕ → Bool
is_quote c = c == 39 || c == b'"' || c == b'`' || c == b'['

abbrev pub closing : ℕ → ℕ
closing c = if c == b'[' then b']' else c

abbrev pub is_one_of : List Text → Text → Bool
is_one_of words w = any (λ v. text_eq v w) words

abbrev pub forbidden_words : List Text
forbidden_words =
    codes "ATTACH"
    ∷ codes "DETACH"
    ∷ codes "PRAGMA"
    ∷ codes "VACUUM"
    ∷ codes "LOAD_EXTENSION"
    ∷ codes "REINDEX"
    ∷ codes "ANALYZE"
    ∷ []

-- does the rest of the statement start with these two bytes
abbrev pub at : ℕ → ℕ → Text → Bool
at x y (c ∷ d ∷ s) = c == x && d == y
at x y _ = false

abbrev pub is_empty : List Text → Bool
is_empty [] = true
is_empty _ = false

abbrev pub tail : Text → Text
tail [] = []
tail (d ∷ s) = s

-- the cases of the switch on the byte at `i`
pub data Kind : Type 0 where
  blank line block quoted semicolon word symbol : Kind

unfoldable pub kind_of : ℕ → Text → Kind
kind_of c s =
    if is_blank c
    then blank
    else if at b'-' b'-' (c ∷ s)
    then line
    else if at b'/' b'*' (c ∷ s)
    then block
    else if is_quote c
    then quoted
    else if c == b';'
    then semicolon
    else if starts_word c
    then word
    else symbol

-- The loop's outcome: the tokens or the error, and `none` when the fuel has run out.
abbrev pub Outcome : Type 0
Outcome = Option (Result (List Text))

abbrev pub refuse : Outcome
refuse = some (err invalid_database)

abbrev pub resume : Option Text → (Text → Outcome) → Outcome
resume none next = refuse
resume (some rest) next = next rest

-- The body of a case, for the byte `c` and the bytes `s` behind it; `next` is the rest of the loop.
unfoldable pub round :
    (List Text → Bool → Text → Outcome) → Kind → List Text → Bool → ℕ → Text → Outcome
round next blank tokens terminated c s = next tokens terminated s
round next line tokens terminated c s = next tokens terminated (skip_line (tail s))
round next block tokens terminated c s = resume (skip_block (tail s)) (next tokens terminated)
round next quoted tokens terminated c s =
    resume (skip_quoted (closing c) (c == b'[') s)
      (λ rest. if terminated then refuse else next tokens terminated rest)
round next semicolon tokens terminated c s =
    if terminated || is_empty tokens then refuse else next tokens true s
round next word tokens terminated c s =
    let (more, rest) = take_word s in
    let token = map upper (c ∷ more) in
    if terminated || is_one_of forbidden_words token
    then refuse
    else next (tokens ++ token ∷ []) terminated rest
round next symbol tokens terminated c s = if terminated then refuse else next tokens terminated s

unfoldable pub scan : ℕ → List Text → Bool → Text → Outcome
unfolding round kind_of
scan zero tokens terminated s = none
scan (suc fuel) tokens terminated [] = some (ok tokens)
scan (suc fuel) tokens terminated (c ∷ s) = round (scan fuel) (kind_of c s) tokens terminated c s

-- The tokens of a statement; the fuel is one more than its length.
unfoldable pub tokens_of : Text → Outcome
unfolding scan skip_line skip_block skip_quoted take_word
tokens_of s = scan (suc (length s)) [] false s

abbrev pub table_or_index : List Text
table_or_index = codes "TABLE" ∷ codes "INDEX" ∷ []

abbrev pub second_in : List Text → List Text → Bool
second_in words [] = false
second_in words (t ∷ rest) = is_one_of words t

-- the switch on tokens[0]: `ok true` for a statement that returns rows
unfoldable pub classify : List Text → Result Bool
classify [] = err invalid_database
classify (first ∷ rest) =
    if is_one_of (codes "SELECT" ∷ codes "WITH" ∷ []) first
    then ok true
    else if is_one_of (codes "INSERT" ∷ codes "UPDATE" ∷ codes "DELETE" ∷ []) first
    then ok (any (λ t. text_eq (codes "RETURNING") t) (first ∷ rest))
    else if is_one_of (codes "CREATE" ∷ codes "DROP" ∷ []) first && second_in table_or_index rest
    then ok false
    else if text_eq (codes "ALTER") first && second_in (codes "TABLE" ∷ []) rest
    then ok false
    else err invalid_database

unfoldable pub validate_sql : Text → List Param → Result Bool
unfolding tokens_of classify param_allowed
validate_sql statement params =
    if length statement == 0
      || ltb max_sql_bytes (length statement)
      || ltb max_sql_params (length params)
      || any (λ p. not (param_allowed p)) params
    then err invalid_database
    else elim (tokens_of statement) [
      | none ↦ err invalid_database
      | some (err e) ↦ err e
      | some (ok tokens) ↦ classify tokens
    ]
