-- ===== src/Stdlib/Strings.antt =====
-- strings.TrimSpace, ToLower, CutPrefix and Cut, and the shapes of regular expression that the code compiles.
use rcp_server.Base.{
  ℕ, ◌+◌, Bool, false, Option, none, some, [], ◌∷◌, ◌&&◌, ◌||◌, map, reverse, leb, ◌==◌,
  if◌then◌else◌, Text, all, length,
}

-- unicode.IsSpace
unfoldable pub is_space : ℕ → Bool
is_space c =
    (leb 9 c && leb c 13)
    || (c == 32 || c == 0x85 || c == 0xa0 || c == 0x1680)
    || (leb 0x2000 c && leb c 0x200a)
    || (c == 0x2028 || c == 0x2029 || c == 0x202f || c == 0x205f || c == 0x3000)

abbrev drop_space : Text → Text
drop_space [] = []
drop_space (c ∷ cs) = let rest = drop_space cs in if is_space c then rest else c ∷ cs

unfoldable pub trim_space : Text → Text
unfolding is_space
trim_space s = reverse (drop_space (reverse (drop_space s)))

-- unicode.ToLower on the code points whose lower case is an ASCII letter: A to Z, the Kelvin sign
-- and the dotted I. The others keep their value here; in Go they become other non-ASCII ones, and
-- the expressions that the results are matched with accept no such code point in either case.
pub lower : ℕ → ℕ
lower c =
    if leb b'A' c && leb c b'Z'
    then c + 32
    else if c == 0x212a
    then b'k'
    else if c == 0x130
    then b'i'
    else c

unfoldable pub to_lower : Text → Text
unfolding lower
to_lower = map lower

abbrev pub is_upper_letter : ℕ → Bool
is_upper_letter c = leb b'A' c && leb c b'Z'

abbrev pub is_lower_letter : ℕ → Bool
is_lower_letter c = leb b'a' c && leb c b'z'

abbrev pub is_digit : ℕ → Bool
is_digit c = leb b'0' c && leb c b'9'

-- `^[first][more]{0,limit}$`
abbrev pub matches_name : (ℕ → Bool) → (ℕ → Bool) → ℕ → Text → Bool
matches_name first more limit [] = false
matches_name first more limit (c ∷ cs) = first c && all more cs && leb (length cs) limit

-- The white space of a text in UTF-8: one byte, or two or three that encode one code point.
abbrev ascii_space : ℕ → Bool
ascii_space a = leb 9 a && leb a 13 || a == 32

abbrev two_space : ℕ → ℕ → Bool
two_space a b = a == 0xc2 && (b == 0x85 || b == 0xa0)

abbrev three_space : ℕ → ℕ → ℕ → Bool
three_space a b c =
    a == 0xe1 && b == 0x9a && c == 0x80
    || a == 0xe2 && b == 0x80 && (leb 0x80 c && leb c 0x8a || c == 0xa8 || c == 0xa9 || c == 0xaf)
    || a == 0xe2 && b == 0x81 && c == 0x9f
    || a == 0xe3 && b == 0x80 && c == 0x80

drop_left : Text → Text
drop_left [] = []
drop_left (a ∷ []) = if ascii_space a then [] else a ∷ []
drop_left (a ∷ b ∷ []) =
    let one = drop_left (b ∷ []) in
    if ascii_space a then one else if two_space a b then [] else a ∷ b ∷ []
drop_left (a ∷ b ∷ c ∷ s) =
    let one = drop_left (b ∷ c ∷ s) in
    let two = drop_left (c ∷ s) in
    let three = drop_left s in
    if ascii_space a
    then one
    else if two_space a b
    then two
    else if three_space a b c
    then three
    else a ∷ b ∷ c ∷ s

-- the same from the right end, over the reversed bytes
drop_right : Text → Text
drop_right [] = []
drop_right (a ∷ []) = if ascii_space a then [] else a ∷ []
drop_right (b ∷ a ∷ []) =
    let one = drop_right (a ∷ []) in
    if ascii_space b then one else if two_space a b then [] else b ∷ a ∷ []
drop_right (c ∷ b ∷ a ∷ s) =
    let one = drop_right (b ∷ a ∷ s) in
    let two = drop_right (a ∷ s) in
    let three = drop_right s in
    if ascii_space c
    then one
    else if two_space b c
    then two
    else if three_space a b c
    then three
    else c ∷ b ∷ a ∷ s

-- bytes.TrimSpace
unfoldable pub trim_bytes : Text → Text
unfolding drop_left drop_right
trim_bytes s = reverse (drop_right (reverse (drop_left s)))

-- strings.CutPrefix and strings.Cut at one byte
abbrev pub cut_prefix : Text → Text → Option Text
cut_prefix [] s = some s
cut_prefix (p ∷ ps) [] = none
cut_prefix (p ∷ ps) (c ∷ s) = if p == c then cut_prefix ps s else none

abbrev pub with_head : ℕ → Option (Text × Text) → Option (Text × Text)
with_head c none = none
with_head c (some (before, after)) = some (c ∷ before, after)

abbrev pub cut : ℕ → Text → Option (Text × Text)
cut sep [] = none
cut sep (c ∷ s) = let rest = with_head c (cut sep s) in if c == sep then some ([], s) else rest
