-- ===== src/Stdlib/Json.antt =====
-- encoding/json's `Valid`: its scanner as an automaton with a stack, one step for each byte.
use rcp_server.Base.{
  ℕ, zero, suc, Bool, true, false, List, [], ◌∷◌, ◌&&◌, ◌||◌, Option, none, some, leb, ltb, ◌==◌,
  if◌then◌else◌, Text, codes, length,
}
use rcp_server.Stdlib.Strings.{is_digit}

-- parseObjectKey, parseObjectValue, parseArrayValue
pub data Frame : Type 0 where
  object_key object_value array_value : Frame

-- The scanner's step functions. `literal` holds what is left of `true`, `false` or `null`.
pub data State : Type 0 where
  begin_value begin_value_or_empty begin_string begin_string_or_empty : State
  in_string in_string_esc : State
  in_string_hex : ℕ → State
  neg digit_zero digits dot dot_digits exponent exponent_sign exponent_digits : State
  literal : Text → State
  end_value end_top : State

abbrev Step : Type 0
Step = Option (State × List Frame)

is_blank : ℕ → Bool
is_blank c = c == b' ' || c == 9 || c == 13 || c == 10

is_hex : ℕ → Bool
is_hex c = is_digit c || (leb b'a' c && leb c b'f') || (leb b'A' c && leb c b'F')

-- pushParseState, with its limit on the depth
push : Frame → State → List Frame → Step
push f next stack = if ltb (length stack) 10000 then some (next, f ∷ stack) else none

-- popParseState
pop : List Frame → Step
pop [] = some (end_top, [])
pop (f ∷ []) = some (end_top, [])
pop (f ∷ g ∷ stack) = some (end_value, g ∷ stack)

step_begin : List Frame → ℕ → Step
unfolding is_blank push
step_begin stack c =
    if is_blank c
    then some (begin_value, stack)
    else if c == b'{'
    then push object_key begin_string_or_empty stack
    else if c == b'['
    then push array_value begin_value_or_empty stack
    else if c == b'"'
    then some (in_string, stack)
    else if c == b'-'
    then some (neg, stack)
    else if c == b'0'
    then some (digit_zero, stack)
    else if is_digit c
    then some (digits, stack)
    else if c == b't'
    then some (literal (codes "rue"), stack)
    else if c == b'f'
    then some (literal (codes "alse"), stack)
    else if c == b'n'
    then some (literal (codes "ull"), stack)
    else none

-- stateEndValue
step_end : List Frame → ℕ → Step
unfolding is_blank pop
step_end [] c = if is_blank c then some (end_top, []) else none
step_end (object_key ∷ stack) c =
    if is_blank c
    then some (end_value, object_key ∷ stack)
    else if c == b':'
    then some (begin_value, object_value ∷ stack)
    else none
step_end (object_value ∷ stack) c =
    if is_blank c
    then some (end_value, object_value ∷ stack)
    else if c == b','
    then some (begin_string, object_key ∷ stack)
    else if c == b'}'
    then pop (object_value ∷ stack)
    else none
step_end (array_value ∷ stack) c =
    if is_blank c
    then some (end_value, array_value ∷ stack)
    else if c == b','
    then some (begin_value, array_value ∷ stack)
    else if c == b']'
    then pop (array_value ∷ stack)
    else none

-- stateBeginString, and what stateBeginStringOrEmpty does beside it
step_key : List Frame → ℕ → Step
unfolding is_blank
step_key stack c =
    if is_blank c
    then some (begin_string, stack)
    else if c == b'"'
    then some (in_string, stack)
    else none

-- state0, stateDot0 and stateE0 past their digits
step_exponent : List Frame → ℕ → Step
unfolding step_end
step_exponent stack c = if c == b'e' || c == b'E' then some (exponent, stack) else step_end stack c

step_number : List Frame → ℕ → Step
unfolding step_exponent
step_number stack c = if c == b'.' then some (dot, stack) else step_exponent stack c

-- An empty object or array closes at once.
step_empty : ℕ → State → Step → List Frame → ℕ → Step
unfolding is_blank pop
step_empty close same other stack c =
    if is_blank c then some (same, stack) else if c == close then pop stack else other

step : State → List Frame → ℕ → Step
unfolding step_begin step_end step_key step_empty step_number step_exponent is_hex
step begin_value stack c = step_begin stack c
step begin_value_or_empty stack c =
    step_empty b']' begin_value_or_empty (step_begin stack c) stack c
step begin_string stack c = step_key stack c
step begin_string_or_empty stack c =
    step_empty b'}' begin_string_or_empty (step_key stack c) stack c
step in_string stack c =
    if c == b'"'
    then some (end_value, stack)
    else if c == b'\\'
    then some (in_string_esc, stack)
    else if ltb c 32
    then none
    else some (in_string, stack)
step in_string_esc stack c =
    if c == b'b'
      || c == b'f'
      || c == b'n'
      || c == b'r'
      || c == b't'
      || c == b'\\'
      || c == b'/'
      || c == b'"'
    then some (in_string, stack)
    else if c == b'u'
    then some (in_string_hex 3, stack)
    else none
step (in_string_hex zero) stack c = if is_hex c then some (in_string, stack) else none
step (in_string_hex (suc n)) stack c = if is_hex c then some (in_string_hex n, stack) else none
step neg stack c =
    if c == b'0'
    then some (digit_zero, stack)
    else if is_digit c
    then some (digits, stack)
    else none
step digits stack c = if is_digit c then some (digits, stack) else step_number stack c
step digit_zero stack c = step_number stack c
step dot stack c = if is_digit c then some (dot_digits, stack) else none
step dot_digits stack c = if is_digit c then some (dot_digits, stack) else step_exponent stack c
step exponent stack c =
    if c == b'+' || c == b'-'
    then some (exponent_sign, stack)
    else if is_digit c
    then some (exponent_digits, stack)
    else none
step exponent_sign stack c = if is_digit c then some (exponent_digits, stack) else none
step exponent_digits stack c =
    if is_digit c then some (exponent_digits, stack) else step_end stack c
step (literal []) stack c = step_end stack c
step (literal (x ∷ [])) stack c = if c == x then some (end_value, stack) else none
step (literal (x ∷ y ∷ rest)) stack c = if c == x then some (literal (y ∷ rest), stack) else none
step end_value stack c = step_end stack c
step end_top stack c = if is_blank c then some (end_top, stack) else none

-- scanner.eof: a number at the top level is closed by one more blank.
at_end : Step → Bool
at_end (some (end_top, _)) = true
at_end _ = false

scan : State → List Frame → Text → Bool
scan state stack [] = at_end (step state stack b' ')
scan state stack (c ∷ cs) = elim (step state stack c) [
  | none ↦ false
  | some (next, stack') ↦ scan next stack' cs
]

unfoldable pub valid : Text → Bool
unfolding scan step at_end
valid = scan begin_value []
