-- ===== src/Functions/Validation.antt =====
-- validate of service.go, and what execute checks before a run and makes of it without data mode. What
-- wazero compiles and what a run writes are arguments; `running` is how many slots are taken.
pub mod Accepted
pub mod Answers
mod Tests
use rcp_server.Base.{
  ℕ, ◌+◌, Bool, true, false, not, ◌&&◌, ◌||◌, List, [], ◌∷◌, Option, none, some, length, leb, ltb,
  ◌==◌, if◌then◌else◌, Text, text_eq, codes, all, find,
}
use rcp_server.Stdlib.Json.{valid}
use rcp_server.Stdlib.Strings.{trim_bytes}
use rcp_server.Functions.Errors.{
  Error, Result, ok, err, invalid_wasm, busy, timeout, input_size, invalid_input, invalid_output,
  output_limit, data_unavailable, unavailable_call,
}
use rcp_server.Functions.Protocol.{LimitedWriter, write_limited}
use rcp_server.Table.{texts, select}

abbrev pub max_wasm_bytes : ℕ
max_wasm_bytes = 33554432

abbrev pub max_input_bytes : ℕ
max_input_bytes = 131072

abbrev pub slots : ℕ
slots = 4

-- value types by their codes
pub record Signature : Type 0 where
  pub params : List ℕ
  pub results : List ℕ

pub record Import : Type 0 where
  pub module_name : Text
  pub name : Text
  pub signature : Signature

-- what validate reads of a compiled module
pub record Module : Type 0 where
  pub imported_functions : List Import
  pub imported_memories : ℕ
  pub exported_functions : List (Text × Signature)

pub data Compiled : Type 0 where
  compiled : Module → Compiled
  late : Compiled
  malformed : Compiled

abbrev pub same_signature : Signature → Signature → Bool
same_signature a b = text_eq a.params b.params && text_eq a.results b.results

abbrev pub wasi_name : Text
wasi_name = codes "wasi_snapshot_preview1"

abbrev pub exports_same : Signature → Option Signature → Bool
exports_same s none = false
exports_same s (some t) = same_signature s t

-- the loop over the imports, for one of them
abbrev pub is_wasi : List (Text × Signature) → Import → Bool
is_wasi wasi i = text_eq i.module_name wasi_name && exports_same i.signature (select i.name wasi)

abbrev pub starts : Option Signature → Bool
starts none = false
starts (some s) = length s.params == 0 && length s.results == 0

abbrev pub is_command : List (Text × Signature) → Module → Bool
is_command wasi m =
    all (is_wasi wasi) m.imported_functions
    && m.imported_memories == 0
    && not (length m.exported_functions == 0)
    && starts (select (codes "_start") m.exported_functions)

abbrev pub check_module : List (Text × Signature) → Compiled → Result (Unit {0})
check_module wasi (compiled m) = if is_command wasi m then ok tt else err invalid_wasm
check_module wasi late = err timeout
check_module wasi malformed = err invalid_wasm

unfoldable pub validate : List (Text × Signature) → (Text → Compiled) → ℕ → Text → Result (Unit {0})
validate wasi compile running wasm =
    if length wasm == 0 || ltb max_wasm_bytes (length wasm)
    then err invalid_wasm
    else (if leb slots running then err busy else check_module wasi (compile wasm))

abbrev pub is_object : Text → Bool
is_object [] = false
is_object (c ∷ s) = c == b'{' && valid (c ∷ s)

-- jsonObject
unfoldable pub json_object : Text → Bool
json_object text = is_object (trim_bytes text)

-- how a run of a module ends: it returns, exits with a code, or fails otherwise
pub data Exit : Type 0 where
  returned : Exit
  exited : (code : ℕ) → Exit
  failed : Exit

-- What a run writes, one text to a Write, whether it was cut off, and how it ends; in data mode it
-- receives so many replies before each Write and after the last, and none where `takes` is at its end.
pub record Run : Type 0 where
  pub stdout : List Text
  pub takes : List ℕ
  pub stderr : List Text
  pub cut_off : Bool
  pub exit : Exit

pub record Answer : Type 0 where
  pub stdout : Text
  pub stderr : Text
  pub exit_code : ℕ

abbrev pub write_all : LimitedWriter → List Text → LimitedWriter
write_all w [] = w
write_all w (p ∷ ps) = write_all (write_limited w p).1 ps

abbrev pub no_output : LimitedWriter
no_output = record { content = []; exceeded = false }

abbrev pub answer : LimitedWriter → LimitedWriter → ℕ → Answer
answer out log code = record { stdout = out.content; stderr = log.content; exit_code = code }

-- the result of a run by its end
abbrev pub ended : LimitedWriter → LimitedWriter → Exit → Result Answer
ended out log returned =
    if json_object out.content then ok (answer out log 0) else err invalid_output
ended out log (exited code) = ok (answer out log code)
ended out log failed = err unavailable_call

abbrev pub finished : Bool → LimitedWriter → LimitedWriter → Exit → Result Answer
finished cut_off out log exit =
    if cut_off
    then err timeout
    else (if out.exceeded || log.exceeded then err output_limit else ended out log exit)

abbrev pub run_result : Run → Result Answer
run_result r =
    finished r.cut_off (write_all no_output r.stdout) (write_all no_output r.stderr) r.exit

-- What execute checks before the run, which is absent where the module does not compile.
unfoldable pub admit : ℕ → Option Run → Text → Result Run
admit running run input =
    if ltb max_input_bytes (length input)
    then err input_size
    else (if not (json_object input)
        then err invalid_input
        else (if leb slots running
            then err busy
            else elim run [ none ↦ err unavailable_call | some r ↦ ok r ]))
