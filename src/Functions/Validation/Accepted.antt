-- ===== src/Functions/Validation/Accepted.antt =====
-- The modules that validate accepts.
use rcp_server.Base.{
  ℕ, ◌≡◌, ◌≤◌, ◌<◌, ◌↔◌, ◌==◌, refl, true, List, [], ◌∷◌, Option, some, none, length, Text,
  text_eq_iff, codes, All, all, arith,
}
use rcp_server.Table.{texts, select}
use rcp_server.Functions.Errors.{ok}
use rcp_server.Functions.Validation.{
  Signature, Import, Module, Compiled, compiled, late, malformed, wasi_name, is_wasi, exports_same,
  starts, is_command, check_module, validate, slots, max_wasm_bytes,
}

-- WASI exports a function of the import's name and types.
abbrev pub IsWasi : List (Text × Signature) → Import → Type 0
IsWasi wasi i = (i.module_name ≡ wasi_name) × (select i.name wasi ≡ some i.signature)

-- A command: it imports from WASI only and no memory, and exports a `_start` without parameters and results.
abbrev pub IsCommand : List (Text × Signature) → Module → Type 0
IsCommand wasi m =
    All (IsWasi wasi) m.imported_functions
    × (m.imported_memories ≡ 0)
    × (select (codes "_start") m.exported_functions ≡ some (record { params = []; results = [] }))

exports_same_iff : (s : Signature) (o : Option Signature) → (exports_same s o ≡ true) ↔ (o ≡ some s)
exports_same_iff s none = ground arith
exports_same_iff s (some t) =
    ground (arith, text_eq_iff s.params t.params, text_eq_iff s.results t.results)

all_iff :
    (wasi : List (Text × Signature)) (is : List Import)
    → (all (is_wasi wasi) is ≡ true) ↔ All (IsWasi wasi) is
all_iff wasi [] = ground arith
all_iff wasi (i ∷ is) = ground (
  arith,
  all_iff wasi is,
  text_eq_iff i.module_name wasi_name,
  exports_same_iff i.signature (select i.name wasi),
)

nil_iff : (xs : List ℕ) → ((length xs == 0) ≡ true) ↔ (xs ≡ [])
nil_iff [] = ground arith
nil_iff (x ∷ xs) = ground arith

starts_iff :
    (o : Option Signature) → (starts o ≡ true) ↔ (o ≡ some (record { params = []; results = [] }))
starts_iff none = ground arith
starts_iff (some s) = ground (arith, nil_iff s.params, nil_iff s.results)

unexported : (name : Text) (es : List (Text × Signature)) → length es ≡ 0 → select name es ≡ none
unfolding select
unexported name [] e = refl
unexported name (x ∷ es) e = ground arith

is_command_iff :
    (wasi : List (Text × Signature)) (m : Module) → (is_command wasi m ≡ true) ↔ IsCommand wasi m
is_command_iff wasi m = ground (
  arith,
  all_iff wasi m.imported_functions,
  starts_iff (select (codes "_start") m.exported_functions),
  unexported (codes "_start") m.exported_functions,
)

check_module_iff :
    (wasi : List (Text × Signature)) (r : Compiled)
    → (check_module wasi r ≡ ok tt) ↔ ((m : Module) × ((r ≡ compiled m) × IsCommand wasi m))
check_module_iff wasi late =
    ((λ h. absurd (ground (arith, h))), (λ (m, (is, _)). absurd (ground (arith, is))))
check_module_iff wasi malformed =
    ((λ h. absurd (ground (arith, h))), (λ (m, (is, _)). absurd (ground (arith, is))))
check_module_iff wasi (compiled m) = (
  (λ h. (m, (refl, (is_command_iff wasi m).0 (ground (arith, h))))),
  (λ (n, (is, command)). ground (arith, is, (is_command_iff wasi n).1 command)),
)

-- validate accepts a module exactly if it has between one byte and 32 MiB, a slot is free, and it compiles
-- to a command that imports only what WASI exports, with the types it has there.
pub validate_iff :
    (wasi : List (Text × Signature)) (compile : Text → Compiled) (running : ℕ) (wasm : Text)
    → (validate wasi compile running wasm ≡ ok tt) ↔ (
        (0 < length wasm)
        × (length wasm ≤ max_wasm_bytes)
        × (running < slots)
        × ((m : Module) × ((compile wasm ≡ compiled m) × IsCommand wasi m)))
unfolding validate
validate_iff wasi compile running wasm = (
  (λ h.
      let checked = passed h in
      (
        ground (arith, h),
        ground (arith, h),
        ground (arith, h),
        (check_module_iff wasi (compile wasm)).0 checked,
      )),
  (λ (full, small, free, command).
      let checked = (check_module_iff wasi (compile wasm)).1 command in
      ground (arith, full, small, free, checked)),
)
  where
    passed : validate wasi compile running wasm ≡ ok tt → check_module wasi (compile wasm) ≡ ok tt
    passed h = ground (arith, h)
