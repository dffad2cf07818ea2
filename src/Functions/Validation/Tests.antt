-- ===== src/Functions/Validation/Tests.antt =====
-- Runs of validate and execute, and their theorems at a concrete module and run.
use rcp_server.Base.{◌≡◌, ◌≤◌, ◌<◌, ◌↔◌, refl, List, [], ◌∷◌, Text, codes, text_eq, length}
use rcp_server.Stdlib.Json.{valid}
use rcp_server.Stdlib.Strings.{trim_bytes}
use rcp_server.Table.{texts, select}
use rcp_server.Functions.Errors.{ok, err, invalid_wasm}
use rcp_server.Functions.Protocol.{write_limited}
use rcp_server.Functions.Validation.{
  Signature, Module, compiled, wasi_name, validate, json_object, admit, slots, max_wasm_bytes,
}
use rcp_server.Functions.Validation.Accepted.{IsCommand, validate_iff}

opened : Unit {0}
unfolding validate json_object admit valid trim_bytes select text_eq write_limited
opened = tt

abbrev plain : Signature
plain = record { params = []; results = [] }

abbrev wasi : List (Text × Signature)
wasi = (codes "proc_exit", record { params = 127 ∷ []; results = [] }) ∷ []

abbrev command : Module
command = record {
  imported_functions =
      record {
        module_name = wasi_name;
        name = codes "proc_exit";
        signature = record { params = 127 ∷ []; results = [] };
      }
      ∷ [];
  imported_memories = 0;
  exported_functions = (codes "_start", plain) ∷ [];
}

accepted : validate wasi (λ w. compiled command) 0 (codes "w") ≡ ok tt
unfolding opened
accepted = refl

with_memory :
    validate wasi (λ w. compiled (record command { imported_memories = 1 })) 0 (codes "w")
    ≡ err invalid_wasm
unfolding opened
with_memory = refl

validate_iff_example : (validate wasi (λ w. compiled command) 0 (codes "w") ≡ ok tt) ↔ (
    (0 < length (codes "w"))
    × (length (codes "w") ≤ max_wasm_bytes)
    × (0 < slots)
    × ((m : Module) × ((compiled command ≡ compiled m) × IsCommand wasi m)))
validate_iff_example = validate_iff wasi (λ w. compiled command) 0 (codes "w")
