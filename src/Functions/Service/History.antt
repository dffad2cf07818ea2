-- ===== src/Functions/Service/History.antt =====
-- Histories of the service: the rows of functions, whichever calls fail.
use rcp_server.Base.{
  ℕ, ◌≡◌, Bool, List, [], ◌∷◌, Option, none, some, Text, arith, Bool-cases, inl, inr,
}
use rcp_server.Table.{numbers}
use rcp_server.Functions.Errors.{Result-cases}
use rcp_server.Functions.Errors.{Result, ok}
use rcp_server.Functions.Exec.{Uuid, Exec}
use rcp_server.Functions.Data.{delete_function}
use rcp_server.Functions.Validation.{Signature, Compiled, validate}
use rcp_server.Functions.Service.{
  Deployment, Api, valid_name, get_row, update_deployment, delete_row, on_store, place,
  wasm_deployment, function_name, build, create, create_source, update, update_source, if_stored,
  delete, data_for,
}
use rcp_server.Functions.Service.Kept.{
  IsKept, Keeps, continue-Keeps, checked-Keeps, get_row-Keeps, update_deployment-IsKept,
  delete_row-Keeps, place_after-IsKept, unless_lacking-IsKept, if_stored-Keeps, on_store-Keeps,
  if_room_and_store-IsKept, place-IsKept,
}

module _ (wasi : List (Text × Signature)) (compile : Text → Compiled) where
  built-data_mode :
      (builder : Option (Text → Text → Result Text)) (running : ℕ) (language source : Text)
      (data_mode : Bool) (d : Deployment)
      → build wasi compile builder running language source data_mode ≡ ok d
      → d.data_mode ≡ data_mode
  unfolding build
  built-data_mode none running language source data_mode d h = absurd (ground arith)
  built-data_mode (some builder) running language source data_mode d h =
      elim (Result-cases (builder language source)) [
        | inr (e, failed) ↦ absurd (ground (arith, failed))
        | inl (wasm, made) ↦ elim (Result-cases (validate wasi compile running wasm)) [
          | inr (e, refused) ↦ absurd (ground (arith, made, refused))
          | inl (u, valid) ↦ ground (arith, made, valid)
        ]
      ]

  create-Keeps :
      (running : ℕ) (id owner : Uuid) (raw wasm : Text) (data_mode : Bool)
      → Keeps (create wasi compile running id owner raw wasm data_mode)
  unfolding create
  create-Keeps running id owner raw wasm data_mode s v =
      elim (Bool-cases (valid_name (function_name raw))) [
        | inr bad ↦ rw bad v
        | inl valid ↦ rw valid (
            checked-Keeps (validate wasi compile running wasm) _
              (λ _ t u. place_after-IsKept _ owner t u (
                if_room_and_store-IsKept id owner (function_name raw)
                  (wasm_deployment wasm data_mode) t u valid))
              s v)
      ]

  create_source-Keeps :
      (builder : Option (Text → Text → Result Text)) (running : ℕ) (id owner : Uuid)
      (raw language source : Text) (data_mode : Bool)
      → Keeps (create_source wasi compile builder running id owner raw language source data_mode)
  unfolding create_source
  create_source-Keeps builder running id owner raw language source data_mode s v =
      elim (Bool-cases (valid_name (function_name raw))) [
        | inr bad ↦ rw bad v
        | inl valid ↦
            elim (Result-cases (build wasi compile builder running language source data_mode)) [
              | inr (e, failed) ↦ rw (valid, failed) v
              | inl (d, made) ↦
                  rw (valid, made)
                    (unless_lacking-IsKept data_mode (place id owner (function_name raw) d) s v
                      (λ stored. place-IsKept id owner (function_name raw) d s v valid (
                        rw (built-data_mode builder running language source data_mode d made)
                          stored)))
            ]
      ]

  update-Keeps :
      (running : ℕ) (owner id : Uuid) (wasm : Text) (data_mode : Bool)
      → Keeps (update wasi compile running owner id wasm data_mode)
  unfolding update
  update-Keeps running owner id wasm data_mode s v =
      checked-Keeps (validate wasi compile running wasm) _
        (λ _ t u.
          unless_lacking-IsKept data_mode
            (update_deployment owner id (wasm_deployment wasm data_mode)) t u
            (λ stored.
              update_deployment-IsKept owner id (wasm_deployment wasm data_mode) t u stored))
        s v

  update_source-Keeps :
      (builder : Option (Text → Text → Result Text)) (running : ℕ) (owner id : Uuid)
      (language source : Text) (data_mode : Bool)
      → Keeps (update_source wasi compile builder running owner id language source data_mode)
  unfolding update_source
  update_source-Keeps builder running owner id language source data_mode s v =
      continue-Keeps _ (get_row owner id s).0 (get_row owner id s).1
        (λ _ t u.
          elim (Result-cases (build wasi compile builder running language source data_mode)) [
            | inr (e, failed) ↦ rw failed u
            | inl (d, made) ↦ rw made (
                unless_lacking-IsKept data_mode (update_deployment owner id d) t u (λ stored.
                  update_deployment-IsKept owner id d t u
                    (rw (built-data_mode builder running language source data_mode d made) stored)))
          ])
        (get_row-Keeps owner id s v)

delete-Keeps : (owner id : Uuid) → Keeps (delete owner id)
unfolding delete
delete-Keeps owner id s v =
    continue-Keeps (λ _. if_stored (delete_function owner id)) (delete_row owner id s).0
      (delete_row owner id s).1 (λ _. if_stored-Keeps (delete_function owner id))
      (delete_row-Keeps owner id s v)

data_for-Keeps : {A : Type 0} (owner id : Uuid) (m : Exec A) → Keeps (data_for owner id m)
data_for-Keeps owner id m s v =
    continue-Keeps (λ _. on_store m) (get_row owner id s).0 (get_row owner id s).1
      (λ _. on_store-Keeps m) (get_row-Keeps owner id s v)

-- The calls that write; `touches` is any method on the items or the bindings of a function.
pub data Call : Type 0 where
  creates : (running : ℕ) (id owner : Uuid) (raw wasm : Text) (data_mode : Bool) → Call
  creates_source :
      (builder : Option (Text → Text → Result Text)) (running : ℕ) (id owner : Uuid)
      (raw language source : Text) (data_mode : Bool)
      → Call
  updates : (running : ℕ) (owner id : Uuid) (wasm : Text) (data_mode : Bool) → Call
  updates_source :
      (builder : Option (Text → Text → Result Text)) (running : ℕ) (owner id : Uuid)
      (language source : Text) (data_mode : Bool)
      → Call
  deletes : (owner id : Uuid) → Call
  touches : (owner id : Uuid) (m : Exec (Unit {0})) → Call

module _ (wasi : List (Text × Signature)) (compile : Text → Compiled) where
  unfoldable pub step : Api → Call → Api
  step s (creates running id owner raw wasm data_mode) =
      (create wasi compile running id owner raw wasm data_mode s).1
  step s (creates_source builder running id owner raw language source data_mode) =
      (create_source wasi compile builder running id owner raw language source data_mode s).1
  step s (updates running owner id wasm data_mode) =
      (update wasi compile running owner id wasm data_mode s).1
  step s (updates_source builder running owner id language source data_mode) =
      (update_source wasi compile builder running owner id language source data_mode s).1
  step s (deletes owner id) = (delete owner id s).1
  step s (touches owner id m) = (data_for owner id m s).1

  unfoldable pub run : Api → List Call → Api
  run s [] = s
  run s (c ∷ cs) = run (step s c) cs

  step-IsKept : (s : Api) (c : Call) → IsKept s → IsKept (step s c)
  unfolding step
  step-IsKept s (creates running id owner raw wasm data_mode) =
      create-Keeps wasi compile running id owner raw wasm data_mode s
  step-IsKept s (creates_source builder running id owner raw language source data_mode) =
      create_source-Keeps wasi compile builder running id owner raw language source data_mode s
  step-IsKept s (updates running owner id wasm data_mode) =
      update-Keeps wasi compile running owner id wasm data_mode s
  step-IsKept s (updates_source builder running owner id language source data_mode) =
      update_source-Keeps wasi compile builder running owner id language source data_mode s
  step-IsKept s (deletes owner id) = delete-Keeps owner id s
  step-IsKept s (touches owner id m) = data_for-Keeps owner id m s

  -- Any history of calls, whichever fail, keeps the rows of functions sound: an id has one row; an owner has
  -- one function of a name, and 20 functions at most; every name is valid; and a function in data mode is
  -- there only where the service has a store.
  pub run-IsKept : (s : Api) (cs : List Call) → IsKept s → IsKept (run s cs)
  unfolding run
  run-IsKept s [] v = v
  run-IsKept s (c ∷ cs) v = run-IsKept (step s c) cs (step-IsKept s c v)
