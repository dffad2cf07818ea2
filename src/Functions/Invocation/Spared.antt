-- ===== src/Functions/Invocation/Spared.antt =====
-- What Invoke leaves as it was.
use rcp_server.Base.{
  ℕ, ◌≡◌, refl, ◌∙◌, ◌⊎◌, inl, inr, false, ◌&&◌, Option, some, arith, Text, Bool-cases,
  Option-cases, ◌==◌, subst, sym,
}
use rcp_server.Table.{numbers, select}
use rcp_server.Functions.Errors.{Error, Result, ok, err}
use rcp_server.Functions.Exec.{Uuid, World}
use rcp_server.Functions.Queries.{Engine}
use rcp_server.Functions.Data.Invariant.{IsSound}
use rcp_server.Functions.Protocol.{DataRequest}
use rcp_server.Functions.Validation.{Run, Answer, admit}
use rcp_server.Functions.Service.{FunctionRow, Api, get_row, continue, next_fault}
use rcp_server.Functions.Invocation.{in_data_mode, admitted, execute_function, on_row, invoke}
use rcp_server.Functions.Invocation.Own.{LeavesOthers, in_data_mode-LeavesOthers}

get_row_cases :
    (owner id : Uuid) (s : Api)
    → ((get_row owner id s).1.functions ≡ s.functions)
      × ((get_row owner id s).1.store ≡ s.store)
      × (((e : Error) × ((get_row owner id s).0 ≡ err e))
          ⊎ ((row : FunctionRow) × ((get_row owner id s).0 ≡ ok row) × (row.owner ≡ owner)))
unfolding get_row
get_row_cases owner id s = elim (Bool-cases (next_fault s.faults).0) [
  | inl fails ↦ rw fails (refl, refl, inl (_, refl))
  | inr answers ↦ elim (Option-cases (select id s.functions)) [
    | inl absent ↦ rw (answers, absent) (refl, refl, inl (_, refl))
    | inr (row, there) ↦ elim (Bool-cases (row.owner == owner)) [
      | inl own ↦ rw (answers, there, own) (refl, refl, inr (row, refl, ground arith))
      | inr foreign ↦ rw (answers, there, foreign) (refl, refl, inl (_, refl))
    ]
  ]
]

module _ {Row : Type 0} (decode : Text → Option DataRequest) (engine : Engine Row) (stamps : ℕ → ℕ)
    (runs : FunctionRow → Text → Option Run) (owner id o f : Uuid)
    (other : (owner == o && id == f) ≡ false) where
  data_mode-LeavesOthers :
      (input : Text) (row : FunctionRow) (r : Run) (w : World)
      → row.owner ≡ owner
      → IsSound w.tables
      → LeavesOthers o f w.tables
          (in_data_mode decode engine stamps row.owner id input r (some w)).1
  data_mode-LeavesOthers input row r w is sound =
      in_data_mode-LeavesOthers decode engine row.owner id stamps o f w.tables
        (subst (λ p. (p == o && id == f) ≡ false) (sym is) other) input r w (sound, λ _ _. refl)

  admitted-LeavesOthers :
      (input : Text) (row : FunctionRow) (r : Result Run) (w : World)
      → row.owner ≡ owner
      → IsSound w.tables
      → LeavesOthers o f w.tables (admitted decode engine stamps id row input r (some w)).1
  admitted-LeavesOthers input row (err e) w is sound = (w, refl, (sound, λ _ _. refl))
  admitted-LeavesOthers input row (ok r) w is sound = elim (Bool-cases row.data_mode) [
    | inr plain ↦ rw plain (w, refl, (sound, λ _ _. refl))
    | inl mode ↦ rw mode (data_mode-LeavesOthers input row r w is sound)
  ]

  -- the outcome of an invocation on what it was begun with
  abbrev Spares : Api → World → Result Answer × Api → Type 0
  Spares s w (_, s') = (s'.functions ≡ s.functions) × LeavesOthers o f w.tables s'.store

  row-Spares :
      (running : ℕ) (input : Text) (row : FunctionRow) (s v : Api) (w : World)
      → row.owner ≡ owner
      → v.functions ≡ s.functions
      → v.store ≡ some w
      → IsSound w.tables
      → Spares s w (on_row decode engine stamps runs running id input row v)
  unfolding execute_function
  row-Spares running input row s v w is same stored sound = (
    same,
    subst
        (λ store.
          LeavesOthers o f w.tables
            (execute_function decode engine stamps runs running id row input store).1)
        (sym stored)
        (admitted-LeavesOthers input row (admit running (runs row input) input) w is sound),
  )

  found-Spares :
      (running : ℕ) (input : Text) (found : Result FunctionRow) (s v : Api) (w : World)
      → (((e : Error) × (found ≡ err e))
          ⊎ ((row : FunctionRow) × (found ≡ ok row) × (row.owner ≡ owner)))
      → v.functions ≡ s.functions
      → v.store ≡ some w
      → IsSound w.tables
      → Spares s w (continue (on_row decode engine stamps runs running id input) (found, v))
  found-Spares running input (err _) s v w is same stored sound =
      (same, (w, stored, (sound, λ _ _. refl)))
  found-Spares running input (ok row) s v w (inl (e, failed)) same stored sound =
      absurd (ground arith)
  found-Spares running input (ok row) s v w (inr (row', is, own)) same stored sound =
      row-Spares running input row s v w (ap_owner is ∙ own) same stored sound
    where
      ap_owner : {a b : FunctionRow} → ok a ≡ ok b → a.owner ≡ b.owner
      ap_owner h = ground (arith, h)

  -- Whatever an invocation of the function `id` of `owner` runs, and whatever the run writes, every
  -- row of functions stays as it was, the store stays sound, and the items of another function,
  -- which is `f` of `o`, stay as they were.
  pub invoke-Spares :
      (running : ℕ) (input : Text) (s : Api) (w : World)
      → s.store ≡ some w
      → IsSound w.tables
      → ((invoke decode engine stamps runs running owner id input s).1.functions ≡ s.functions)
        × LeavesOthers o f w.tables
            (invoke decode engine stamps runs running owner id input s).1.store
  unfolding invoke
  invoke-Spares running input s w stored sound =
      let (same, kept, found) = get_row_cases owner id s in
      found-Spares running input (get_row owner id s).0 s (get_row owner id s).1 w found same
        (kept ∙ stored) sound
