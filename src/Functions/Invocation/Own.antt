-- ===== src/Functions/Invocation/Own.antt =====
-- An invocation changes the items of its own function only.
use rcp_server.Base.{
  ℕ, ◌≡◌, refl, ◌∙◌, sym, inl, inr, false, ◌&&◌, Option, some, Text, Bool-cases, ◌==◌, text_eq,
  codes, subst, ap,
}
use rcp_server.Table.{select}
use rcp_server.Stdlib.Json.{valid}
use rcp_server.Functions.Exec.{Uuid, World, Tables, item_keys}
use rcp_server.Functions.Queries.{Engine, query_binding}
use rcp_server.Functions.Data.{item_key}
use rcp_server.Functions.Data.Invariant.{IsSound}
use rcp_server.Functions.Data.History.{
  Call, step, step-IsSound, select-step, gets, lists, puts, deletes,
}
use rcp_server.Functions.Protocol.{DataRequest, operate}
use rcp_server.Functions.Validation.{Run}
use rcp_server.Functions.Invocation.{run_data, in_data_mode}
use rcp_server.Functions.Invocation.Reading.{query_binding-IsReading}
use rcp_server.Functions.Invocation.Kept.{run_data-P}

-- the store is sound, and the items of another function are those of `before`
abbrev pub IsSpared : Uuid → Uuid → Tables → World → Type 0
IsSpared o f before w =
    IsSound w.tables
    × ((collection key : Text)
        → select (item_key o f collection key) w.tables.function_data
          ≡ select (item_key o f collection key) before.function_data)

-- the store is still there, with all that is not the function's own
abbrev pub LeavesOthers : Uuid → Uuid → Tables → Option World → Type 0
LeavesOthers o f before store = (w : World) × (store ≡ some w) × IsSpared o f before w

module _ {Row : Type 0} (decode : Text → Option DataRequest) (engine : Engine Row)
    (owner function : Uuid) (stamps : ℕ → ℕ) (o f : Uuid) (before : Tables)
    (other : (owner == o && function == f) ≡ false) where
  same-IsSpared :
      (w v : World) → v.tables ≡ w.tables → IsSpared o f before w → IsSpared o f before v
  same-IsSpared w v same (sound, spared) = (
    subst IsSound (sym same) sound,
    λ collection key.
        ap (λ t. select (item_key o f collection key) t.function_data) same ∙ spared collection key,
  )

  step-IsSpared :
      (c : Call) (w : World)
      → IsSpared o f before w
      → IsSpared o f before (step w (owner, function, c))
  step-IsSpared c w (sound, spared) = (
    step-IsSound w (owner, function, c) sound,
    λ collection key.
        select-step o f collection key w (owner, function, c) sound other ∙ spared collection key,
  )

  operate-IsSpared :
      (req : DataRequest) (now : ℕ) (w : World)
      → IsSpared o f before w
      → IsSpared o f before (operate decode engine owner function stamps req now w).1
  unfolding operate step
  operate-IsSpared req now w h = elim (Bool-cases (text_eq req.kind (codes "sql"))) [
    | inl sql ↦ rw sql (
        same-IsSpared w (query_binding engine owner function req.binding req.sql req.params w).1
          (query_binding-IsReading engine owner function req.binding req.sql req.params w) h)
    | inr no_sql ↦ elim (Bool-cases (text_eq req.op (codes "get"))) [
      | inl is ↦ rw (no_sql, is) (step-IsSpared (gets req.collection req.key) w h)
      | inr no_get ↦ elim (Bool-cases (text_eq req.op (codes "list"))) [
        | inl is ↦ rw (no_sql, no_get, is) (step-IsSpared (lists req.collection req.offset) w h)
        | inr no_list ↦ elim (Bool-cases (text_eq req.op (codes "put"))) [
          | inl is ↦
              rw (no_sql, no_get, no_list, is)
                (step-IsSpared (puts req.collection req.key req.value now) w h)
          | inr no_put ↦ elim (Bool-cases (text_eq req.op (codes "delete"))) [
            | inl is ↦
                rw (no_sql, no_get, no_list, no_put, is)
                  (step-IsSpared (deletes req.collection req.key) w h)
            | inr no_delete ↦ rw (no_sql, no_get, no_list, no_put, no_delete) h
          ]
        ]
      ]
    ]
  ]

  run_data-IsSpared :
      (r : Run) (w : World)
      → IsSpared o f before w
      → IsSpared o f before (run_data decode engine stamps owner function r w).1
  run_data-IsSpared =
      run_data-P decode engine owner function stamps (IsSpared o f before) operate-IsSpared

  pub in_data_mode-LeavesOthers :
      (input : Text) (r : Run) (w : World)
      → IsSpared o f before w
      → LeavesOthers o f before
          (in_data_mode decode engine stamps owner function input r (some w)).1
  in_data_mode-LeavesOthers input r w h = elim (Bool-cases (owner == 0)) [
    | inl nil ↦ rw nil (w, refl, h)
    | inr someone ↦ elim (Bool-cases (valid input)) [
      | inr broken ↦ rw (someone, broken) (w, refl, h)
      | inl fine ↦ rw (someone, fine) (_, refl, run_data-IsSpared r w h)
    ]
  ]
