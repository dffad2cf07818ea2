-- ===== src/Functions/Invocation/Reading.antt =====
-- A query of a binding leaves the tables of the store.
use rcp_server.Base.{
  ◌≡◌, refl, ◌∙◌, inl, inr, Bool, true, false, not, List, Option, none, some, arith, Text,
  if◌then◌else◌,
}
use rcp_server.Functions.Errors.{Error, Result, ok, err, Result-cases, data_unavailable, not_found}
use rcp_server.Functions.Exec.{
  Exec, continue, attempt, query, ◌>>=◌, raise, Uuid, World, Tables, spend,
}
use rcp_server.Functions.Sql.{Param, validate_sql}
use rcp_server.Functions.Databases.{
  database_owned, open_database, valid_binding_name, attempt_or, has,
}
use rcp_server.Functions.Queries.{Engine, SqlResult, query_binding, query_database, lift}

-- a method that leaves the tables
abbrev pub IsReading : {A : Type 0} → Exec A → Type 0
IsReading m = (w : World) → (m w).1.tables ≡ w.tables

continue-IsReading :
    {A B : Type 0} (r : Result A) (f : A → Exec B)
    → ((a : A) → IsReading (f a))
    → IsReading (continue r f)
continue-IsReading (ok a) f h w = h a w
continue-IsReading (err e) f h w = refl

bind-IsReading :
    {A B : Type 0} (m : Exec A) (f : A → Exec B)
    → IsReading m
    → ((a : A) → IsReading (f a))
    → IsReading (m >>= f)
bind-IsReading m f h k w = continue-IsReading (m w).0 f k (m w).1 ∙ h w

query-IsReading : {A : Type 0} (f : Tables → A) → IsReading (query f)
query-IsReading f = bind-IsReading attempt _ (λ w. refl) (λ _ w. refl)

if-IsReading :
    {A : Type 0} (b : Bool) (m n : Exec A)
    → IsReading m
    → IsReading n
    → IsReading (if b then m else n)
if-IsReading true m n h k = h
if-IsReading false m n h k = k

database_owned-IsReading : (owner id : Uuid) → IsReading (database_owned owner id)
unfolding database_owned
database_owned-IsReading owner id =
    bind-IsReading _ _ (query-IsReading _) (λ found. if-IsReading found _ _ (λ w. refl) (λ w. refl))

has-IsReading :
    (id : Uuid)
    → IsReading {A = Unit {0}}
        (λ w. if has id w.files then (ok tt, w) else (err data_unavailable, w))
has-IsReading id w = ground arith

attempt_or-IsReading : (e : Error) → IsReading (attempt_or e)
attempt_or-IsReading e w = elim (Result-cases (spend w.faults).0) [
  | inl (a, works) ↦ rw (attempt_or, works) refl
  | inr (f, fails) ↦ rw (attempt_or, fails) refl
]

open_database-IsReading : (id : Uuid) → IsReading (open_database id)
open_database-IsReading id =
    bind-IsReading (attempt_or data_unavailable) _ (attempt_or-IsReading data_unavailable) (λ _.
      bind-IsReading _ _ (has-IsReading id)
        (λ _. bind-IsReading attempt _ (λ w. refl) (λ _ w. refl)))

module _ {Row : Type 0} (engine : Engine Row) where
  query_database-IsReading :
      (owner id : Uuid) (statement : Text) (params : List Param)
      → IsReading (query_database engine owner id statement params)
  unfolding query_database
  query_database-IsReading owner id statement params =
      bind-IsReading (database_owned owner id) _ (database_owned-IsReading owner id) (λ _.
        bind-IsReading (lift engine (validate_sql statement params)) _ (λ w. refl)
          (λ reads. bind-IsReading (open_database id) _ (open_database-IsReading id) (λ _ w. refl)))

  abbrev resolved : Uuid → Text → List Param → Option Uuid → Exec (SqlResult Row)
  resolved owner statement params none = raise not_found
  resolved owner statement params (some id) = query_database engine owner id statement params

  resolved-IsReading :
      (owner : Uuid) (statement : Text) (params : List Param) (found : Option Uuid)
      → IsReading (resolved owner statement params found)
  resolved-IsReading owner statement params none w = refl
  resolved-IsReading owner statement params (some id) w =
      query_database-IsReading owner id statement params w

  pub query_binding-IsReading :
      (owner function : Uuid) (alias statement : Text) (params : List Param)
      → IsReading (query_binding engine owner function alias statement params)
  unfolding query_binding
  query_binding-IsReading owner function alias statement params =
      if-IsReading (not (valid_binding_name alias)) _ _ (λ w. refl)
        (bind-IsReading (query _) (resolved owner statement params) (query-IsReading _)
          (resolved-IsReading owner statement params))
