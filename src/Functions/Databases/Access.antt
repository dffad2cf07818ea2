-- ===== src/Functions/Databases/Access.antt =====
-- Who reaches a database, and what a query may return.
use rcp_server.Base.{
  ℕ, ◌≤◌, ◌≡◌, ◌≢◌, refl, ◌⊎◌, inl, inr, Bool, true, false, not, ◌&&◌, List, [], ◌∷◌, ◌++◌, none,
  some, arith, Text, keep, All, ◌==◌, length, length-append, Option-cases,
}
use rcp_server.Stdlib.Strings.{trim_space, to_lower}
use rcp_server.Functions.Errors.{ok, Result-cases}
use rcp_server.Table.{numbers, select, select-keep}
use rcp_server.Functions.Exec.{Uuid, BindingKey, Database, World, binding_keys, spend}
use rcp_server.Functions.Sql.{Param, validate_sql}
use rcp_server.Functions.Databases.{
  owned, has, binding, place_database, create_named, create_database, delete_database,
  bind_database, unbind_database,
}
use rcp_server.Functions.Queries.{
  query_database, query_binding, Engine, SqlResult, Reply, failed, changed, rows, collect,
  run_statement, max_sql_rows, fits,
}
use rcp_server.Functions.Databases.Cases.{is_ok, delete_database_cases}
use rcp_server.Functions.Databases.Invariant.{
  IsConsistent, IsBound, create_database-IsConsistent, delete_database-IsConsistent,
  bind_database-IsConsistent, unbind_database-IsConsistent,
}

pub data Call : Type 0 where
  creates : (owner : Uuid) (name : Text) (id : Uuid) (now : ℕ) → Call
  deletes : (owner id : Uuid) → Call
  binds : (owner function database : Uuid) (alias : Text) → Call
  unbinds : (owner function : Uuid) (alias : Text) → Call

unfoldable pub step : World → Call → World
step w (creates owner name id now) = (create_database owner name id now w).1
step w (deletes owner id) = (delete_database owner id w).1
step w (binds owner function database alias) = (bind_database owner function database alias w).1
step w (unbinds owner function alias) = (unbind_database owner function alias w).1

unfoldable pub run : World → List Call → World
unfolding step
run w [] = w
run w (c ∷ cs) = run (step w c) cs

step-IsConsistent : (w : World) (c : Call) → IsConsistent w.tables → IsConsistent (step w c).tables
unfolding step
step-IsConsistent w (creates o n i t) s = create_database-IsConsistent w s o n i t
step-IsConsistent w (deletes o i) s = delete_database-IsConsistent w s o i
step-IsConsistent w (binds o f d a) s = bind_database-IsConsistent w s o f d a
step-IsConsistent w (unbinds o f a) s = unbind_database-IsConsistent w s o f a

-- Whatever calls are made one after the other, and whichever of them fail, an owner has at most 10
-- databases, with valid names of which no two are equal, and a binding leads to one of them.
pub run-IsConsistent :
    (w : World) (cs : List Call) → IsConsistent w.tables → IsConsistent (run w cs).tables
unfolding run
run-IsConsistent w [] s = s
run-IsConsistent w (c ∷ cs) s = run-IsConsistent (step w c) cs (step-IsConsistent w c s)

module _ (owner : Uuid) (raw : Text) (id : Uuid) (now : ℕ) where
  keep_absent : (files : List Uuid) → has id files ≡ false → keep (λ f. not (f == id)) files ≡ files
  keep_absent [] h = refl
  keep_absent (f ∷ files) h = ground (arith, keep_absent files)

  place_database_undone :
      (name : Text) (w : World)
      → w.faults ≡ []
      → is_ok (place_database owner name id now w).0 ≡ false
      → (place_database owner name id now w).1 ≡ w
  unfolding place_database
  place_database_undone name w calm h = ground (arith, keep_absent w.files)

  -- Where the file system and the driver work, a CreateDatabase that fails leaves the tables and
  -- the files as they were.
  create_database_undone :
      (w : World)
      → w.faults ≡ []
      → is_ok (create_database owner raw id now w).0 ≡ false
      → (create_database owner raw id now w).1 ≡ w
  unfolding create_database create_named
  create_database_undone w calm h =
      ground (arith, place_database_undone (trim_space (to_lower raw)) w)

module _ {Row : Type 0} (engine : Engine Row) where
  -- what a result may hold
  pub record IsBounded (r : SqlResult Row) : Type 0 where
    pub few : length r.rows ≤ max_sql_rows
    pub small : (r.rows ≡ []) ⊎ (fits engine (engine.encoded r.columns r.rows) ≡ true)

  collect-few :
      (columns : List Text) (seen rest out : List Row)
      → length seen ≤ max_sql_rows
      → collect engine columns seen rest ≡ ok out
      → length out ≤ max_sql_rows
  unfolding collect
  collect-few columns seen [] out l h = ground arith
  collect-few columns seen (row ∷ rest) out l h =
      ground (arith, collect-few columns (seen ++ row ∷ []) rest out, length-append seen (row ∷ []))

  collect-small :
      (columns : List Text) (seen rest out : List Row)
      → (seen ≡ []) ⊎ (fits engine (engine.encoded columns seen) ≡ true)
      → collect engine columns seen rest ≡ ok out
      → (out ≡ []) ⊎ (fits engine (engine.encoded columns out) ≡ true)
  unfolding collect
  collect-small columns seen [] out l h = ground arith
  collect-small columns seen (row ∷ rest) out l h =
      ground (arith, collect-small columns (seen ++ row ∷ []) rest out)

  run_statement-IsBounded :
      (reads : Bool) (reply : Reply Row) (r : SqlResult Row)
      → run_statement engine reads reply ≡ ok r
      → IsBounded r
  run_statement-IsBounded reads (failed t) r h = absurd (ground arith)
  run_statement-IsBounded false (changed n) r h = ground arith
  run_statement-IsBounded true (changed n) r h = ground arith
  run_statement-IsBounded false (rows columns stream broken) r h = ground arith
  run_statement-IsBounded true (rows columns stream broken) r h =
      ground (arith, collect-few columns [] stream r.rows, collect-small columns [] stream r.rows)

  module _ (owner id : Uuid) (statement : Text) (params : List Param) (w : World) where
    -- A query is answered only for the database's owner and for a statement that passes the filter,
    -- and what it returns has at most 100 rows and, where it has any, at most 64 KiB of JSON.
    pub query_database-ok :
        (r : SqlResult Row)
        → (query_database engine owner id statement params w).0 ≡ ok r
        → (owned owner (select id w.tables.app_databases) ≡ true)
          × ((reads : Bool) × (validate_sql statement params ≡ ok reads))
          × IsBounded r
    unfolding query_database
    query_database-ok r h = elim (Result-cases (validate_sql statement params)) [
      | inl (reads, passed) ↦ (
        ground arith,
        (reads, passed),
        run_statement-IsBounded reads (engine.answer id statement params) r (ground arith),
      )
      | inr (e, refused) ↦ absurd (ground arith)
    ]

  -- A function queries through a binding of its own only, to a database that its owner has.
  query_binding-ok :
      (owner function : Uuid) (alias statement : Text) (params : List Param) (w : World)
      (r : SqlResult Row)
      → (query_binding engine owner function alias statement params w).0 ≡ ok r
      → (id : Uuid) × (select (binding owner function alias) w.tables.app_database_bindings
          ≡ some id)
        × (owned owner (select id w.tables.app_databases) ≡ true)
        × IsBounded r
  unfolding query_binding
  query_binding-ok owner function alias statement params w r h =
      elim (Option-cases (select (binding owner function alias) w.tables.app_database_bindings)) [
        | inl missing ↦ absurd (ground arith)
        | inr (id, found) ↦ (
          id,
          found,
          ground arith,
          (query_database-ok owner id statement params (record w { faults = (spend w.faults).1 }) r
              (ground arith)).2,
        )
      ]

module _ (owner id : Uuid) (w : World) (s : IsConsistent w.tables)
    (done : (delete_database owner id w).0 ≡ ok tt) where
  deleted_select : select id (delete_database owner id w).1.tables.app_databases ≡ none
  deleted_select = ground (
    arith,
    delete_database_cases owner w id,
    select-keep (λ (r : Uuid × Database). not (r.1.owner == owner && r.0 == id)) id
        w.tables.app_databases s.unique,
  )

  unbound :
      (databases : List (Uuid × Database)) (bindings : List (BindingKey × Uuid))
      → select id databases ≡ none
      → All (IsBound databases) bindings
      → All (λ b. (b.1 == id) ≡ false) bindings
  unbound databases [] gone h = tt
  unbound databases ((k, i) ∷ bindings) gone h = ground (arith, unbound databases bindings gone h.1)

  -- After a successful DeleteDatabase no query of the database is answered, whoever asks, and no
  -- binding leads to it.
  delete_database-unreachable :
      {Row : Type 0} (engine : Engine Row) (asker : Uuid) (statement : Text) (params : List Param)
      → ((r : SqlResult Row)
          → (query_database engine asker id statement params (delete_database owner id w).1).0
            ≢ ok r)
        × All (λ b. (b.1 == id) ≡ false) (delete_database owner id w).1.tables.app_database_bindings
  delete_database-unreachable engine asker statement params = (
    λ r answered. ground (
      arith,
      (query_database-ok engine asker id statement params (delete_database owner id w).1 r
          answered).0,
      deleted_select,
    ),
    unbound _ _ deleted_select (delete_database-IsConsistent w s owner id).bound,
  )
