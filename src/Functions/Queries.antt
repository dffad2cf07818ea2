-- ===== src/Functions/Queries.antt =====
-- sql_database.go: what a statement of the user may do, QueryDatabase and QueryBinding. What SQLite
-- answers to a statement is a parameter.
use rcp_server.Base.{
  ℕ, Bool, true, false, not, List, [], ◌∷◌, ◌++◌, Option, none, some, leb, if◌then◌else◌, Text,
  length,
}
use rcp_server.Functions.Errors.{
  Error, Result, ok, err, invalid_database, not_found, sql_limit, timeout,
}
use rcp_server.Table.{numbers, select}
use rcp_server.Functions.Exec.{Uuid, binding_keys, Exec, raise, query, ◌>>=◌, ◌>>◌}
use rcp_server.Functions.Sql.{Param, validate_sql}
use rcp_server.Functions.Databases.{
  valid_binding_name, open_database, database_owned, binding, joined,
}

abbrev pub max_sql_rows : ℕ
max_sql_rows = 100

abbrev pub max_sql_result_bytes : ℕ
max_sql_result_bytes = 65536

-- What the driver answers to a user's statement: it fails, with or without the time running out, it
-- reports the rows that it changed, or it yields rows, after which it may still fail. `Row` is a
-- row's values, and `encoded` the length of the JSON of a result, if it can be encoded.
pub data Reply (Row : Type 0) : Type 0 where
  failed : (timed_out : Bool) → Reply Row
  changed : ℕ → Reply Row
  rows : (columns : List Text) → List Row → Option Bool → Reply Row

pub record Engine (Row : Type 0) : Type 0 where
  pub answer : Uuid → Text → List Param → Reply Row
  pub encoded : List Text → List Row → Option ℕ

pub record SqlResult (Row : Type 0) : Type 0 where
  pub columns : List Text
  pub rows : List Row
  pub rows_affected : ℕ

module _ {Row : Type 0} (engine : Engine Row) where
  -- sqlQueryError
  abbrev pub sql_query_error : Bool → Error
  sql_query_error timed_out = if timed_out then timeout else invalid_database

  abbrev pub fits : Option ℕ → Bool
  fits none = false
  fits (some n) = leb n max_sql_result_bytes

  -- for rows.Next()
  unfoldable pub collect : List Text → List Row → List Row → Result (List Row)
  collect columns seen [] = ok seen
  collect columns seen (row ∷ rest) =
      let next = collect columns (seen ++ row ∷ []) rest in
      if leb max_sql_rows (length seen)
      then err sql_limit
      else if fits (engine.encoded columns (seen ++ row ∷ []))
      then next
      else err sql_limit

  abbrev pub finish : List Text → Option Bool → Result (List Row) → Result (SqlResult Row)
  finish columns broken (err e) = err e
  finish columns (some timed_out) (ok seen) = err (sql_query_error timed_out)
  finish columns none (ok seen) = ok (record { columns = columns; rows = seen; rows_affected = 0 })

  -- the two ways to run a statement, by whether it reads
  abbrev pub run_statement : Bool → Reply Row → Result (SqlResult Row)
  run_statement reads (failed timed_out) = err (sql_query_error timed_out)
  run_statement false (changed n) = ok (record { columns = []; rows = []; rows_affected = n })
  run_statement true (changed n) = ok (record { columns = []; rows = []; rows_affected = 0 })
  run_statement false (rows columns stream broken) =
      ok (record { columns = []; rows = []; rows_affected = 0 })
  run_statement true (rows columns stream broken) =
      finish columns broken (collect columns [] stream)

  abbrev pub lift : {A : Type 0} → Result A → Exec A
  lift r w = (r, w)

  unfoldable pub query_database : Uuid → Uuid → Text → List Param → Exec (SqlResult Row)
  unfolding database_owned collect
  query_database owner id statement params = do
    database_owned owner id
    reads ← lift (validate_sql statement params)
    open_database id
    lift (run_statement reads (engine.answer id statement params))

  unfoldable pub query_binding : Uuid → Uuid → Text → Text → List Param → Exec (SqlResult Row)
  unfolding query_database
  query_binding owner function alias statement params =
      if not (valid_binding_name alias) then raise invalid_database else do
        found ← query λ t. elim (select (binding owner function alias) t.app_database_bindings) [
          | none ↦ none
          | some id ↦ elim (joined t owner id) [ none ↦ none | some d ↦ some id ]
        ]
        resolve found
    where
      resolve : Option Uuid → Exec (SqlResult Row)
      resolve none = raise not_found
      resolve (some id) = query_database owner id statement params
