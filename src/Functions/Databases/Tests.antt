-- ===== src/Functions/Databases/Tests.antt =====
-- Runs of the databases, and their theorems at concrete tables.
use rcp_server.Base.{
  ℕ, ◌≡◌, refl, Bool, true, false, List, [], ◌∷◌, none, some, arith, Text, codes, length, text_eq,
}
use rcp_server.Functions.Errors.{ok, err, conflict, not_found, invalid_database}
use rcp_server.Table.{numbers, select, upsert}
use rcp_server.Functions.Order.{order_by}
use rcp_server.Functions.Exec.{World, binding_same, binding_keys}
use rcp_server.Functions.Sql.{validate_sql}
use rcp_server.Functions.Databases.{
  valid_database_name, valid_binding_name, create_database, delete_database, bind_database,
  unbind_database, list_bindings, list_databases, owned,
}
use rcp_server.Functions.Queries.{query_database, query_binding, Engine, SqlResult, rows}
use rcp_server.Functions.Databases.Cases.{is_ok}
use rcp_server.Functions.Databases.Invariant.{IsConsistent}
use rcp_server.Functions.Databases.Access.{
  Call, creates, binds, run, run-IsConsistent, IsBounded, query_database-ok,
}

abbrev empty : World
empty = record {
  tables = record {
    function_data = [];
    deleted_functions = [];
    app_databases = [];
    app_database_bindings = [];
  };
  files = [];
  faults = [];
}

empty-IsConsistent : IsConsistent empty.tables
empty-IsConsistent = record {
  unique = tt;
  names = tt;
  named = tt;
  limited = λ o. omega arith;
  keys = tt;
  bound = tt;
}

opened : Unit {0}
unfolding select upsert order_by binding_same valid_database_name valid_binding_name create_database
    delete_database bind_database unbind_database list_databases list_bindings query_database
    query_binding run validate_sql text_eq
opened = tt

abbrev notes : Text
notes = codes "notes"

abbrev alias : Text
alias = codes "DB"

-- one row for every statement
abbrev single : Engine ℕ
single = record {
  answer = λ id s ps. rows (notes ∷ []) (5 ∷ []) none;
  encoded = λ cs rs. some (length rs);
}

abbrev history : List Call
history = creates 1 (codes " Notes ") 40 7 ∷ creates 1 notes 41 8 ∷ binds 1 6 40 alias ∷ []

abbrev bound : World
bound = run empty history

abbrev select_one : Text
select_one = codes "SELECT 1"

abbrev answer : SqlResult ℕ
answer = record { columns = notes ∷ []; rows = 5 ∷ []; rows_affected = 0 }

database_runs :
    (is_ok (create_database 1 notes 41 9 bound).0 ≡ false)
    × ((create_database 1 notes 41 9 bound).0 ≡ err conflict)
    × ((query_binding single 1 6 alias select_one [] bound).0 ≡ ok answer)
    × ((query_binding single 2 6 alias select_one [] bound).0 ≡ err not_found)
    × ((query_database single 2 40 select_one [] bound).0 ≡ err not_found)
    × ((query_database single 1 40 select_one [] bound).0 ≡ ok answer)
    × ((delete_database 1 40 bound).0 ≡ ok tt)
    × ((list_bindings 1 6 bound).0
        ≡ ok (record { alias = alias; database_id = 40; database_name = notes } ∷ []))
    × ((list_bindings 1 6 (delete_database 1 40 bound).1).0 ≡ ok [])
    × ((create_database 1 (codes "a b") 42 9 bound).0 ≡ err invalid_database)
unfolding opened
database_runs = (refl, refl, refl, refl, refl, refl, refl, refl, refl, refl)

run-IsConsistent_example : IsConsistent (run empty history).tables
run-IsConsistent_example = run-IsConsistent empty history empty-IsConsistent

query_database-ok_example :
    (owned 1 (select 40 bound.tables.app_databases) ≡ true)
    × ((reads : Bool) × (validate_sql select_one [] ≡ ok reads))
    × IsBounded single answer
query_database-ok_example = query_database-ok single 1 40 select_one [] bound answer database_runs.5
