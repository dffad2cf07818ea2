-- ===== src/Functions/Data/Tests.antt =====
-- Runs of the store, and its theorems at concrete tables.
use rcp_server.Base.{text_eq, ◌≡◌, refl, List, [], ◌∷◌, arith, Text, codes}
use rcp_server.Stdlib.Json.{valid}
use rcp_server.Functions.Errors.{ok, err, data_not_found, invalid_data}
use rcp_server.Table.{select, upsert}
use rcp_server.Functions.Order.{order_by}
use rcp_server.Functions.Exec.{Uuid, World, item_key_same, scope_same}
use rcp_server.Functions.Data.{
  item, get, list, put, delete, delete_function, valid_collection, valid_data_key, valid_value,
}
use rcp_server.Functions.Data.RoundTrip.{calm, get-put}
use rcp_server.Functions.Data.Invariant.{IsSound, size}
use rcp_server.Functions.Data.History.{
  Call, puts, deletes_function, run, step, run-IsSound, size-run-delete_function,
}

abbrev empty : World
empty = record {
  tables = record {
    function_data = [];
    deleted_functions = [];
    app_databases = [];
    app_database_bindings = [];
  };
  files = [];
  faults = [];
}

empty-IsSound : IsSound empty.tables
unfolding select
empty-IsSound = record {
  unique = tt;
  storable = tt;
  bounded = λ o f. omega arith;
  buried = λ o f dead. refl;
}

abbrev notes : Text
notes = codes "notes"

abbrev todo : Text
todo = codes "todo.1"

abbrev one : Text
one = codes "{\"n\":1}"

opened : Unit {0}
unfolding get list put delete delete_function step run order_by select upsert item_key_same
    scope_same valid_collection valid_data_key valid_value valid text_eq
opened = tt

-- user 1, function 7
abbrev after_put : World
after_put = (put 1 7 notes todo one 50 empty).1

put_runs :
    ((put 1 7 notes todo one 50 empty).0
      ≡ ok (record { collection = notes; key = todo; value = one; updated_at = 50 }))
    × ((put 1 7 notes todo (codes "{") 50 empty).0 ≡ err invalid_data)
    × ((put 1 7 (codes "Notes") todo one 50 empty).0 ≡ err invalid_data)
    × ((get 2 7 notes todo after_put).0 ≡ err data_not_found)
    × ((delete 1 7 notes todo after_put).0 ≡ ok tt)
    × ((put 1 7 notes todo one 60 (delete_function 1 7 after_put).1).0 ≡ err data_not_found)
unfolding opened
put_runs = (refl, refl, refl, refl, refl, refl)

get-put_example :
    (get 1 7 notes todo (calm (put 1 7 notes todo one 50 empty).1)).0
    ≡ ok (record { collection = notes; key = todo; value = one; updated_at = 50 })
get-put_example =
    get-put 1 7 notes todo one 50 empty (item notes todo (record { value = one; updated_at = 50 }))
      put_runs.0

abbrev history : List (Uuid × Uuid × Call)
history =
    (1, 7, puts notes todo one 50)
    ∷ (2, 7, puts notes todo one 51)
    ∷ (1, 7, deletes_function)
    ∷ (1, 7, puts notes todo one 52)
    ∷ []

run-IsSound_example : IsSound (run empty history).tables
run-IsSound_example = run-IsSound empty history empty-IsSound

size-run-delete_function_example : size 1 7 (run (delete_function 1 7 empty).1 history).tables ≡ 0
unfolding opened
size-run-delete_function_example = size-run-delete_function 1 7 empty history empty-IsSound refl
