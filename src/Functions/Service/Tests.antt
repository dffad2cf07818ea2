-- ===== src/Functions/Service/Tests.antt =====
-- Runs of the function service, and its theorems at concrete functions.
use rcp_server.Base.{
  arith, ◌≡◌, refl, Bool, true, false, none, some, List, [], ◌∷◌, Text, codes, text_eq,
}
use rcp_server.Stdlib.Strings.{trim_space, to_lower, is_space}
use rcp_server.Table.{numbers, select, upsert, IsUnique}
use rcp_server.Functions.Errors.{ok, err, not_found, conflict, data_unavailable, unavailable_call}
use rcp_server.Functions.Exec.{World}
use rcp_server.Functions.Data.{delete_function}
use rcp_server.Functions.Data.Invariant.{IsSound}
use rcp_server.Functions.Validation.{Module, Compiled, compiled, validate}
use rcp_server.Functions.Service.{
  FunctionRow, Api, get_row, count_rows, create_deployment, update_deployment, delete_row,
  valid_name, place, function_name, build, create, create_source, update, delete, get_data,
}
use rcp_server.Functions.Service.Rows.{empty-IsSound}
use rcp_server.Functions.Service.Kept.{IsKept}
use rcp_server.Functions.Service.History
use rcp_server.Functions.Service.History.{creates, deletes, run-IsKept}
use rcp_server.Functions.Service.Owners.{delete-stranded}

opened : Unit {0}
unfolding trim_space to_lower is_space select upsert text_eq delete_function validate get_row
    count_rows create_deployment update_deployment delete_row valid_name place function_name build
    create create_source update delete get_data
opened = tt

abbrev world : List Bool → World
world faults = record {
  tables = record {
    function_data = [];
    deleted_functions = [];
    app_databases = [];
    app_database_bindings = [];
  };
  files = [];
  faults = faults;
}

abbrev row : FunctionRow
row = record {
  owner = 1;
  name = codes "resize";
  language = codes "wasm";
  source = [];
  wasm = codes "w";
  data_mode = true;
}

abbrev api : List Bool → Api
api faults = record { functions = (7, row) ∷ []; faults = []; store = some (world faults) }

abbrev bare : Api
bare = record { functions = []; faults = []; store = none }

abbrev command : Module
command = record {
  imported_functions = [];
  imported_memories = 0;
  exported_functions = (codes "_start", record { params = []; results = [] }) ∷ [];
}

abbrev compiles : Text → Compiled
compiles wasm = compiled command

created :
    (create [] compiles 0 7 1
      (codes " Resize ")
      (codes "w")
      true
      (record bare { store = some (world []) })).1.functions
    ≡ (7, row) ∷ []
unfolding opened
created = refl

without_store :
    (create [] compiles 0 7 1 (codes "resize") (codes "w") true bare).0 ≡ err data_unavailable
unfolding opened
without_store = refl

same_name : (create [] compiles 0 8 1 (codes "resize") (codes "w") false (api [])).0 ≡ err conflict
unfolding opened
same_name = refl

foreign : (get_data 2 7 (codes "notes") (codes "a") (api [])).0 ≡ err not_found
unfolding opened
foreign = refl

run-IsKept_example : IsKept (
    History.run [] compiles bare
      (creates 0 7 1 (codes "resize") (codes "w") false ∷ deletes 1 7 ∷ []))
run-IsKept_example =
    run-IsKept [] compiles bare
      (creates 0 7 1 (codes "resize") (codes "w") false ∷ deletes 1 7 ∷ []) (empty-IsSound none)

fails : (delete_function 1 7 (world (true ∷ []))).0 ≡ err unavailable_call
unfolding opened
fails = refl

there : select 7 (api []).functions ≡ some row
unfolding opened
there = refl

delete-stranded_example :
    ((delete 1 7 (api (true ∷ []))).0 ≡ err unavailable_call)
    × ((delete 1 7 (api (true ∷ []))).1.store ≡ some (delete_function 1 7 (world (true ∷ []))).1)
    × ((delete_function 1 7 (world (true ∷ []))).1.tables ≡ (world []).tables)
    × ((delete 1 7 (delete 1 7 (api (true ∷ []))).1).0 ≡ err not_found)
    × ((delete 1 7 (delete 1 7 (api (true ∷ []))).1).1.store
        ≡ some (delete_function 1 7 (world (true ∷ []))).1)
delete-stranded_example =
    delete-stranded 1 7 (api (true ∷ [])) (world (true ∷ [])) unavailable_call refl refl
      (row, (there, refl)) refl fails

deleted : (delete 1 7 (api [])).0 ≡ ok tt
unfolding opened
deleted = refl

no_data-IsSound : IsSound (world []).tables
unfolding select
no_data-IsSound = record {
  unique = tt;
  storable = tt;
  bounded = λ o f. omega arith;
  buried = λ o f dead. refl;
}

one-IsUnique : IsUnique (api []).functions
unfolding opened
one-IsUnique = (refl, tt)
