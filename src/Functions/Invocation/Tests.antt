-- ===== src/Functions/Invocation/Tests.antt =====
-- Runs of a function in data mode, and what they leave, at a concrete function.
use rcp_server.Base.{
  ℕ, ◌≡◌, ◌≤◌, ◌<◌, length, refl, Bool, true, false, [], ◌∷◌, ◌++◌, Option, none, some, arith, Text,
  codes, pos, text_eq, if◌then◌else◌,
}
use rcp_server.Stdlib.Strings.{trim_bytes}
use rcp_server.Stdlib.Json.{valid}
use rcp_server.Table.{select, upsert}
use rcp_server.Functions.Errors.{ok, err, data_unavailable, invalid_output}
use rcp_server.Functions.Exec.{World, item_key_same, scope_same}
use rcp_server.Functions.Queries.{Engine, rows}
use rcp_server.Functions.Data.{put, valid_collection, valid_data_key, valid_value}
use rcp_server.Functions.Data.Invariant.{IsSound}
use rcp_server.Functions.Protocol.{
  DataRequest, request, operate, send, take_replies, write_limited, line, complete, drain, write,
  finish,
}
use rcp_server.Functions.Validation.{
  Run, Answer, returned, json_object, admit, max_input_bytes, slots,
}
use rcp_server.Functions.Service.{FunctionRow, Api, get_row}
use rcp_server.Functions.Invocation.{run_data, execute_function, invoke}
use rcp_server.Functions.Invocation.Answers.{IsAnswer, IsOutput, execute_function-IsAnswer}
use rcp_server.Functions.Invocation.Own.{LeavesOthers}
use rcp_server.Functions.Invocation.Spared.{invoke-Spares}

opened : Unit {0}
unfolding trim_bytes request operate send take_replies write_limited line complete drain write
    finish text_eq put valid_collection valid_data_key valid_value select upsert item_key_same
    scope_same json_object valid admit get_row run_data execute_function invoke
opened = tt

abbrev empty : World
empty = record {
  tables = record {
    function_data = [];
    deleted_functions = [];
    app_databases = [];
    app_database_bindings = [];
  };
  files = [];
  faults = [];
}

empty-IsSound : IsSound empty.tables
unfolding select
empty-IsSound = record {
  unique = tt;
  storable = tt;
  bounded = λ o f. omega arith;
  buried = λ o f dead. refl;
}

-- a decoder that knows one request, which puts an item
abbrev asked : DataRequest
asked = record {
  kind = codes "db";
  op = codes "put";
  collection = codes "c";
  key = codes "k";
  value = codes "1";
  offset = pos 0;
  binding = [];
  sql = [];
  params = [];
}

abbrev decode : Text → Option DataRequest
decode s = if text_eq s (codes "put") then some asked else none

abbrev silent : Engine ℕ
silent = record { answer = λ id s ps. rows [] [] none; encoded = λ cs rs. some 0 }

abbrev row : Bool → FunctionRow
row data_mode = record {
  owner = 1;
  name = codes "f";
  language = codes "wasm";
  source = [];
  wasm = [];
  data_mode = data_mode;
}

abbrev api : Bool → Api
api data_mode = record { functions = (7, row data_mode) ∷ []; faults = []; store = some empty }

-- the run writes the request and its answer
abbrev runs : FunctionRow → Text → Option Run
runs r input = some (record {
  stdout = (codes "put" ++ 10 ∷ []) ∷ codes "{}" ∷ [];
  takes = [];
  stderr = [];
  cut_off = false;
  exit = returned;
})

abbrev stamps : ℕ → ℕ
stamps n = n

answers :
    (invoke decode silent stamps runs 0 1 7 (codes "{}") (api true)).0
    ≡ ok (record { stdout = codes "{}" ++ 10 ∷ []; stderr = []; exit_code = 0 })
unfolding opened
answers = refl

-- without data mode the request is part of the output, which is then no JSON object
plain : (invoke decode silent stamps runs 0 1 7 (codes "{}") (api false)).0 ≡ err invalid_output
unfolding opened
plain = refl

without_store :
    (invoke decode silent stamps runs 0 1 7 (codes "{}") (record (api true) { store = none })).0
    ≡ err data_unavailable
unfolding opened
without_store = refl

invoke-Spares_example :
    ((invoke decode silent stamps runs 0 1 7 (codes "{}") (api true)).1.functions
      ≡ (api true).functions)
    × LeavesOthers 1 8 empty.tables
        (invoke decode silent stamps runs 0 1 7 (codes "{}") (api true)).1.store
invoke-Spares_example =
    invoke-Spares decode silent stamps runs 1 7 1 8 refl 0 (codes "{}") (api true) empty refl
      empty-IsSound

abbrev given : Answer
given = record { stdout = codes "{}" ++ 10 ∷ []; stderr = []; exit_code = 0 }

executed :
    (execute_function decode silent stamps runs 3 7 (row true) (codes "{}") (some empty)).0
    ≡ ok given
unfolding opened
executed = refl

execute_function-IsAnswer_example :
    (length (codes "{}") ≤ max_input_bytes)
    × (json_object (codes "{}") ≡ true)
    × (3 < slots)
    × ((r : Run) × ((runs (row true) (codes "{}") ≡ some r)
          × IsAnswer r given
          × IsOutput decode (row true) (some empty) r given))
execute_function-IsAnswer_example =
    execute_function-IsAnswer decode silent stamps runs 3 7 (row true) (codes "{}") (some empty)
      given executed
