-- ===== src/Functions/Protocol/Tests.antt =====
-- Runs of the protocol, and its theorem at a concrete output.
use rcp_server.Base.{
  ℕ, ◌≡◌, ◌<◌, ◌⊎◌, inl, inr, List, refl, [], ◌∷◌, ◌++◌, Option, none, some, arith, Text, codes,
  pos, length, text_eq, if◌then◌else◌,
}
use rcp_server.Stdlib.Strings.{trim_bytes}
use rcp_server.Functions.Errors.{ok}
use rcp_server.Functions.Exec.{World}
use rcp_server.Functions.Queries.{Engine, rows}
use rcp_server.Functions.Protocol.{
  DataRequest, DataOutput, request, operate, send, write_limited, line, complete, drain, write,
  finish, fresh, max_data_operations_per_invocation,
}
use rcp_server.Functions.Protocol.Lines.{write-append}
use rcp_server.Functions.Protocol.Limits.{run, IsLimited, run-IsLimited}

abbrev empty : World
empty = record {
  tables = record {
    function_data = [];
    deleted_functions = [];
    app_databases = [];
    app_database_bindings = [];
  };
  files = [];
  faults = [];
}

-- a decoder that knows one request
abbrev asked : DataRequest
asked = record {
  kind = codes "db";
  op = codes "nop";
  collection = [];
  key = [];
  value = [];
  offset = pos 0;
  binding = [];
  sql = [];
  params = [];
}

abbrev decode : Text → Option DataRequest
decode s = if text_eq s (codes "{}") then some asked else none

abbrev silent : Engine ℕ
silent = record { answer = λ id s ps. rows [] [] none; encoded = λ cs rs. some 0 }

opened : Unit {0}
unfolding trim_bytes request operate send write_limited line complete drain write finish text_eq
opened = tt

abbrev first : Text
first = codes "hi" ++ 10 ∷ codes "{"

abbrev second : Text
second = codes "}" ++ 10 ∷ []

abbrev begun : DataOutput ℕ
begun = (write decode silent 1 7 (λ n. n) first fresh empty).1

write_runs :
    ((write decode silent 1 7 (λ n. n) first fresh empty).0 ≡ ok tt)
    × (begun.pending ≡ codes "{")
    × ((write decode silent 1 7 (λ n. n) second begun empty).1.sink.ops ≡ 1)
    × ((write decode silent 1 7 (λ n. n) second begun empty).1.sink.final.content
        ≡ codes "hi" ++ 10 ∷ [])
    × ((finish decode silent 1 7 (λ n. n) begun empty).0 ≡ ok (codes "hi" ++ 10 ∷ codes "{"))
unfolding opened
write_runs = (refl, refl, refl, refl, refl)

write-append_example :
    write decode silent 1 7 (λ n. n) (first ++ second) fresh empty
    ≡ write decode silent 1 7 (λ n. n) second begun empty
unfolding opened
write-append_example =
    write-append decode silent 1 7 (λ n. n) first second fresh empty (omega arith) write_runs.0

-- a guest that writes a request in two Writes, receives the reply and writes again
abbrev guest : List (Text ⊎ ℕ)
guest = inl first ∷ inl second ∷ inr 1 ∷ inl first ∷ []

run-IsLimited_example :
    IsLimited (run decode silent 1 7 (λ n. n) guest (fresh, empty)).0
    × ((length (run decode silent 1 7 (λ n. n) guest (fresh, empty)).0.sink.replies
          < max_data_operations_per_invocation)
        ⊎ ((run decode silent 1 7
              (λ n. n)
              guest
              (run decode silent 1 7 (λ n. n) guest (fresh, empty))).1
            ≡ (run decode silent 1 7 (λ n. n) guest (fresh, empty)).1))
run-IsLimited_example = run-IsLimited decode silent 1 7 (λ n. n) guest guest empty
