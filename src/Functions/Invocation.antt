-- ===== src/Functions/Invocation.antt =====
-- Invoke and execute of service.go, with the data mode: the output of the guest goes through
-- Protocol. `runs` is what a run of a function's module on an input writes and how it ends, absent
-- where the module does not compile; a guest goes on after a Write that failed.
pub mod Answers
pub mod Kept
pub mod Own
pub mod Output
mod Reading
pub mod Spared
mod Tests
use rcp_server.Base.{
  ℕ, Bool, true, false, not, ◌||◌, List, [], ◌∷◌, Option, none, some, if◌then◌else◌, ◌==◌, Text,
}
use rcp_server.Stdlib.Json.{valid}
use rcp_server.Functions.Errors.{Error, Result, ok, err, invalid_input, data_unavailable, timeout}
use rcp_server.Functions.Exec.{Uuid, World}
use rcp_server.Functions.Queries.{Engine}
use rcp_server.Functions.Protocol.{
  DataRequest, DataOutput, LimitedWriter, fresh, take_replies, complete, write, finish,
}
use rcp_server.Functions.Validation.{
  Exit, Run, Answer, write_all, no_output, finished, admit, run_result,
}
use rcp_server.Functions.Service.{FunctionRow, Api, Op, get_row, ◌>>=◌}

abbrev pub next : List ℕ → ℕ
next [] = 0
next (n ∷ ns) = n

abbrev pub later : List ℕ → List ℕ
later [] = []
later (n ∷ ns) = ns

-- a Write ends so only where the invocation's deadline has passed
abbrev pub is_late : Result (Unit {0}) → Bool
is_late (err timeout) = true
is_late _ = false

module _ {Row : Type 0} (decode : Text → Option DataRequest) (engine : Engine Row)
    (stamps : ℕ → ℕ) where
  -- the Writes of a run, and whether one of them came to the deadline
  abbrev pub write_data :
      Uuid → Uuid → List ℕ → List Text → DataOutput Row → World → Bool × DataOutput Row × World
  write_data owner function ns [] out w = (false, take_replies (next ns) out, w)
  write_data owner function ns (p ∷ ps) out w =
      let (r, out', w') =
        write decode engine owner function stamps p (take_replies (next ns) out) w in
      let (late, out'', w'') = write_data owner function (later ns) ps out' w' in
      (is_late r || late, out'', w'')

  -- what comes after Finish, which has put the line that was pending into the final output
  abbrev pub after_finish :
      Result Text × World → LimitedWriter → LimitedWriter → Exit → Result Answer × World
  after_finish (err e, w) final log exit = (err e, w)
  after_finish (ok _, w) final log exit = (finished false final log exit, w)

  abbrev pub written : Uuid → Uuid → Run → Bool × DataOutput Row × World → Result Answer × World
  written owner function r (late, out, w) =
      if r.cut_off || late
      then (err timeout, w)
      else after_finish (finish decode engine owner function stamps out w)
          (complete decode engine owner function stamps out.pending out.sink w).1.final
          (write_all no_output r.stderr) r.exit

  unfoldable pub run_data : Uuid → Uuid → Run → World → Result Answer × World
  run_data owner function r w =
      written owner function r (write_data owner function r.takes r.stdout fresh w)

  abbrev pub kept : Result Answer × World → Result Answer × Option World
  kept (a, w) = (a, some w)

  -- json.Compact fails where the input is not valid JSON, also for white space that only TrimSpace
  -- knows
  abbrev pub in_data_mode : Uuid → Uuid → Text → Run → Option World → Result Answer × Option World
  in_data_mode owner function input r none = (err data_unavailable, none)
  in_data_mode owner function input r (some w) =
      if owner == 0
      then (err data_unavailable, some w)
      else (if valid input then kept (run_data owner function r w) else (err invalid_input, some w))

  abbrev pub admitted :
      Uuid → FunctionRow → Text → Result Run → Option World → Result Answer × Option World
  admitted id row input (err e) store = (err e, store)
  admitted id row input (ok r) store =
      if row.data_mode then in_data_mode row.owner id input r store else (run_result r, store)

  module _ (runs : FunctionRow → Text → Option Run) where
    unfoldable pub execute_function :
        ℕ → Uuid → FunctionRow → Text → Option World → Result Answer × Option World
    execute_function running id row input =
        admitted id row input (admit running (runs row input) input)

    abbrev pub put_outcome : Api → Result Answer × Option World → Result Answer × Api
    put_outcome s (a, store) = (a, record s { store = store })

    abbrev pub on_row : ℕ → Uuid → Text → FunctionRow → Op Answer
    on_row running id input row s = put_outcome s (execute_function running id row input s.store)

    unfoldable pub invoke : ℕ → Uuid → Uuid → Text → Op Answer
    invoke running owner id input = get_row owner id >>= on_row running id input
