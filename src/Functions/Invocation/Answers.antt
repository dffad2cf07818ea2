-- ===== src/Functions/Invocation/Answers.antt =====
-- The answers that Invoke gives.
use rcp_server.Base.{
  Bool, ◌||◌, ℕ, ◌≡◌, ◌≢◌, ◌≤◌, ◌<◌, ◌⊎◌, refl, ap, subst, sym, ◌∙◌, true, false, List, [], ◌∷◌,
  Option, some, none, length, ◌==◌, Text, arith, Bool-cases, inl, inr,
}
use rcp_server.Stdlib.Json.{valid}
use rcp_server.Functions.Errors.{Result, ok, err, Result-cases}
use rcp_server.Functions.Exec.{Uuid, World}
use rcp_server.Functions.Queries.{Engine}
use rcp_server.Functions.Protocol.{
  DataRequest, DataOutput, LimitedWriter, fresh, take_replies, complete, finish, max_output_bytes,
}
use rcp_server.Functions.Protocol.Limits.{
  IsWithin, take_replies-IsWithin, complete-IsWithin, write-IsWithin,
}
use rcp_server.Functions.Validation.{
  Run, Answer, json_object, write_all, no_output, finished, run_result, admit, slots,
  max_input_bytes,
}
use rcp_server.Functions.Validation.Answers.{
  concat, HasEnded, write_all-whole, finished-ok, admit-ok,
}
use rcp_server.Functions.Service.{FunctionRow}
use rcp_server.Functions.Invocation.Output.{shown, write_data-Wrote, written-shown, Wrote}
use rcp_server.Functions.Invocation.{
  next, later, write_data, after_finish, written, run_data, in_data_mode, admitted,
  execute_function,
}

-- the answer to a run in either mode
abbrev pub IsAnswer : Run → Answer → Type 0
IsAnswer r a =
    (r.cut_off ≡ false)
    × (a.stderr ≡ concat r.stderr)
    × (length a.stdout ≤ max_output_bytes)
    × (length a.stderr ≤ max_output_bytes)
    × HasEnded r.exit a

-- Where the output comes from: all that the run wrote or, in data mode, what is left of it.
abbrev pub IsOutput :
    (Text → Option DataRequest) → FunctionRow → Option World → Run → Answer → Type 0
IsOutput decode row store r a =
    ((row.data_mode ≡ false) × (a.stdout ≡ concat r.stdout))
    ⊎ ((row.data_mode ≡ true)
        × (row.owner ≢ 0)
        × ((w : World) × (store ≡ some w))
        × (a.stdout ≡ shown decode [] (concat r.stdout)))

finished-IsAnswer :
    (out : LimitedWriter) (r : Run) (a : Answer)
    → length out.content ≤ max_output_bytes
    → finished r.cut_off out (write_all no_output r.stderr) r.exit ≡ ok a
    → IsAnswer r a × (a.stdout ≡ out.content)
finished-IsAnswer out r a small h =
    let (through, _, quiet, o, l, end) =
      finished-ok r.cut_off out (write_all no_output r.stderr) r.exit a h in
    let (whole, fits) = write_all-whole no_output r.stderr (omega arith) quiet in
    (
      (
        through,
        l ∙ whole,
        ground (arith, ap (λ t. length t) o, small),
        ground (arith, ap (λ t. length t) l, fits),
        end,
      ),
      o,
    )

run_result-IsAnswer :
    (r : Run) (a : Answer) → run_result r ≡ ok a → IsAnswer r a × (a.stdout ≡ concat r.stdout)
run_result-IsAnswer r a h =
    let out = write_all no_output r.stdout in
    let (_, within, _, o, _, _) =
      finished-ok r.cut_off out (write_all no_output r.stderr) r.exit a h in
    let (whole, fits) = write_all-whole no_output r.stdout (omega arith) within in
    ((finished-IsAnswer out r a fits h).0, o ∙ whole)

module _ {Row : Type 0} (decode : Text → Option DataRequest) (engine : Engine Row)
    (stamps : ℕ → ℕ) where
  abbrev IsBounded : DataOutput Row → Type 0
  IsBounded out = IsWithin out.sink × (out.total ≤ max_output_bytes)

  module _ (owner function : Uuid) where
    taken-IsBounded :
        (n : ℕ) (out : DataOutput Row) → IsBounded out → IsBounded (take_replies n out)
    unfolding take_replies
    taken-IsBounded n out (h, t) = (take_replies-IsWithin n out h, t)

    write_data-IsBounded :
        (ns : List ℕ) (ps : List Text) (out : DataOutput Row) (w : World)
        → IsBounded out
        → IsBounded (write_data decode engine stamps owner function ns ps out w).1
    write_data-IsBounded ns [] out w h = taken-IsBounded (next ns) out h
    write_data-IsBounded ns (p ∷ ps) out w h =
        let (within, small) = taken-IsBounded (next ns) out h in
        write_data-IsBounded (later ns) ps _ _ (
          write-IsWithin decode engine owner function stamps p (take_replies (next ns) out) w within
            small)

    after_finish-ok :
        (outcome : Result Text × World) (final : LimitedWriter) (r : Run) (a : Answer)
        → length final.content ≤ max_output_bytes
        → r.cut_off ≡ false
        → (after_finish decode engine stamps outcome final (write_all no_output r.stderr) r.exit).0
          ≡ ok a
        → IsAnswer r a × (a.stdout ≡ final.content) × ((text : Text) × (outcome.0 ≡ ok text))
    after_finish-ok (err e, w) final r a small through h = absurd (ground (arith, h))
    after_finish-ok (ok t, w) final r a small through h =
        let (is, output) = finished-IsAnswer final r a small (
          subst (λ cut. finished cut final (write_all no_output r.stderr) r.exit ≡ ok a)
            (sym through) h) in
        (is, output, (t, refl))

    written-IsAnswer :
        (r : Run) (late : Bool) (out : DataOutput Row) (w : World) (a : Answer)
        → IsBounded out
        → Wrote decode engine owner function stamps fresh (concat r.stdout) (late, out, w)
        → (written decode engine stamps owner function r (late, out, w)).0 ≡ ok a
        → IsAnswer r a × (a.stdout ≡ shown decode [] (concat r.stdout))
    written-IsAnswer r late out w a (within, _) wrote h = elim (Bool-cases (r.cut_off || late)) [
      | inl cut ↦ absurd (ground (arith, cut, h))
      | inr through ↦
          (let (is, output, (text, done)) =
              after_finish-ok (finish decode engine owner function stamps out w)
                (complete decode engine owner function stamps out.pending out.sink w).1.final r a
                (complete-IsWithin decode engine owner function stamps out.pending out.sink w
                  within).final
                (ground (arith, through)) (ground (arith, through, h)) in
            (
              is,
              output
                  ∙ written-shown decode engine owner function stamps late out w (concat r.stdout)
                      text wrote (ground (arith, through)) done,
            ))
    ]

    run_data-IsAnswer :
        (r : Run) (w : World) (a : Answer)
        → (run_data decode engine stamps owner function r w).0 ≡ ok a
        → IsAnswer r a × (a.stdout ≡ shown decode [] (concat r.stdout))
    unfolding run_data
    run_data-IsAnswer r w a h =
        let (late, out, w') =
          write_data decode engine stamps owner function r.takes r.stdout fresh w in
        written-IsAnswer r late out w' a
          (write_data-IsBounded r.takes r.stdout fresh w (
            record {
              final = omega arith;
              replies = omega arith;
              taken = omega arith;
              counted = omega arith;
            },
            omega arith,
          ))
          (write_data-Wrote decode engine owner function stamps r.takes r.stdout fresh w refl) h

  module _ (runs : FunctionRow → Text → Option Run) (running : ℕ) (id : Uuid) (row : FunctionRow)
      (input : Text) (store : Option World) where
    in_data_mode-ok :
        (r : Run) (a : Answer) (st : Option World)
        → row.data_mode ≡ true
        → (in_data_mode decode engine stamps row.owner id input r st).0 ≡ ok a
        → IsAnswer r a × IsOutput decode row st r a
    in_data_mode-ok r a none mode h = absurd (ground (arith, h))
    in_data_mode-ok r a (some w) mode h = elim (Bool-cases (row.owner == 0)) [
      | inl nobody ↦ absurd (ground (arith, nobody, h))
      | inr somebody ↦ elim (Bool-cases (valid input)) [
        | inl json ↦
            (let (is, output) =
                run_data-IsAnswer row.owner id r w a (ground (arith, somebody, json, h)) in
              (is, inr (mode, ground (arith, somebody), (w, refl), output)))
        | inr other ↦ absurd (ground (arith, somebody, other, h))
      ]
    ]

    admitted-ok :
        (r : Run) (a : Answer)
        → (admitted decode engine stamps id row input (ok r) store).0 ≡ ok a
        → IsAnswer r a × IsOutput decode row store r a
    admitted-ok r a h = elim (Bool-cases row.data_mode) [
      | inl mode ↦ in_data_mode-ok r a store mode (ground (arith, mode, h))
      | inr plain ↦
          (let (is, whole) = run_result-IsAnswer r a (ground (arith, plain, h)) in
            (is, inl (plain, whole)))
    ]

    -- execute answers only to a JSON object of at most 128 KiB, with a slot free, by a run of the
    -- function that was not cut off. The answer has all that the run wrote to the error stream and its
    -- exit code, neither stream is over 128 KiB, and the output is a JSON object unless the run exited
    -- with a code. Without data mode the output is all that the run wrote to it. In data mode there is a
    -- data store, the function has an owner, and the output is the lines that the run wrote, however it
    -- was cut into Writes, without those that are requests to the store and those of white space alone,
    -- each trimmed and with a newline at its end.
    pub execute_function-IsAnswer :
        (a : Answer)
        → (execute_function decode engine stamps runs running id row input store).0 ≡ ok a
        → (length input ≤ max_input_bytes)
          × (json_object input ≡ true)
          × (running < slots)
          × ((r : Run) × ((runs row input ≡ some r) × IsAnswer r a × IsOutput decode row store r a))
    unfolding execute_function
    execute_function-IsAnswer a h = elim (Result-cases (admit running (runs row input) input)) [
      | inr (e, refused) ↦ absurd (ground (arith, refused, h))
      | inl (r, let_in) ↦
          (let (small, object, free, is) = admit-ok running (runs row input) input r let_in in
            let (answers, output) = admitted-ok r a (
              subst (λ m. (admitted decode engine stamps id row input m store).0 ≡ ok a) let_in
                h) in
            (small, object, free, (r, (is, answers, output))))
    ]
