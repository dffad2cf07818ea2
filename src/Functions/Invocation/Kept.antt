-- ===== src/Functions/Invocation/Kept.antt =====
-- What an invocation in data mode cannot change.
use rcp_server.Base.{
  ℕ, ◌≡◌, refl, Bool, ◌||◌, inl, inr, List, [], ◌∷◌, ◌++◌, Option, arith, Text, Bool-cases,
  Option-cases,
}
use rcp_server.Stdlib.Strings.{trim_bytes}
use rcp_server.Functions.Errors.{Result, ok, err}
use rcp_server.Functions.Exec.{Uuid, World, item_keys, scopes}
use rcp_server.Functions.Queries.{Engine}
use rcp_server.Functions.Protocol.{
  DataRequest, DataOutput, Sink, LimitedWriter, fresh, take_replies, operate, request, line,
  complete, drain, write, finish,
}
use rcp_server.Functions.Validation.{Exit, Run}
use rcp_server.Functions.Invocation.{next, later, write_data, after_finish, written, run_data}

-- A property of the store that every operation keeps is kept by a run.
module _ {Row : Type 0} (decode : Text → Option DataRequest) (engine : Engine Row)
    (owner function : Uuid) (stamps : ℕ → ℕ) (P : World → Type 0)
    (operate-P : (req : DataRequest) (now : ℕ) (w : World)
      → P w
      → P (operate decode engine owner function stamps req now w).1) where
  request-P :
      (req : DataRequest) (out : Sink Row) (w : World)
      → P w
      → P (request decode engine owner function stamps req out w).2
  unfolding request
  request-P req out w h = ground (arith, operate-P req (stamps out.ops) w h)

  line-P :
      (text : Text) (out : Sink Row) (w : World)
      → P w
      → P (line decode engine owner function stamps text out w).2
  unfolding line
  line-P text out w h = elim (Option-cases (decode text)) [
    | inl plain ↦ ground (arith, plain)
    | inr (req, found) ↦ ground (arith, found, request-P req out w h)
  ]

  complete-P :
      (text : Text) (out : Sink Row) (w : World)
      → P w
      → P (complete decode engine owner function stamps text out w).2
  unfolding complete
  complete-P text out w h = go (trim_bytes text) refl
    where
      go :
          (t : Text)
          → trim_bytes text ≡ t
          → P (complete decode engine owner function stamps text out w).2
      go [] is = rw (complete, is) h
      go (c ∷ rest) is = rw (complete, is) (line-P (c ∷ rest) out w h)

  drain-P :
      (seen p : Text) (out : Sink Row) (w : World)
      → P w
      → P (drain decode engine owner function stamps seen p out w).3
  unfolding drain
  drain-P seen [] out w h = h
  drain-P seen (c ∷ s) out w h = ground (
    arith,
    complete-P seen out w h,
    drain-P (seen ++ c ∷ []) s out w h,
    drain-P [] s (complete decode engine owner function stamps seen out w).1
        (complete decode engine owner function stamps seen out w).2,
  )

  write-P :
      (p : Text) (out : DataOutput Row) (w : World)
      → P w
      → P (write decode engine owner function stamps p out w).2
  unfolding write
  write-P p out w h = ground (arith, drain-P [] (out.pending ++ p) out.sink w h)

  write_data-P :
      (ns : List ℕ) (ps : List Text) (out : DataOutput Row) (w : World)
      → P w
      → P (write_data decode engine stamps owner function ns ps out w).2
  write_data-P ns [] out w h = h
  write_data-P ns (p ∷ ps) out w h =
      write_data-P (later ns) ps _ _ (write-P p (take_replies (next ns) out) w h)

  finish-P :
      (out : DataOutput Row) (w : World)
      → P w
      → P (finish decode engine owner function stamps out w).1
  unfolding finish
  finish-P out w h = ground (arith, complete-P out.pending out.sink w h)

  after_finish-P :
      (outcome : Result Text × World) (final log : LimitedWriter) (exit : Exit)
      → P outcome.1
      → P (after_finish decode engine stamps outcome final log exit).1
  after_finish-P (err e, w) final log exit h = h
  after_finish-P (ok t, w) final log exit h = h

  written-P :
      (r : Run) (late : Bool) (out : DataOutput Row) (w : World)
      → P w
      → P (written decode engine stamps owner function r (late, out, w)).1
  written-P r late out w h = elim (Bool-cases (r.cut_off || late)) [
    | inl cut ↦ rw cut h
    | inr through ↦ rw through (
        after_finish-P (finish decode engine owner function stamps out w) _ _ r.exit
          (finish-P out w h))
  ]

  pub run_data-P :
      (r : Run) (w : World) → P w → P (run_data decode engine stamps owner function r w).1
  unfolding run_data
  run_data-P r w h = written-P r _ _ _ (write_data-P r.takes r.stdout fresh w h)
