-- ===== src/Functions/Invocation/Output.antt =====
-- The output of a run in data mode.
use mathlib.Core.List.{append-nil, append_assoc}
use rcp_server.Base.{
  ℕ, ◌≡◌, refl, sym, ap, ◌⊎◌, inl, inr, Bool, true, false, ◌||◌, List, [], ◌∷◌, ◌++◌, Option, none,
  some, if◌then◌else◌, ◌==◌, Text, text_eq, codes, arith, Option-cases,
}
use rcp_server.Stdlib.Strings.{trim_bytes}
use rcp_server.Functions.Errors.{Result, ok}
use rcp_server.Functions.Exec.{Uuid, World}
use rcp_server.Functions.Queries.{Engine}
use rcp_server.Functions.Protocol.{
  DataRequest, Sink, DataOutput, fresh, take_replies, write_limited, send, request, line, complete,
  drain, write, finish,
}
use rcp_server.Functions.Protocol.Lines.{no_newline, drain-pending}
use rcp_server.Functions.Validation.Answers.{concat}
use rcp_server.Functions.Invocation.{next, later, is_late, write_data}

-- a line that is a request to the store
abbrev pub asks : Option DataRequest → Bool
asks none = false
asks (some req) = text_eq req.kind (codes "db") || text_eq req.kind (codes "sql")

module _ (decode : Text → Option DataRequest) where
  -- what is left of a line in the output: nothing of a request and of white space, else its text
  abbrev pub shown_trimmed : Text → Text
  shown_trimmed [] = []
  shown_trimmed (c ∷ rest) = if asks (decode (c ∷ rest)) then [] else (c ∷ rest) ++ 10 ∷ []

  abbrev pub shown_line : Text → Text
  shown_line text = shown_trimmed (trim_bytes text)

  -- and of all lines of a text, of which `seen` is the beginning of the first
  abbrev pub shown : Text → Text → Text
  shown seen [] = shown_line seen
  shown seen (c ∷ s) = if c == 10 then shown_line seen ++ shown [] s else shown (seen ++ c ∷ []) s

module _ {Row : Type 0} (decode : Text → Option DataRequest) (engine : Engine Row)
    (owner function : Uuid) (stamps : ℕ → ℕ) where
  abbrev Step : Type 0
  Step = Result (Unit {0}) × Sink Row × World

  -- a step that adds the text to the output, or one that makes the invocation fail
  abbrev Shows : Text → Sink Row → Step → Type 0
  Shows text out (r, out', w) =
      ((r ≡ ok tt) × (out'.final.content ≡ out.final.content ++ text))
      ⊎ ((out'.final.exceeded ≡ true) ⊎ (is_late r ≡ true))

  line-Shows :
      (text : Text) (out : Sink Row) (w : World)
      → Shows
          (if asks (decode text) then [] else text ++ 10 ∷ [])
          out
          (line decode engine owner function stamps text out w)
  unfolding line request send write_limited
  line-Shows text out w = elim (Option-cases (decode text)) [
    | inl plain ↦ ground (arith, plain)
    | inr (req, found) ↦ ground (arith, found, append-nil out.final.content)
  ]

  complete-Shows :
      (text : Text) (out : Sink Row) (w : World)
      → Shows (shown_line decode text) out (complete decode engine owner function stamps text out w)
  unfolding complete
  complete-Shows text out w = go (trim_bytes text) refl
    where
      go :
          (t : Text)
          → trim_bytes text ≡ t
          → Shows
              (shown_trimmed decode t)
              out
              (complete decode engine owner function stamps text out w)
      go [] is = rw (complete, is) (inl (refl, sym (append-nil out.final.content)))
      go (c ∷ rest) is = rw (complete, is) (line-Shows (c ∷ rest) out w)

  -- an excess is never forgotten
  complete-exceeded :
      (text : Text) (out : Sink Row) (w : World)
      → out.final.exceeded ≡ true
      → (complete decode engine owner function stamps text out w).1.final.exceeded ≡ true
  unfolding complete line request send write_limited
  complete-exceeded text out w h = elim (Option-cases (decode (trim_bytes text))) [
    | inl plain ↦ ground (arith, plain, h)
    | inr (req, found) ↦ ground (arith, found, h)
  ]

  drain-exceeded :
      (seen s : Text) (out : Sink Row) (w : World)
      → out.final.exceeded ≡ true
      → (drain decode engine owner function stamps seen s out w).2.final.exceeded ≡ true
  unfolding drain
  drain-exceeded seen [] out w h = h
  drain-exceeded seen (c ∷ s) out w h = ground (
    arith,
    complete-exceeded seen out w,
    drain-exceeded (seen ++ c ∷ []) s out w,
    drain-exceeded [] s (complete decode engine owner function stamps seen out w).1
        (complete decode engine owner function stamps seen out w).2,
  )

  -- with `t` still to come
  abbrev Goes : Text → Text → Text → Sink Row → Result (Unit {0}) × Text × Sink Row × World → Type 0
  Goes t seen s out (r, rest, out', w) =
      ((r ≡ ok tt)
        × (out'.final.content ++ shown decode rest t
            ≡ out.final.content ++ shown decode seen (s ++ t)))
      ⊎ ((out'.final.exceeded ≡ true) ⊎ (is_late r ≡ true))

  drain-Goes :
      (t seen s : Text) (out : Sink Row) (w : World)
      → Goes t seen s out (drain decode engine owner function stamps seen s out w)
  unfolding drain
  drain-Goes t seen [] out w = inl (refl, refl)
  drain-Goes t seen (c ∷ s) out w = ground (
    arith,
    complete-Shows seen out w,
    drain-Goes t (seen ++ c ∷ []) s out w,
    drain-Goes t [] s (complete decode engine owner function stamps seen out w).1
        (complete decode engine owner function stamps seen out w).2,
    drain-exceeded [] s (complete decode engine owner function stamps seen out w).1
        (complete decode engine owner function stamps seen out w).2,
    append_assoc out.final.content (shown_line decode seen) (shown decode [] (s ++ t)),
  )

  abbrev pub is_over : DataOutput Row → Bool
  is_over out = out.exceeded || out.sink.final.exceeded

  -- the output so far, with what is pending and a text to come
  abbrev pub comes_to : DataOutput Row → Text → Text
  comes_to out t = out.sink.final.content ++ shown decode out.pending t

  write-over :
      (p : Text) (out : DataOutput Row) (w : World)
      → is_over out ≡ true
      → is_over (write decode engine owner function stamps p out w).1 ≡ true
  unfolding write
  write-over p out w h = ground (arith, drain-exceeded [] (out.pending ++ p) out.sink w)

  shown-no_newline :
      (seen s t : Text)
      → no_newline s ≡ true
      → shown decode seen (s ++ t) ≡ shown decode (seen ++ s) t
  shown-no_newline seen [] t h = ap (λ x. shown decode x t) (sym (append-nil seen))
  shown-no_newline seen (c ∷ s) t h =
      ground (arith, shown-no_newline (seen ++ c ∷ []) s t, append_assoc seen (c ∷ []) s)

  -- no complete line is pending, and the output comes to the same with `t` as another with `u`
  abbrev Comes : DataOutput Row → Text → DataOutput Row → Text → Type 0
  Comes out' t out u = (no_newline out'.pending ≡ true) × (comes_to out' t ≡ comes_to out u)

  write-Comes :
      (p t : Text) (out : DataOutput Row) (w : World)
      → no_newline out.pending ≡ true
      → Comes (write decode engine owner function stamps p out w).1 t out (p ++ t)
        ⊎ ((is_over (write decode engine owner function stamps p out w).1 ≡ true)
            ⊎ (is_late (write decode engine owner function stamps p out w).0 ≡ true))
  unfolding write
  write-Comes p t out w h = ground (
    arith,
    drain-Goes t [] (out.pending ++ p) out.sink w,
    drain-pending decode engine owner function stamps [] (out.pending ++ p) out.sink w,
    append_assoc out.pending p t,
    shown-no_newline [] out.pending (p ++ t),
  )

  abbrev pub Wrote : DataOutput Row → Text → Bool × DataOutput Row × World → Type 0
  Wrote out p (late, out', w) = Comes out' [] out p ⊎ ((is_over out' ≡ true) ⊎ (late ≡ true))

  write_data-over :
      (ns : List ℕ) (ps : List Text) (out : DataOutput Row) (w : World)
      → is_over out ≡ true
      → is_over (write_data decode engine stamps owner function ns ps out w).1 ≡ true
  unfolding take_replies
  write_data-over ns [] out w h = h
  write_data-over ns (p ∷ ps) out w h =
      write_data-over (later ns) ps _ _ (write-over p (take_replies (next ns) out) w h)

  pub write_data-Wrote :
      (ns : List ℕ) (ps : List Text) (out : DataOutput Row) (w : World)
      → no_newline out.pending ≡ true
      → Wrote out (concat ps) (write_data decode engine stamps owner function ns ps out w)
  unfolding take_replies
  write_data-Wrote ns [] out w h = inl (h, refl)
  write_data-Wrote ns (p ∷ ps) out w h =
      let taken = take_replies (next ns) out in
      let (r, out', w') = write decode engine owner function stamps p taken w in
      elim (write-Comes p (concat ps) taken w h) [
        | inl (open_line, is) ↦ ground (arith, is, write_data-Wrote (later ns) ps out' w' open_line)
        | inr (inl over) ↦ inr (inl (write_data-over (later ns) ps out' w' over))
        | inr (inr late) ↦ inr (inr (ground (arith, late)))
      ]

  -- The output of a run in data mode, once the pending line is done: what is left of all that the run
  -- wrote.
  pub written-shown :
      (late : Bool) (out : DataOutput Row) (w : World) (p text : Text)
      → Wrote fresh p (late, out, w)
      → late ≡ false
      → (finish decode engine owner function stamps out w).0 ≡ ok text
      → (complete decode engine owner function stamps out.pending out.sink w).1.final.content
        ≡ shown decode [] p
  unfolding finish
  written-shown late out w p text wrote through done =
      ground
        (arith, complete-Shows out.pending out.sink w, complete-exceeded out.pending out.sink w)
