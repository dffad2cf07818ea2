-- ===== src/Functions/Validation/Answers.antt =====
-- What a run has written, and how it has ended.
use rcp_server.Base.{
  ℕ, ◌≡◌, ◌≤◌, ◌<◌, ◌⊎◌, refl, Bool, true, false, List, [], ◌∷◌, ◌++◌, Option, some, none, length,
  length-append, ltb, ◌+◌, Text, arith, Bool-cases, inl, inr, ap, ◌∙◌, sym,
}
use mathlib.Core.List.{append_assoc, append-nil}
use rcp_server.Functions.Errors.{ok}
use rcp_server.Functions.Protocol.{LimitedWriter, write_limited, max_output_bytes}
use rcp_server.Functions.Validation.{
  Exit, returned, exited, failed, Run, Answer, json_object, write_all, ended, finished, admit,
  slots, max_input_bytes,
}

abbrev pub concat : List Text → Text
concat [] = []
concat (p ∷ ps) = p ++ concat ps

-- an excess is never forgotten
excess_kept :
    (w : LimitedWriter) (p : Text) → w.exceeded ≡ true → (write_limited w p).1.exceeded ≡ true
unfolding write_limited
excess_kept w p h = ground arith

excess_stays :
    (w : LimitedWriter) (ps : List Text) → w.exceeded ≡ true → (write_all w ps).exceeded ≡ true
excess_stays w [] h = h
excess_stays w (p ∷ ps) h = excess_stays (write_limited w p).1 ps (excess_kept w p h)

-- one write: whole and within the limit, or an excess
write_cases :
    (w : LimitedWriter) (p : Text)
    → ((write_limited w p).1.exceeded ≡ true)
      ⊎ (((write_limited w p).1.content ≡ w.content ++ p)
          × (length (w.content ++ p) ≤ max_output_bytes))
unfolding write_limited
write_cases w p = elim (Bool-cases (ltb max_output_bytes (length w.content + length p))) [
  | inl over ↦ inl (rw over refl)
  | inr within ↦ inr (rw within refl, ground (arith, within, length-append w.content p))
]

-- A writer that is not over its limit has all that was written to it.
pub write_all-whole :
    (w : LimitedWriter) (ps : List Text)
    → length w.content ≤ max_output_bytes
    → (write_all w ps).exceeded ≡ false
    → ((write_all w ps).content ≡ w.content ++ concat ps)
      × (length (write_all w ps).content ≤ max_output_bytes)
write_all-whole w [] small h = (sym (append-nil w.content), small)
write_all-whole w (p ∷ ps) small h = elim (write_cases w p) [
  | inl over ↦ absurd (ground (arith, excess_stays (write_limited w p).1 ps over, h))
  | inr (is, within) ↦
      let (whole, fits) = write_all-whole (write_limited w p).1 ps (ground (arith, is, within)) h in
      (whole ∙ ap (λ c. c ++ concat ps) is ∙ append_assoc w.content p (concat ps), fits)
]

-- how a run ended, by its answer: a run that returned has written a JSON object
abbrev pub HasEnded : Exit → Answer → Type 0
HasEnded exit a =
    ((exit ≡ returned) × (a.exit_code ≡ 0) × (json_object a.stdout ≡ true))
    ⊎ (exit ≡ exited a.exit_code)

ended-ok :
    (out log : LimitedWriter) (exit : Exit) (a : Answer)
    → ended out log exit ≡ ok a
    → (a.stdout ≡ out.content) × (a.stderr ≡ log.content) × HasEnded exit a
ended-ok out log failed a h = absurd (ground arith)
ended-ok out log (exited code) a h = (ground arith, ground arith, inr (ground arith))
ended-ok out log returned a h = elim (Bool-cases (json_object out.content)) [
  | inl object ↦
      let is : a.stdout ≡ out.content = ground (arith, object) in
      (is, ground (arith, object), inl (refl, ground (arith, object), ground (arith, object)))
  | inr other ↦ absurd (ground (arith, other))
]

pub finished-ok :
    (cut : Bool) (out log : LimitedWriter) (exit : Exit) (a : Answer)
    → finished cut out log exit ≡ ok a
    → (cut ≡ false)
      × (out.exceeded ≡ false)
      × (log.exceeded ≡ false)
      × (a.stdout ≡ out.content)
      × (a.stderr ≡ log.content)
      × HasEnded exit a
finished-ok true out log exit a h = absurd (ground arith)
finished-ok false out log exit a h = elim (Bool-cases out.exceeded) [
  | inl over ↦ absurd (ground (arith, over))
  | inr within ↦ elim (Bool-cases log.exceeded) [
    | inl over ↦ absurd (ground (arith, within, over))
    | inr quiet ↦
        let (o, l, end) = ended-ok out log exit a (ground (arith, within, quiet)) in
        (refl, within, quiet, o, l, end)
  ]
]

pub admit-ok :
    (running : ℕ) (run : Option Run) (input : Text) (r : Run)
    → admit running run input ≡ ok r
    → (length input ≤ max_input_bytes)
      × (json_object input ≡ true)
      × (running < slots)
      × (run ≡ some r)
unfolding admit
admit-ok running none input r h = absurd (ground arith)
admit-ok running (some _) input r h = (ground arith, ground arith, ground arith, ground arith)
