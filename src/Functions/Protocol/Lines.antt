-- ===== src/Functions/Protocol/Lines.antt =====
-- A guest's output and the writes that it is cut into.
use mathlib.Core.List.{append-nil, append_assoc}
use rcp_server.Base.{
  ℕ, ◌+◌, ◌≤◌, ◌≡◌, refl, sym, ap, ◌∙◌, Bool, true, false, not, [], ◌∷◌, ◌++◌, Option, arith, Text,
  length, length-append, ◌==◌, all,
}
use rcp_server.Functions.Errors.{Result, ok, err}
use rcp_server.Functions.Exec.{Uuid, World}
use rcp_server.Functions.Queries.{Engine}
use rcp_server.Functions.Protocol.{
  DataRequest, Sink, DataOutput, complete, drain, write, max_output_bytes,
}

abbrev pub no_newline : Text → Bool
no_newline = all (λ c. not (c == 10))

no_newline-append :
    (s : Text) (c : ℕ) → (c == 10) ≡ false → no_newline s ≡ true → no_newline (s ++ c ∷ []) ≡ true
no_newline-append [] c h k = ground arith
no_newline-append (d ∷ s) c h k = ground (arith, no_newline-append s c)

module _ {Row : Type 0} (decode : Text → Option DataRequest) (engine : Engine Row)
    (owner function : Uuid) (stamps : ℕ → ℕ) where
  -- the state of the loop once it has read a text
  abbrev Drained : Type 0
  Drained = Result (Unit {0}) × Text × Sink Row × World

  abbrev go_on : Drained → Text → Drained
  go_on (ok _, rest, out, w) t = drain decode engine owner function stamps rest t out w
  go_on (err e, rest, out, w) t = (err e, rest ++ t, out, w)

  drain-append :
      (seen s t : Text) (out : Sink Row) (w : World)
      → drain decode engine owner function stamps seen (s ++ t) out w
        ≡ go_on (drain decode engine owner function stamps seen s out w) t
  unfolding drain
  drain-append seen [] t out w = refl
  drain-append seen (c ∷ s) t out w = ground (
    arith,
    drain-append (seen ++ c ∷ []) s t out w,
    drain-append [] s t (complete decode engine owner function stamps seen out w).1
        (complete decode engine owner function stamps seen out w).2,
  )

  drain-no_newline :
      (seen s : Text) (out : Sink Row) (w : World)
      → no_newline s ≡ true
      → drain decode engine owner function stamps seen s out w ≡ (ok tt, seen ++ s, out, w)
  unfolding drain
  drain-no_newline seen [] out w h = ap (λ t. (ok tt, t, out, w)) (sym (append-nil seen))
  drain-no_newline seen (c ∷ s) out w h =
      ground (arith, drain-no_newline (seen ++ c ∷ []) s out w, append_assoc seen (c ∷ []) s)

  pub drain-pending :
      (seen s : Text) (out : Sink Row) (w : World)
      → no_newline seen ≡ true
      → (drain decode engine owner function stamps seen s out w).0 ≡ ok tt
      → no_newline (drain decode engine owner function stamps seen s out w).1 ≡ true
  unfolding drain
  drain-pending seen [] out w h k = h
  drain-pending seen (c ∷ s) out w h k = ground (
    arith,
    drain-pending (seen ++ c ∷ []) s out w,
    drain-pending [] s (complete decode engine owner function stamps seen out w).1
        (complete decode engine owner function stamps seen out w).2,
    no_newline-append seen c,
  )

  drain-resume :
      (rest q : Text) (out : Sink Row) (w : World)
      → no_newline rest ≡ true
      → drain decode engine owner function stamps [] (rest ++ q) out w
        ≡ drain decode engine owner function stamps rest q out w
  drain-resume rest q out w h =
      drain-append [] rest q out w ∙ ap (λ d. go_on d q) (drain-no_newline [] rest out w h)

  drain-split :
      (s q : Text) (out : Sink Row) (w : World)
      → (drain decode engine owner function stamps [] s out w).0 ≡ ok tt
      → drain decode engine owner function stamps [] (s ++ q) out w ≡ (
          let (r, rest, out', w') = drain decode engine owner function stamps [] s out w in
          drain decode engine owner function stamps [] (rest ++ q) out' w')
  drain-split s q out w h = ground (
    arith,
    drain-append [] s q out w,
    drain-pending [] s out w,
    drain-resume (drain decode engine owner function stamps [] s out w).1 q
        (drain decode engine owner function stamps [] s out w).2
        (drain decode engine owner function stamps [] s out w).3,
  )

  -- Where the limit on the output leaves room for both, one Write of two texts ends as a Write of
  -- the first, if that succeeds, and then one of the second.
  pub write-append :
      (p q : Text) (out : DataOutput Row) (w : World)
      → out.total + length p + length q ≤ max_output_bytes
      → (write decode engine owner function stamps p out w).0 ≡ ok tt
      → write decode engine owner function stamps (p ++ q) out w ≡ (
          let (r, out', w') = write decode engine owner function stamps p out w in
          write decode engine owner function stamps q out' w')
  unfolding write
  write-append p q out w room first = ground (
    arith,
    drain-split (out.pending ++ p) q out.sink w,
    append_assoc out.pending p q,
    length-append p q,
  )

  -- A Write that succeeds leaves no complete line pending.
  write-pending :
      (p : Text) (out : DataOutput Row) (w : World)
      → (write decode engine owner function stamps p out w).0 ≡ ok tt
      → no_newline (write decode engine owner function stamps p out w).1.pending ≡ true
  unfolding write
  write-pending p out w h = ground (arith, drain-pending [] (out.pending ++ p) out.sink w)
