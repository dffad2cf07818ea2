-- ===== src/Functions/Protocol/Limits.antt =====
-- What the limits on output, replies and operations give.
use rcp_server.Base.{
  ℕ, suc, ◌+◌, ◌-◌, ◌≤◌, ◌<◌, ltb, Bool-cases, ◌∙◌, List, ◌⊎◌, ◌≡◌, refl, [], ◌∷◌, ◌++◌, Option,
  arith, Text, length, length-append, Option-cases, inl, inr, codes,
}
use rcp_server.Stdlib.Strings.{trim_bytes}
use rcp_server.Functions.Exec.{Uuid, World}
use rcp_server.Functions.Queries.{Engine}
use rcp_server.Functions.Protocol.{
  DataRequest, DataReply, rejected, operation_limit, Sink, DataOutput, fresh, take_replies,
  write_limited, send, operate, request, line, complete, drain, write, max_output_bytes,
  max_data_operations_per_invocation,
}

module _ {Row : Type 0} where
  pub record IsWithin (sink : Sink Row) : Type 0 where
    pub final : length sink.final.content ≤ max_output_bytes
    pub replies : length sink.replies ≤ sink.taken + suc max_data_operations_per_invocation
    pub taken : sink.taken ≤ length sink.replies
    pub counted : length sink.replies ≤ sink.ops

  -- The limits of an invocation.
  pub record IsLimited (out : DataOutput Row) : Type 0 where
    pub received : out.total ≤ max_output_bytes
    pub final : length out.sink.final.content ≤ max_output_bytes
    pub waiting : length out.sink.replies - out.sink.taken ≤ suc max_data_operations_per_invocation
    pub taken : out.sink.taken ≤ length out.sink.replies

  pub take_replies-IsWithin :
      (n : ℕ) (out : DataOutput Row) → IsWithin out.sink → IsWithin (take_replies n out).sink
  unfolding take_replies
  take_replies-IsWithin n out h = ground arith

  send-IsWithin :
      (reply : DataReply Row) (out : Sink Row)
      → IsWithin out
      → length out.replies < out.ops
      → IsWithin (send reply out).1
  unfolding send
  send-IsWithin reply out h = ground (arith, length-append out.replies (reply ∷ []))

  send_keeps :
      (reply : DataReply Row) (out : Sink Row)
      → ((send reply out).1.final ≡ out.final) × ((send reply out).1.ops ≡ out.ops)
  unfolding send
  send_keeps reply out = ground arith

module _ {Row : Type 0} (decode : Text → Option DataRequest) (engine : Engine Row)
    (owner function : Uuid) (stamps : ℕ → ℕ) where
  abbrev counted : Sink Row → Sink Row
  counted out = record out { ops = suc out.ops }

  abbrev answer : DataRequest → Sink Row → World → DataReply Row
  answer req out w = (operate decode engine owner function stamps req (stamps out.ops) w).0

  abbrev over : DataRequest → DataReply Row
  over req = rejected (req.kind ++ codes ".result") operation_limit

  request-IsWithin :
      (req : DataRequest) (out : Sink Row) (w : World)
      → IsWithin out
      → IsWithin (request decode engine owner function stamps req out w).1
  unfolding request
  request-IsWithin req out w h = ground (
    arith,
    send-IsWithin (over req) (counted out),
    send-IsWithin (answer req out w) (counted out),
  )

  request_keeps :
      (req : DataRequest) (out : Sink Row) (w : World)
      → ((request decode engine owner function stamps req out w).1.final ≡ out.final)
        × ((request decode engine owner function stamps req out w).1.ops ≡ suc out.ops)
  unfolding request
  request_keeps req out w =
      ground
        (arith, send_keeps (over req) (counted out), send_keeps (answer req out w) (counted out))

  request_refused :
      (req : DataRequest) (out : Sink Row) (w : World)
      → max_data_operations_per_invocation ≤ out.ops
      → (request decode engine owner function stamps req out w).2 ≡ w
  unfolding request
  request_refused req out w h = ground arith

  line-IsWithin :
      (text : Text) (out : Sink Row) (w : World)
      → IsWithin out
      → IsWithin (line decode engine owner function stamps text out w).1
  unfolding line write_limited
  line-IsWithin text out w h = elim (Option-cases (decode text)) [
    | inl plain ↦ ground (arith, length-append out.final.content (text ++ 10 ∷ []))
    | inr (req, found) ↦
        ground
          (arith, request-IsWithin req out w, length-append out.final.content (text ++ 10 ∷ []))
  ]

  line_frozen :
      (text : Text) (out : Sink Row) (w : World)
      → max_data_operations_per_invocation ≤ out.ops
      → ((line decode engine owner function stamps text out w).2 ≡ w)
        × (max_data_operations_per_invocation
            ≤ (line decode engine owner function stamps text out w).1.ops)
  unfolding line
  line_frozen text out w h = elim (Option-cases (decode text)) [
    | inl plain ↦ ground arith
    | inr (req, found) ↦ ground (arith, request_keeps req out w, request_refused req out w)
  ]

  pub complete-IsWithin :
      (text : Text) (out : Sink Row) (w : World)
      → IsWithin out
      → IsWithin (complete decode engine owner function stamps text out w).1
  unfolding complete
  complete-IsWithin text out w h = ground (arith, line-IsWithin (trim_bytes text) out w)

  complete_frozen :
      (text : Text) (out : Sink Row) (w : World)
      → max_data_operations_per_invocation ≤ out.ops
      → ((complete decode engine owner function stamps text out w).2 ≡ w)
        × (max_data_operations_per_invocation
            ≤ (complete decode engine owner function stamps text out w).1.ops)
  unfolding complete
  complete_frozen text out w h = ground (arith, line_frozen (trim_bytes text) out w)

  drain-IsWithin :
      (seen s : Text) (out : Sink Row) (w : World)
      → IsWithin out
      → IsWithin (drain decode engine owner function stamps seen s out w).2
  unfolding drain
  drain-IsWithin seen [] out w h = h
  drain-IsWithin seen (c ∷ s) out w h = ground (
    arith,
    complete-IsWithin seen out w,
    drain-IsWithin (seen ++ c ∷ []) s out w,
    drain-IsWithin [] s (complete decode engine owner function stamps seen out w).1
        (complete decode engine owner function stamps seen out w).2,
  )

  drain_frozen :
      (seen s : Text) (out : Sink Row) (w : World)
      → max_data_operations_per_invocation ≤ out.ops
      → ((drain decode engine owner function stamps seen s out w).3 ≡ w)
        × (max_data_operations_per_invocation
            ≤ (drain decode engine owner function stamps seen s out w).2.ops)
  unfolding drain
  drain_frozen seen [] out w h = (refl, h)
  drain_frozen seen (c ∷ s) out w h = ground (
    arith,
    complete_frozen seen out w,
    drain_frozen (seen ++ c ∷ []) s out w,
    drain_frozen [] s (complete decode engine owner function stamps seen out w).1
        (complete decode engine owner function stamps seen out w).2,
  )

  pub write-IsWithin :
      (p : Text) (out : DataOutput Row) (w : World)
      → IsWithin out.sink
      → out.total ≤ max_output_bytes
      → IsWithin (write decode engine owner function stamps p out w).1.sink
        × ((write decode engine owner function stamps p out w).1.total ≤ max_output_bytes)
  unfolding write
  write-IsWithin p out w h t = ground (arith, drain-IsWithin [] (out.pending ++ p) out.sink w)

  write_frozen :
      (p : Text) (out : DataOutput Row) (w : World)
      → max_data_operations_per_invocation ≤ out.sink.ops
      → ((write decode engine owner function stamps p out w).2 ≡ w)
        × (max_data_operations_per_invocation
            ≤ (write decode engine owner function stamps p out w).1.sink.ops)
  unfolding write
  write_frozen p out w h = ground (arith, drain_frozen [] (out.pending ++ p) out.sink w)

  -- what a guest does, one thing after the other: it writes a text, or receives so many replies
  abbrev pub step : Text ⊎ ℕ → DataOutput Row × World → DataOutput Row × World
  step (inl p) (out, w) =
      let (_, out', w') = write decode engine owner function stamps p out w in (out', w')
  step (inr n) (out, w) = (take_replies n out, w)

  abbrev pub run : List (Text ⊎ ℕ) → DataOutput Row × World → DataOutput Row × World
  run [] s = s
  run (e ∷ es) s = run es (step e s)

  run-IsWithin :
      (es : List (Text ⊎ ℕ)) (out : DataOutput Row) (w : World)
      → IsWithin out.sink
      → out.total ≤ max_output_bytes
      → IsWithin (run es (out, w)).0.sink × ((run es (out, w)).0.total ≤ max_output_bytes)
  unfolding take_replies
  run-IsWithin [] out w h t = (h, t)
  run-IsWithin (inl p ∷ es) out w h t =
      let (within, small) = write-IsWithin p out w h t in run-IsWithin es _ _ within small
  run-IsWithin (inr n ∷ es) out w h t =
      run-IsWithin es (take_replies n out) w (take_replies-IsWithin n out h) t

  run_frozen :
      (es : List (Text ⊎ ℕ)) (out : DataOutput Row) (w : World)
      → max_data_operations_per_invocation ≤ out.sink.ops
      → (run es (out, w)).1 ≡ w
  unfolding take_replies
  run_frozen [] out w h = refl
  run_frozen (inl p ∷ es) out w h =
      let (same, full) = write_frozen p out w h in run_frozen es _ _ full ∙ same
  run_frozen (inr n ∷ es) out w h = run_frozen es (take_replies n out) w h

  -- However the guest of an invocation writes and receives replies, and whichever Writes fail: what
  -- is received of it and its final output are at most 128 KiB each, and at most 33 replies wait for
  -- it. Once 32 replies have been sent, nothing that it does then changes the store.
  pub run-IsLimited :
      (es later : List (Text ⊎ ℕ)) (w : World)
      → IsLimited (run es (fresh, w)).0
        × ((length (run es (fresh, w)).0.sink.replies < max_data_operations_per_invocation)
            ⊎ ((run later (run es (fresh, w))).1 ≡ (run es (fresh, w)).1))
  run-IsLimited es later w =
      let (within, small) =
        run-IsWithin es fresh w
          (record {
            final = omega arith;
            replies = omega arith;
            taken = omega arith;
            counted = omega arith;
          })
          (omega arith) in
      (
        record {
          received = small;
          final = within.final;
          waiting = ground (arith, within.replies, within.taken);
          taken = within.taken;
        },
        (elim (Bool-cases
            (ltb (length (run es (fresh, w)).0.sink.replies) max_data_operations_per_invocation)) [
              | inl few ↦ inl (ground (arith, few))
              | inr full ↦ inr (
                  run_frozen later (run es (fresh, w)).0 (run es (fresh, w)).1
                    (ground (arith, full, within.counted)))
            ]),
      )
