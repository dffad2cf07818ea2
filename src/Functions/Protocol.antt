-- ===== src/Functions/Protocol.antt =====
-- data_protocol.go: the lines that a function writes to its output are requests to the data store or
-- parts of its final output. `decode` stands for json.Unmarshal into a dataRequest, and replies are
-- kept as values, before json.Marshal. The guest runs on the goroutine of Write, so it reads replies
-- between two Writes and none during one: a send on a full channel ends only with the context, which
-- is the error `timeout` here.
pub mod Lines
pub mod Limits
mod Tests
use rcp_server.Base.{
  ℕ, suc, ◌+◌, ◌-◌, ◌≡◌, Bool, true, false, not, ◌&&◌, ◌||◌, List, [], ◌∷◌, ◌++◌, Option, none,
  some, leb, ltb, ◌==◌, if◌then◌else◌, Text, codes, text_eq, length, ℤ,
}
use rcp_server.Stdlib.Strings.{trim_bytes}
use rcp_server.Functions.Errors.{
  Error, Result, ok, err, invalid_data, data_not_found, data_limit, invalid_database, sql_limit,
  not_found, output_limit, timeout,
}
use rcp_server.Functions.Exec.{Uuid, World}
use rcp_server.Functions.Sql.{Param}
use rcp_server.Functions.Data.{DataItem, get, list, put, delete}
use rcp_server.Functions.Queries.{Engine, SqlResult, query_binding}

abbrev pub max_data_operations_per_invocation : ℕ
max_data_operations_per_invocation = 32

abbrev pub max_output_bytes : ℕ
max_output_bytes = 131072

pub record DataRequest : Type 0 where
  pub kind : Text
  pub op : Text
  pub collection : Text
  pub key : Text
  pub value : Text
  pub offset : ℤ
  pub binding : Text
  pub sql : Text
  pub params : List Param

-- what a reply carries when the operation succeeded
pub data Payload (Row : Type 0) : Type 0 where
  nothing : Payload Row
  one_item : DataItem → Payload Row
  items : List DataItem → Payload Row
  result : SqlResult Row → Payload Row

-- the text of a reply's error
pub data Message : Type 0 where
  operation_limit operation_failed : Message
  message_of : Error → Message

pub data DataReply (Row : Type 0) : Type 0 where
  accepted : (kind : Text) → Payload Row → DataReply Row
  rejected : (kind : Text) → Message → DataReply Row

-- limitedWriter
pub record LimitedWriter : Type 0 where
  pub content : Text
  pub exceeded : Bool

-- dataOutput: the fields that `line` uses, and those that only Write and Finish do; `replies` are all
-- that were sent, of which the guest has received the first `taken`.
pub record Sink (Row : Type 0) : Type 0 where
  pub final : LimitedWriter
  pub ops : ℕ
  pub replies : List (DataReply Row)
  pub taken : ℕ

pub record DataOutput (Row : Type 0) : Type 0 where
  pub sink : Sink Row
  pub pending : Text
  pub total : ℕ
  pub exceeded : Bool

unfoldable pub write_limited : LimitedWriter → Text → Result (Unit {0}) × LimitedWriter
write_limited w p =
    if ltb max_output_bytes (length w.content + length p)
    then (err output_limit, record w { exceeded = true })
    else (ok tt, record w { content = w.content ++ p })

-- the errors whose text the guest sees
abbrev pub shown : Error → Message
shown invalid_data = message_of invalid_data
shown data_not_found = message_of data_not_found
shown data_limit = message_of data_limit
shown invalid_database = message_of invalid_database
shown sql_limit = message_of sql_limit
shown not_found = message_of not_found
shown _ = operation_failed

module _ {Row : Type 0} where
  abbrev pub reply_of : {A : Type 0} → Text → (A → Payload Row) → Result A → DataReply Row
  reply_of kind f (ok a) = accepted kind (f a)
  reply_of kind f (err e) = rejected kind (shown e)

  -- `out.input.replies <- …`, on a channel of 33 places
  unfoldable pub send : DataReply Row → Sink Row → Result (Unit {0}) × Sink Row
  send reply out =
      if leb (suc max_data_operations_per_invocation) (length out.replies - out.taken)
      then (err timeout, out)
      else (ok tt, record out { replies = out.replies ++ reply ∷ [] })

  -- Read of dataInput, between two Writes, until the guest has received so many more replies or all
  -- of them
  unfoldable pub take_replies : ℕ → DataOutput Row → DataOutput Row
  take_replies n out =
      let sent = length out.sink.replies in
      let taken = out.sink.taken + n in
      record out { sink = record out.sink { taken = if leb taken sent then taken else sent } }

-- &dataOutput{…}
abbrev pub fresh : {Row : Type 0} → DataOutput Row
fresh = record {
  sink = record {
    final = record { content = []; exceeded = false };
    ops = 0;
    replies = [];
    taken = 0;
  };
  pending = [];
  total = 0;
  exceeded = false;
}

-- The store, the owner and the function of an invocation; `stamps` are the times of its operations.
module _ {Row : Type 0} (decode : Text → Option DataRequest) (engine : Engine Row)
    (owner function : Uuid) (stamps : ℕ → ℕ) where
  -- req.Type + ".result"
  abbrev pub reply_kind : DataRequest → Text
  reply_kind req = req.kind ++ codes ".result"

  -- the operation that a request names
  unfoldable pub operate : DataRequest → ℕ → World → DataReply Row × World
  operate req now w =
      if text_eq req.kind (codes "sql")
      then answer result (query_binding engine owner function req.binding req.sql req.params w)
      else if text_eq req.op (codes "get")
      then answer one_item (get owner function req.collection req.key w)
      else if text_eq req.op (codes "list")
      then answer items (list owner function req.collection req.offset w)
      else if text_eq req.op (codes "put")
      then answer one_item (put owner function req.collection req.key req.value now w)
      else if text_eq req.op (codes "delete")
      then answer (λ _. nothing) (delete owner function req.collection req.key w)
      else (rejected (reply_kind req) (shown invalid_data), w)
    where
      answer : {A : Type 0} → (A → Payload Row) → Result A × World → DataReply Row × World
      answer f (r, w') = (reply_of (reply_kind req) f r, w')

  unfoldable pub request : DataRequest → Sink Row → World → Result (Unit {0}) × Sink Row × World
  request req out w =
      let out' : Sink Row = record out { ops = suc out.ops } in
      if ltb max_data_operations_per_invocation (suc out.ops)
      then (let (r, sent) = send (rejected (reply_kind req) operation_limit) out' in (r, sent, w))
      else (let (reply, w') = operate req (stamps out.ops) w in
          let (r, sent) = send reply out' in (r, sent, w'))

  abbrev pub to_final : Text → Sink Row → World → Result (Unit {0}) × Sink Row × World
  to_final text out w =
      let (r, final) = write_limited out.final (text ++ 10 ∷ []) in
      (r, record out { final = final }, w)

  -- req.Type == "db" || req.Type == "sql"
  abbrev pub is_request : Text → Bool
  is_request kind = text_eq kind (codes "db") || text_eq kind (codes "sql")

  unfoldable pub line : Text → Sink Row → World → Result (Unit {0}) × Sink Row × World
  line text out w = elim (decode text) [
    | none ↦ to_final text out w
    | some req ↦ if is_request req.kind then request req out w else to_final text out w
  ]

  -- One complete line of the output, trimmed; an empty one is passed over.
  unfoldable pub complete : Text → Sink Row → World → Result (Unit {0}) × Sink Row × World
  complete text out w = elim (trim_bytes text) [
    | [] ↦ (ok tt, out, w)
    | c ∷ rest ↦ line (c ∷ rest) out w
  ]

  -- The loop of Write over what is pending: `seen` are the bytes since the last newline. The result
  -- has what is still pending, after an error the rest behind the line that failed.
  unfoldable pub drain :
      Text → Text → Sink Row → World → Result (Unit {0}) × Text × Sink Row × World
  drain seen [] out w = (ok tt, seen, out, w)
  drain seen (c ∷ s) out w =
      let on = drain (seen ++ c ∷ []) s out w in
      if c == 10
      then (let (r, out', w') = complete seen out w in
          elim r [ ok _ ↦ drain [] s out' w' | err e ↦ (err e, s, out', w') ])
      else on

  unfoldable pub write : Text → DataOutput Row → World → Result (Unit {0}) × DataOutput Row × World
  write p out w =
      if ltb max_output_bytes (out.total + length p)
      then (err output_limit, record out { exceeded = true }, w)
      else (let (r, rest, sink, w') = drain [] (out.pending ++ p) out.sink w in
          (r, record out { sink = sink; pending = rest; total = out.total + length p }, w'))

  unfoldable pub finish : DataOutput Row → World → Result Text × World
  finish out w =
      let (r, sink, w') = complete out.pending out.sink w in
      elim r [
        | err e ↦ (err e, w')
        | ok _ ↦
            (if out.exceeded || sink.final.exceeded
              then (err output_limit, w')
              else (ok (trim_bytes sink.final.content), w'))
      ]
