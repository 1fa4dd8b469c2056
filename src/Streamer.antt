-- ===== src/Streamer.antt =====
-- The owner of one live stream: internal/ds/streamer.go. Its state and requests, and the validation of
-- one append against the view of its burst. Clocks, channels and goroutines are arguments here: a
-- burst is the list of requests that `drainBurst` took, and `now` is read once for each burst.
pub mod Load
pub mod Plan
pub mod Burst
pub mod Commit
pub mod Mailbox
pub mod Touch
pub mod Deadline
mod Tests
use yasdb.Prelude.{
  ℕ, zero, suc, ◌+◌, ◌/◌, ◌%◌, ◌^◌, Bool, true, false, ◌&&◌, ◌||◌, not, Option, none, some, List,
  [], ◌∷◌, ◌++◌, ltb, ◌==◌, if◌then◌else◌, length, Err,
}
use yasdb.Prelude.Bytes.{Bytes}
use yasdb.Prelude.Map.{Map, insert}
use yasdb.Keys.{record_key}
use yasdb.Meta.{StreamMeta, ProducerState, marshal_record, rec_flag_none}
use yasdb.Offset.{Offset, tail_offset}
use yasdb.Producer.{
  ProducerHeaders, ProducerAction, accept, duplicate, stale_epoch, bad_seq_start, gap,
}
use yasdb.Storage.{Op, put}
use yasdb.LiveCache.{LiveCache}

-- `appendReq`, without its reply channel.
pub record AppendReq : Type 0 where
  pub records : List Bytes
  pub has_body : Bool
  pub content_type : Bytes
  pub close_stream : Bool
  pub stream_seq : Option Bytes
  pub producer : Option ProducerHeaders

pub record AppendResp : Type 0 where
  pub status : ℕ
  pub next_offset : Offset
  pub closed : Bool
  pub producer_epoch : Option ℕ
  pub producer_seq : Option ℕ
  pub expected_seq : Option ℕ
  pub received_seq : Option ℕ
  pub error : Option Err

-- `appendResp{status: status}`.
abbrev pub bare : ℕ → AppendResp
bare status = record {
  status = status;
  next_offset = record { seq = 0; byte = 0 };
  closed = false;
  producer_epoch = none;
  producer_seq = none;
  expected_seq = none;
  received_seq = none;
  error = none;
}

-- `streamer`. Its writer's state, and the reader-visible `tail` and `closed`; `live_readers` is
-- `totalReaders()`, `wake_requests` counts the calls of `waker.Wake`, and a fork has no cache.
pub record Streamer : Type 0 where
  pub path : Bytes
  pub id : ℕ
  pub meta : StreamMeta
  pub producers : Map ProducerState
  pub producer_loaded : List Bytes
  pub writer_seq : Bytes
  pub writer_seq_loaded : Bool
  pub write_tail : ℕ
  pub pending : ℕ
  pub tail : ℕ
  pub closed : Bool
  pub live_readers : ℕ
  pub wake_requests : ℕ
  pub cache : Option LiveCache

-- `pendingBurst`; `producers` is nil until a request of the burst is accepted with one.
pub record Pending : Type 0 where
  pub tail : ℕ
  pub closed : Bool
  pub deadline : ℕ
  pub producers : Option (Map ProducerState)
  pub writer_seq : Option Bytes
  pub record_ops : List Op
  pub now : ℕ

-- `granularity`: a quarter of the TTL, between 1 and 600 seconds.
abbrev pub granularity : ℕ → ℕ
granularity ttl_secs =
    let gran = ttl_secs / 4 in if ltb gran 1 then 1 else (if ltb 600 gran then 600 else gran)

unfoldable pub slide_ttl : ℕ → Pending → Pending
slide_ttl ttl_secs pend =
    if ttl_secs == 0
    then pend
    else let now_ttl = (pend.now + ttl_secs) % 2 ^ 64 in
      if ltb now_ttl pend.deadline
      then pend
      else record pend { deadline = (now_ttl + granularity ttl_secs) % 2 ^ 64 }

-- The record operations of an append, from the sequence number `start` on.
unfoldable pub record_ops_from : ℕ → ℕ → List Bytes → List Op
record_ops_from id start [] = []
record_ops_from id start (rec ∷ recs) =
    put (record_key id start) (marshal_record rec_flag_none rec)
    ∷ record_ops_from id ((start + 1) % 2 ^ 64) recs

-- What the producer check leaves: a response, or what becomes of the producer's state.
pub data Verdict : Type 0 where
  refuse : AppendResp → Verdict
  proceed : Option ProducerState → Verdict

-- A struct that was never assigned.
abbrev pub zero_or : Option ProducerState → ProducerState
zero_or none = record { epoch = 0; last_seq = 0; closed_by = false }
zero_or (some st) = st

-- `204`, echoing the highest accepted number of the producer.
abbrev pub echo : ℕ → Bool → ProducerState → AppendResp
echo tail closed st = record (bare 204) {
  next_offset = tail_offset tail;
  closed = closed;
  producer_epoch = some st.epoch;
  producer_seq = some st.last_seq;
}

-- The `switch act.kind` of `planAppend`.
unfoldable pub producer_verdict : Pending → Bool → Option ProducerState → ProducerAction → Verdict
producer_verdict pend close st (stale_epoch e) =
    refuse (record (bare 403) { producer_epoch = some e })
producer_verdict pend close st bad_seq_start = refuse (bare 400)
producer_verdict pend close st (gap expected received) =
    refuse (record (bare 409) { expected_seq = some expected; received_seq = some received })
producer_verdict pend close st duplicate = refuse (echo pend.tail pend.closed (zero_or st))
producer_verdict pend close st (accept ns) = proceed (some (record ns { closed_by = close }))

-- The producer map of the burst after an accepted request.
unfoldable pub record_producer :
    Option ProducerHeaders
    → Option ProducerState
    → Option (Map ProducerState)
    → Option (Map ProducerState)
record_producer (some h) (some ns) none = some (insert h.id ns [])
record_producer (some h) (some ns) (some m) = some (insert h.id ns m)
record_producer _ _ m = m

abbrev pub first_some : Option Bytes → Option Bytes → Option Bytes
first_some none old = old
first_some (some v) old = some v

-- Step 4 of `planAppend`: assign numbers, and record the effects in the pending view.
unfoldable pub record_effects : Streamer → Pending → AppendReq → Option ProducerState → Pending
unfolding record_producer record_ops_from
record_effects s pend req new_prod = record pend {
  tail = (pend.tail + length req.records) % 2 ^ 64;
  closed = req.close_stream || pend.closed;
  producers = record_producer req.producer new_prod pend.producers;
  writer_seq = first_some req.stream_seq pend.writer_seq;
  record_ops = pend.record_ops ++ record_ops_from s.id pend.tail req.records;
}

-- The status of an accepted append: 200 only for new data of a producer.
unfoldable pub accepted_response : Pending → AppendReq → Option ProducerHeaders → AppendResp
accepted_response pend req none = record (bare 204) {
  next_offset = tail_offset pend.tail;
  closed = pend.closed;
}
accepted_response pend req (some h) =
    record (bare (if ltb 0 (length req.records) then 200 else 204)) {
      next_offset = tail_offset pend.tail;
      closed = pend.closed;
      producer_epoch = some h.epoch;
      producer_seq = some h.seq;
    }

-- A response, whether the append was accepted, the burst's view and the streamer.
abbrev pub Planned : Type 0
Planned = AppendResp × Bool × Pending × Streamer

unfoldable pub admit : Streamer → Pending → AppendReq → Option ProducerState → Planned
unfolding record_effects slide_ttl accepted_response
admit s pend req new_prod =
    let pend1 = slide_ttl s.meta.ttl_seconds (record_effects s pend req new_prod) in
    (accepted_response pend1 req req.producer, true, pend1, s)
