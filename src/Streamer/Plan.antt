-- ===== src/Streamer/Plan.antt =====
-- `planAppend` and `planAppendClosed` of internal/ds/streamer.go.
pub mod Effects
pub mod Retry
pub mod Plain
use yasdb.Prelude.{ℕ, Bool, true, false, ◌&&◌, not, Option, none, some, if◌then◌else◌}
use yasdb.Prelude.Bytes.{Bytes, lex_lt}
use yasdb.Meta.{ProducerState}
use yasdb.Offset.{tail_offset}
use yasdb.Producer.{ProducerHeaders, ProducerAction, duplicate, validate_producer}
use yasdb.Storage.{Storage}
use yasdb.ContentType.{content_type_matches}
use yasdb.Streamer.{
  AppendReq, AppendResp, bare, Streamer, Pending, Verdict, refuse, proceed, zero_or, echo,
  producer_verdict, Planned, admit,
}
use yasdb.Streamer.Load.{eff_producer, eff_writer_seq}

-- `kind == pDuplicate`
is_duplicate : ProducerAction → Bool
is_duplicate duplicate = true
is_duplicate _ = false

-- An append to a stream that is already closed.
refused_closed : Pending → AppendResp
refused_closed pend = record (bare 409) { next_offset = tail_offset pend.tail; closed = true }

closed_answer : Pending → ProducerHeaders → Option ProducerState → AppendResp
closed_answer pend h st =
    if is_duplicate (validate_producer st h)
    then echo pend.tail true (zero_or st)
    else refused_closed pend

module _ (store : Storage) (parse_media_type : Bytes → Option Bytes) where
  open store use {Db}

  closed_producer : Db → Pending → Option ProducerHeaders → Streamer → Planned
  closed_producer db pend none s = (refused_closed pend, false, pend, s)
  closed_producer db pend (some h) s =
      let (st, s1) = eff_producer store db pend h.id s in (closed_answer pend h st, false, pend, s1)

  unfoldable pub plan_append_closed : Db → Pending → AppendReq → Streamer → Planned
  unfolding closed_producer refused_closed closed_answer is_duplicate
  plan_append_closed db pend req s =
      if not req.has_body
      then (
        record (bare 204) { next_offset = tail_offset pend.tail; closed = true },
        false,
        pend,
        s,
      )
      else closed_producer db pend req.producer s

  -- Step 3a: what the producer check leaves, if there is a producer.
  check_producer : Db → Pending → Bool → Option ProducerHeaders → Streamer → Verdict × Streamer
  check_producer db pend close none s = (proceed none, s)
  check_producer db pend close (some h) s =
      let (st, s1) = eff_producer store db pend h.id s in
      (producer_verdict pend close st (validate_producer st h), s1)

  -- Step 3b: Stream-Seq must be above the last one.
  check_stream_seq : Db → Pending → Option Bytes → Streamer → Bool × Streamer
  check_stream_seq db pend none s = (true, s)
  check_stream_seq db pend (some v) s =
      let (last, s1) = eff_writer_seq store db pend s in (lex_lt last v, s1)

  plan_checked : Db → Pending → AppendReq → Verdict × Streamer → Planned
  plan_checked db pend req (refuse resp, s) = (resp, false, pend, s)
  plan_checked db pend req (proceed new_prod, s) =
      let (increasing, s1) = check_stream_seq db pend req.stream_seq s in
      if increasing then admit s1 pend req new_prod else (bare 409, false, pend, s1)

  unfoldable pub plan_append : Db → Pending → AppendReq → Streamer → Planned
  unfolding check_producer check_stream_seq plan_checked
  plan_append db pend req s =
      if pend.closed
      then plan_append_closed db pend req s
      else (if req.has_body
            && not (content_type_matches parse_media_type s.meta.content_type req.content_type)
          then (bare 409, false, pend, s)
          else plan_checked db pend req (check_producer db pend req.close_stream req.producer s))
