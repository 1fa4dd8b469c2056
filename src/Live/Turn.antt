-- ===== src/Live/Turn.antt =====
-- The loops of live readers, turn by turn: `readLongPoll` and `readSSE` of internal/ds/read.go, and
-- `LiveCursor.Next` of internal/ds/public.go. A turn loads the published tail and then whether the stream is
-- closed, reads, and answers, goes on or parks until something wakes it.
use yasdb.Prelude.{
  Result, ℕ, Bool, true, false, ◌&&◌, not, Option, none, some, List, [], ◌∷◌, ◌++◌, ◌==◌,
  if◌then◌else◌, ok, err, Err,
}
use yasdb.Prelude.Bytes.{Bytes, bytes_eq}
use yasdb.Offset.{Offset, ParsedOffset, tail_offset}
use yasdb.Meta.{StreamMeta}
use yasdb.LiveCache.{LiveCache, try_read}
use yasdb.Sse.{write_sse_data}
use yasdb.Storage.{Storage}
use yasdb.Server.Read.{ReadResult, read_range}
use yasdb.Live.{
  Reply, Client, cursor_for, cursor_unless_closed, http_error, write_live_data, write204_closed,
  write204_timeout, SseControl, append_sse_control,
}

-- What a turn of a reader's loop loads: `st.tail` first, then `st.closed`, and `st.stopped()` after the read.
pub record Seen : Type 0 where
  pub tail : ℕ
  pub closed : Bool
  pub stopped : Bool

-- `a == b` of two offsets.
abbrev pub same_offset : Offset → Offset → Bool
same_offset a b = (a.seq == b.seq && a.byte == b.byte)

-- What a live reader is refused with before its loop: the offset it sent, and what `getOrSpawn` gave.
unfoldable pub open_live : Bytes → Result Bool → Option ℕ
open_live raw_offset spawned =
    if bytes_eq raw_offset []
    then some 400
    else elim spawned [ ok found ↦ if found then none else some 404 | err e ↦ some 500 ]

-- Where the loop starts; `offset=now` loads the tail.
unfoldable pub live_start : ParsedOffset → ℕ → Offset
live_start po tail = if po.is_now then tail_offset tail else po.off

-- What the select at the end of a turn returns by; a timeout loads the tail once more.
pub data Wake : Type 0 where
  woken stop cancelled : Wake
  timeout : ℕ → Wake

pub data Turn (Answer : Type 0) : Type 0 where
  answered : Answer → Turn Answer
  parked : Turn Answer

unfoldable pub long_poll_turn : StreamMeta → Client → Offset → Seen → ReadResult → Turn Reply
long_poll_turn meta client start seen (err e) = answered (http_error 500)
long_poll_turn meta client start seen (ok (body, next, up_to_date)) =
    if seen.stopped
    then answered (http_error 404)
    else (if not (same_offset next start)
        then answered (write_live_data meta start next up_to_date seen.closed body client)
        else (if seen.closed then answered (write204_closed seen.tail) else parked))

-- What a parked long poll does; a cancelled request has no reply.
after_wake : Client → Option (Option Reply) → Wake → Option (Option Reply)
after_wake client again woken = again
after_wake client again stop = some (some (http_error 404))
after_wake client again cancelled = some none
after_wake client again (timeout tail) = some (some (write204_timeout tail client))

when_parked : Turn Reply → Option (Option Reply) → Option (Option Reply)
when_parked (answered r) waits = some (some r)
when_parked parked waits = waits

-- The loop, over the turns that a reader takes: `none` is a reader that is still parked.
unfoldable pub long_poll :
    StreamMeta → Client → Offset → List (Seen × ReadResult × Wake) → Option (Option Reply)
unfolding after_wake when_parked
long_poll meta client start [] = none
long_poll meta client start ((seen, read, wake) ∷ turns) =
    let again = long_poll meta client start turns in
    when_parked (long_poll_turn meta client start seen read) (after_wake client again wake)

-- What an SSE reader keeps between turns.
pub record SseReader : Type 0 where
  pub start : Offset
  pub first : Bool

-- A turn of the SSE loop: it ends the response, goes on at once, or parks; with what it wrote.
pub data SseTurn : Type 0 where
  ends : Bytes → SseTurn
  goes_on parks : Bytes → SseReader → SseTurn

abbrev eof_control : ℕ → SseControl
eof_control tail = record {
  next = tail_offset tail;
  stream_cursor = [];
  up_to_date = true;
  stream_closed = true;
}

module _ (base64 : Bytes → Bytes) (text_like : Bool) where
  delivered : Client → Seen → Bytes × Offset × Bool → SseTurn
  delivered client seen (body, next, up_to_date) =
      let closed_eof = (seen.closed && up_to_date) in
      let control : SseControl = record {
        next = next;
        stream_cursor = cursor_unless_closed client closed_eof;
        up_to_date = up_to_date;
        stream_closed = closed_eof;
      } in
      let frames = write_sse_data base64 text_like body ++ append_sse_control [] control in
      if closed_eof then ends frames else goes_on frames (record { start = next; first = false })

  caught_up : Client → Seen → SseReader → SseTurn
  caught_up client seen r =
      let control : SseControl = record {
        next = tail_offset seen.tail;
        stream_cursor = cursor_for client;
        up_to_date = true;
        stream_closed = false;
      } in
      if seen.closed
      then ends (append_sse_control [] (eof_control seen.tail))
      else parks (if r.first then append_sse_control [] control else [])
          (record r { first = false })

  unfoldable pub sse_turn : Client → SseReader → Seen → ReadResult → SseTurn
  unfolding delivered caught_up
  sse_turn client r seen (err e) = ends []
  sse_turn client r seen (ok (body, next, up_to_date)) =
      if seen.stopped
      then ends []
      else (if not (same_offset next r.start)
          then delivered client seen (body, next, up_to_date)
          else caught_up client seen r)

-- The results of `LiveCursor.Next`: an error, or a body with the position behind it.
pub data CursorResult : Type 0 where
  failed : Err → CursorResult
  body_read : Bytes → Offset → CursorResult
  stream_closed stream_not_found : CursorResult

unfoldable pub cursor_turn : Offset → Seen → ReadResult → Turn CursorResult
cursor_turn start seen (err e) = answered (failed e)
cursor_turn start seen (ok (body, next, up_to_date)) =
    if seen.stopped
    then answered stream_not_found
    else (if not (same_offset next start)
        then answered (body_read body next)
        else (if seen.closed then answered stream_closed else parked))

-- `cacheRead`: whether the window in memory can serve the read.
unfoldable pub cache_read :
    Bool → Offset → ℕ → ℕ → Option LiveCache → Option (Bytes × Offset × Bool) × Option LiveCache
cache_read is_json start tail limit none = (none, none)
cache_read is_json start tail limit (some c) =
    let (served, after) = try_read is_json start tail limit c in (served, some after)

module _ (store : Storage) where
  open store use {Db}

  -- The read of a turn: from the window in memory, or else from the store.
  unfoldable pub live_read :
      ℕ → Db → Option LiveCache → ℕ → ℕ → ℕ → Bool → Offset → ℕ → ℕ → Option ReadResult
  live_read fuel db cache id forked_from fork_offset is_json start tail limit =
      elim ((cache_read is_json start tail limit cache).0) [
        | some served ↦ some (ok served)
        | none ↦ read_range store fuel db id forked_from fork_offset is_json start tail limit
      ]
