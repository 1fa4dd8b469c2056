-- ===== src/Live/Tests.antt =====
-- A streamer that accepts one record and then one that closes it, as a live reader sees it.
use yasdb.Prelude.{
  arith, ◌<◌, ◌^◌, Option, none, ◌≡◌, refl, true, false, some, [], ◌∷◌, ◌++◌, ok, length,
}
use yasdb.Prelude.Bytes.{Bytes, bytes_eq}
use yasdb.Prelude.Map.{lookup}
use yasdb.Offset.{tail_offset, to_string, append_offset, ParsedOffset, parse_offset}
use yasdb.Meta.{StreamMeta}
use yasdb.Storage.Memory.{memory}
use yasdb.Server.Read.{read_range}
use yasdb.Server.{Server, load_meta, load_tombstone}
use yasdb.Keys.{meta_key, tombstone_key}
use yasdb.Keys.Order.{has_prefix}
use yasdb.Decimal.{pad_digits}
use yasdb.Cursor.{format_uint, format_digits}
use yasdb.ContentType.{trim_space, drop_spaces}
use yasdb.Live.Catchup.{
  read_catchup, live_state, catchup_reply, handle_get, malformed, first_value, refused,
}
use yasdb.Live.Catchup.Unchanged.{read_catchup-unchanged}
use yasdb.Live.{
  Client, Reply, write204_closed, write204_timeout, write_live_data, make_etag, etag_matches,
  cache_control_of, append_sse_control,
}
use yasdb.Live.Turn.{answered, long_poll_turn, long_poll, timeout, woken, live_read, cache_read}
use yasdb.Live.Published.{
  closed_at, lifetime, ending, reader_stores, atomics_at, seen_at, run_stores, run_store, last_tail,
}
use yasdb.Live.Eof.{NamesEnd, long_poll_turn-NamesEnd}

abbrev meta : StreamMeta
meta = record {
  stream_id = 1;
  content_type = b'a' ∷ [];
  ttl_seconds = 0;
  expires_at = 0;
  closed = false;
  created_at_ms = 5;
  is_private = false;
  deadline = 0;
  forked_from = 0;
  fork_offset = 0;
  fork_byte = 0;
}

abbrev no_parser : Bytes → Option Bytes
no_parser ct = none

abbrev client : Client
client = record { cursor = []; now = some 40; jitter = 3 }

two_stores :
    lifetime (1 ∷ []) (ending (closed_at 2)) ≡ reader_stores 1 false ++ reader_stores 2 true
unfolding lifetime ending reader_stores
two_stores = refl

-- The closing append is published between the two loads of a reader that has read the first record: it is told
-- that the stream is closed and ends at 1, and never sees the last record.
missed_end :
    (long_poll_turn meta client
        (tail_offset 1)
        (seen_at (lifetime (1 ∷ []) (ending (closed_at 2))) 0 1 3)
        (ok ([], tail_offset 1, true))
      ≡ answered (write204_closed 1))
    × (last_tail (lifetime (1 ∷ []) (ending (closed_at 2))) 0 ≡ 2)
unfolding long_poll_turn seen_at atomics_at lifetime ending reader_stores run_stores run_store
missed_end = (refl, refl)

-- A record is published just as a long poll that waits for it times out: the reply names the position behind
-- that record, which it does not carry.
skipped :
    long_poll meta client (tail_offset 1) (
      (
        record { tail = 1; closed = false; stopped = false },
        ok ([], tail_offset 1, true),
        timeout 2,
      )
      ∷ [])
    ≡ some (some (write204_timeout 2 client))
unfolding long_poll long_poll_turn
skipped = refl

-- A record that was there before is delivered at once.
sent :
    long_poll meta client (tail_offset 1) (
      (
        record { tail = 2; closed = false; stopped = false },
        ok (b'x' ∷ [], tail_offset 2, true),
        woken,
      )
      ∷ [])
    ≡ some
        (some (write_live_data meta (tail_offset 1) (tail_offset 2) true false (b'x' ∷ []) client))
unfolding long_poll long_poll_turn
sent = refl

nothing_read :
    live_read memory 1 [] none 1 0 0 false
      (tail_offset 2)
      (seen_at (lifetime (1 ∷ []) (ending (closed_at 2))) 0 3 3).tail
      100
    ≡ some (ok ([], tail_offset 2, true))
unfolding live_read cache_read read_range seen_at atomics_at lifetime ending reader_stores
    run_stores run_store
nothing_read = refl

told_closed :
    long_poll_turn meta client
      (tail_offset 2)
      (seen_at (lifetime (1 ∷ []) (ending (closed_at 2))) 0 3 3)
      (ok ([], tail_offset 2, true))
    ≡ answered (write204_closed 2)
unfolding long_poll_turn seen_at atomics_at lifetime ending reader_stores run_stores run_store
told_closed = refl

low_end : last_tail (lifetime (1 ∷ []) (ending (closed_at 2))) 0 < 10 ^ 16
unfolding lifetime ending reader_stores run_stores run_store
low_end = omega arith

long_poll_turn-NamesEnd_example :
    NamesEnd (last_tail (lifetime (1 ∷ []) (ending (closed_at 2))) 0) (write204_closed 2)
unfolding write204_closed
long_poll_turn-NamesEnd_example =
    long_poll_turn-NamesEnd memory (1 ∷ []) (closed_at 2) 0 3 3 meta client (tail_offset 2) 1 []
      none false 100 refl nothing_read low_end (omega arith, omega arith) told_closed refl

-- A reader of a stream without records that asks again.
abbrev empty_server : Server memory
empty_server = record { db = []; next_id = 2; resident = []; deletions = [] }

abbrev at_start : ParsedOffset
at_start = record { off = tail_offset 0; is_now = false }

abbrev not_modified : Reply
not_modified = record {
  status = 304;
  body = [];
  content_type = b'a' ∷ [];
  etag = make_etag 1 (tail_offset 0) (tail_offset 0) false;
  cache_control = cache_control_of false;
  stream_next = to_string (tail_offset 0);
  stream_cursor = [];
  up_to_date = true;
  stream_closed = false;
}

asked_again :
    read_catchup memory no_parser 1 empty_server
      (b's' ∷ [])
      meta
      at_start
      (make_etag 1 (tail_offset 0) (tail_offset 0) false)
      false
      100
    ≡ some not_modified
unfolding read_catchup live_state lookup load_meta read_range catchup_reply etag_matches make_etag
    to_string append_offset pad_digits format_uint format_digits bytes_eq trim_space drop_spaces
    has_prefix meta_key
asked_again = refl

read_catchup-unchanged_example :
    (not_modified.stream_next ≡ to_string (tail_offset 0)) × (not_modified.stream_closed ≡ false)
read_catchup-unchanged_example =
    read_catchup-unchanged memory no_parser 1 empty_server (b's' ∷ []) meta at_start (tail_offset 0)
      false false 100 asked_again refl

-- A route for each mode, and two refusals.
routes :
    (handle_get memory [] (b's' ∷ []) ([] ∷ []) []
      ≡ record { route = refused 400; touches = false })
    × (handle_get memory [] (b's' ∷ []) [] [] ≡ record { route = refused 404; touches = false })
unfolding handle_get malformed first_value parse_offset bytes_eq load_meta load_tombstone meta_key
    tombstone_key
routes = (refl, refl)

-- The control event of a reader that is at the end of a closed stream.
control_event :
    length (
      append_sse_control [] (record {
        next = tail_offset 3;
        stream_cursor = [];
        up_to_date = true;
        stream_closed = true;
      }))
    ≡ 114
unfolding append_sse_control append_offset pad_digits bytes_eq
control_event = refl
