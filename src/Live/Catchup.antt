-- ===== src/Live/Catchup.antt =====
-- Reads over HTTP up to the dispatch: `handleGet` and `readCatchup` of internal/ds/read.go, and `liveState` of
-- internal/ds/server.go.
pub mod Unchanged
use yasdb.Prelude.{
  ℕ, Bool, true, false, ◌&&◌, ◌||◌, not, Option, none, some, List, [], ◌∷◌, ◌==◌, if◌then◌else◌,
  ltb, length, Result, ok, err, ◌>>=◌,
}
use yasdb.Prelude.Bytes.{Bytes, bytes_eq}
use yasdb.Prelude.Map.{lookup}
use yasdb.ContentType.{is_json_stream}
use yasdb.Offset.{Offset, ParsedOffset, parse_offset, to_string, tail_offset}
use yasdb.Meta.{StreamMeta}
use yasdb.Storage.{Storage}
use yasdb.Streamer.{Streamer}
use yasdb.Server.{Server, load_meta, load_tombstone, load_tail_seq, tomb_soft_delete}
use yasdb.Server.Read.{ReadResult, read_range}
use yasdb.Live.{Reply, http_error, make_etag, cache_control_of, etag_matches}

-- What a reader is told of a stream: its tail, and whether it is closed.
pub record LiveState : Type 0 where
  pub tail : ℕ
  pub closed : Bool

-- Of a stream that is not found, the source's zero values.
abbrev pub no_state : LiveState
no_state = record { tail = 0; closed = false }

-- `offset=now`: nothing is read and nothing is cached.
unfoldable pub now_reply : StreamMeta → Bool → LiveState → Reply
now_reply meta is_json live = record {
  status = 200;
  body = if is_json then b'[' ∷ b']' ∷ [] else [];
  content_type = meta.content_type;
  etag = [];
  cache_control = b'n' ∷ b'o' ∷ b'-' ∷ b's' ∷ b't' ∷ b'o' ∷ b'r' ∷ b'e' ∷ [];
  stream_next = to_string (tail_offset live.tail);
  stream_cursor = [];
  up_to_date = true;
  stream_closed = live.closed;
}

-- The reply to a read that succeeded; `is_head` is the method HEAD.
unfoldable pub catchup_reply :
    StreamMeta → Offset → Bytes → Bool → Bool → Bytes × Offset × Bool → Reply
catchup_reply meta start if_none_match is_head closed (body, next, up_to_date) =
    let closed_eof = (closed && up_to_date) in
    let etag = make_etag meta.stream_id start next closed_eof in
    let unchanged = (not (bytes_eq if_none_match []) && etag_matches if_none_match etag) in
    record {
      status = if unchanged then 304 else 200;
      body = if unchanged || is_head then [] else body;
      content_type = meta.content_type;
      etag = etag;
      cache_control = cache_control_of meta.is_private;
      stream_next = to_string next;
      stream_cursor = [];
      up_to_date = up_to_date;
      stream_closed = closed_eof;
    }

after_read : StreamMeta → Offset → Bytes → Bool → Bool → ReadResult → Reply
after_read meta start if_none_match is_head closed (err e) = http_error 500
after_read meta start if_none_match is_head closed (ok served) =
    catchup_reply meta start if_none_match is_head closed served

-- Where a GET goes, once it is checked: `touches` is a call of `touchStream`.
pub data Route : Type 0 where
  refused : ℕ → Route
  catch_up long_poll sse : StreamMeta → ParsedOffset → Route
  bad_mode : Route

pub record Routed : Type 0 where
  pub route : Route
  pub touches : Bool

abbrev pub stays : ℕ → Routed
stays status = record { route = refused status; touches = false }

-- An offset parameter that is given, but empty or more than once.
unfoldable pub malformed : List Bytes → Bool
malformed [] = false
malformed (v ∷ []) = bytes_eq v []
malformed (v ∷ w ∷ vs) = true

-- `q.Get`: the first value, or none.
unfoldable pub first_value : List Bytes → Bytes
first_value [] = []
first_value (v ∷ vs) = v

unfoldable pub live_route : Bytes → StreamMeta → ParsedOffset → Route
live_route live meta po =
    if bytes_eq live []
    then catch_up meta po
    else (if bytes_eq live (b'l' ∷ b'o' ∷ b'n' ∷ b'g' ∷ b'-' ∷ b'p' ∷ b'o' ∷ b'l' ∷ b'l' ∷ [])
        then long_poll meta po
        else (if bytes_eq live (b's' ∷ b's' ∷ b'e' ∷ []) then sse meta po else bad_mode))

unfoldable pub is_gone : Option (ℕ × ℕ) → Bool
is_gone none = false
is_gone (some (reason, id)) = reason == tomb_soft_delete

route_meta : Bytes → ParsedOffset → Result (Option StreamMeta) → Routed
route_meta live po (err e) = stays 500
route_meta live po (ok none) = stays 404
route_meta live po (ok (some meta)) = record {
  route = live_route live meta po;
  touches = ltb 0 meta.ttl_seconds;
}

module _ (store : Storage) where
  open store use {Db}

  route_found : Db → Bytes → Bytes → ParsedOffset → Result (Option (ℕ × ℕ)) → Routed
  unfolding is_gone route_meta
  route_found db path live po (err e) = stays 500
  route_found db path live po (ok tomb) =
      if is_gone tomb then stays 410 else route_meta live po (load_meta store db path)

  route_offset : Db → Bytes → Bytes → Result ParsedOffset → Routed
  unfolding route_found
  route_offset db path live (err e) = stays 400
  route_offset db path live (ok po) = route_found db path live po (load_tombstone store db path)

  -- `handleGet` up to the call that serves the read: the values of `offset`, and `live`.
  unfoldable pub handle_get : Db → Bytes → List Bytes → Bytes → Routed
  unfolding route_offset
  handle_get db path offsets live =
      if malformed offsets
      then stays 400
      else route_offset db path live (parse_offset (first_value offsets))

  stored_state : Db → Result (Option StreamMeta) → Result (Option LiveState)
  stored_state db (err e) = err e
  stored_state db (ok none) = ok none
  stored_state db (ok (some meta)) = load_tail_seq store db meta.stream_id >>= λ tail.
      ok (some (record { tail = tail; closed = meta.closed }))

  state_at : Server store → Bytes → Option Streamer → Result (Option LiveState)
  unfolding stored_state
  state_at s path (some st) = ok (some (record { tail = st.tail; closed = st.closed }))
  state_at s path none = stored_state s.db (load_meta store s.db path)

  -- `none` is a stream that is not found.
  unfoldable pub live_state : Server store → Bytes → Result (Option LiveState)
  unfolding state_at
  live_state s path = state_at s path (lookup path s.resident)

  unfoldable pub found_or_zero : Option LiveState → LiveState
  found_or_zero none = no_state
  found_or_zero (some live) = live

module _ (store : Storage) (parse_media_type : Bytes → Option Bytes) where
  open store use {Db}

  serve_catchup : ℕ → Db → StreamMeta → ParsedOffset → Bytes → Bool → ℕ → LiveState → Option Reply
  unfolding after_read
  serve_catchup fuel db meta po if_none_match is_head limit live =
      let is_json = is_json_stream parse_media_type meta.content_type in
      if po.is_now
      then some (now_reply meta is_json live)
      else elim (read_range store fuel db meta.stream_id meta.forked_from meta.fork_offset is_json
          po.off live.tail limit) [
            | some r ↦ some (after_read meta po.off if_none_match is_head live.closed r)
            | none ↦ none
          ]

  -- The source does not look at `found`; `none` is a fuel below the chain of forks.
  unfoldable pub read_catchup :
      ℕ → Server store → Bytes → StreamMeta → ParsedOffset → Bytes → Bool → ℕ → Option Reply
  unfolding serve_catchup found_or_zero
  read_catchup fuel s path meta po if_none_match is_head limit = elim (live_state store s path) [
    | ok live ↦
        serve_catchup fuel s.db meta po if_none_match is_head limit (found_or_zero store live)
    | err e ↦ some (http_error 500)
  ]
