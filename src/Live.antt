-- ===== src/Live.antt =====
-- Live and catch-up reads over HTTP: the replies and events of internal/ds/read.go. A reply has the fields
-- of the headers that the source sets; the text of an error is left out.
pub mod Turn
pub mod Published
pub mod Eof
pub mod Catchup
pub mod Etag
mod Tests
use yasdb.Prelude.{
  ℕ, ◌+◌, Bool, true, false, ◌&&◌, ◌||◌, not, Option, none, some, List, [], ◌∷◌, ◌++◌, ◌==◌,
  if◌then◌else◌, length, drop,
}
use yasdb.Prelude.Bytes.{Bytes, bytes_eq}
use yasdb.Offset.{Offset, to_string, append_offset, tail_offset}
use yasdb.ContentType.{trim_space}
use yasdb.Keys.Order.{has_prefix}
use yasdb.Cursor.{compute_cursor, format_uint}
use yasdb.Meta.{StreamMeta}

pub record Reply : Type 0 where
  pub status : ℕ
  pub body : Bytes
  pub content_type : Bytes
  pub etag : Bytes
  pub cache_control : Bytes
  pub stream_next : Bytes
  pub stream_cursor : Bytes
  pub up_to_date : Bool
  pub stream_closed : Bool

-- `http.Error`; an empty field is a header that is not set.
abbrev pub http_error : ℕ → Reply
http_error status = record {
  status = status;
  body = [];
  content_type = [];
  etag = [];
  cache_control = [];
  stream_next = [];
  stream_cursor = [];
  up_to_date = false;
  stream_closed = false;
}

-- The client's cursor, and what `computeCursor` reads: the time and the random number.
pub record Client : Type 0 where
  pub cursor : Bytes
  pub now : Option ℕ
  pub jitter : ℕ

abbrev pub cursor_for : Client → Bytes
cursor_for c = compute_cursor c.cursor c.now c.jitter

unfoldable pub cursor_unless_closed : Client → Bool → Bytes
cursor_unless_closed c closed = if closed then [] else cursor_for c

-- "private, max-age=60, stale-while-revalidate=300"
max_age : Bytes
max_age =
    b',' ∷ b' ' ∷ b'm' ∷ b'a' ∷ b'x' ∷ b'-' ∷ b'a' ∷ b'g' ∷ b'e' ∷ b'=' ∷ b'6' ∷ b'0' ∷ b',' ∷ b' '
    ∷ b's' ∷ b't' ∷ b'a' ∷ b'l' ∷ b'e' ∷ b'-' ∷ b'w' ∷ b'h' ∷ b'i' ∷ b'l' ∷ b'e' ∷ b'-' ∷ b'r'
    ∷ b'e' ∷ b'v' ∷ b'a' ∷ b'l' ∷ b'i' ∷ b'd' ∷ b'a' ∷ b't' ∷ b'e' ∷ b'=' ∷ b'3' ∷ b'0' ∷ b'0' ∷ []

unfoldable pub cache_control_of : Bool → Bytes
unfolding max_age
cache_control_of private_stream =
    (if private_stream
      then (b'p' ∷ b'r' ∷ b'i' ∷ b'v' ∷ b'a' ∷ b't' ∷ b'e' ∷ [])
      else (b'p' ∷ b'u' ∷ b'b' ∷ b'l' ∷ b'i' ∷ b'c' ∷ []))
    ++ max_age

closed_mark : Bool → Bytes
closed_mark closed = if closed then b':' ∷ b'c' ∷ [] else []

unfoldable pub make_etag : ℕ → Offset → Offset → Bool → Bytes
unfolding closed_mark
make_etag id start end closed =
    (34 ∷ format_uint id)
    ++ (b':' ∷ to_string start)
    ++ (b':' ∷ to_string end)
    ++ closed_mark closed
    ++ (34 ∷ [])

-- `strings.Split(s, ",")`
split_at_comma : Bytes → Bytes → List Bytes
split_at_comma [] part = part ∷ []
split_at_comma (c ∷ s) part =
    let rest = split_at_comma s (part ++ (c ∷ [])) in
    let next = split_at_comma s [] in if c == b',' then part ∷ next else rest

-- `strings.TrimPrefix(part, "W/")`
strip_weak : Bytes → Bytes
strip_weak part = if has_prefix (b'W' ∷ b'/' ∷ []) part then drop 2 part else part

any_matches : Bytes → List Bytes → Bool
unfolding strip_weak
any_matches etag [] = false
any_matches etag (p ∷ parts) =
    let rest = any_matches etag parts in
    let part = strip_weak (trim_space p) in bytes_eq part etag || bytes_eq part (b'*' ∷ []) || rest

unfoldable pub etag_matches : Bytes → Bytes → Bool
unfolding split_at_comma any_matches
etag_matches if_none_match etag = any_matches etag (split_at_comma if_none_match [])

unfoldable pub write_live_data : StreamMeta → Offset → Offset → Bool → Bool → Bytes → Client → Reply
write_live_data meta start next up_to_date closed body client =
    let closed_eof = (closed && up_to_date) in
    record {
      status = 200;
      body = body;
      content_type = meta.content_type;
      etag = make_etag meta.stream_id start next closed_eof;
      cache_control = cache_control_of meta.is_private;
      stream_next = to_string next;
      stream_cursor = cursor_for client;
      up_to_date = up_to_date;
      stream_closed = closed_eof;
    }

unfoldable pub write204_closed : ℕ → Reply
write204_closed tail = record (http_error 204) {
  stream_next = to_string (tail_offset tail);
  up_to_date = true;
  stream_closed = true;
}

unfoldable pub write204_timeout : ℕ → Client → Reply
write204_timeout tail client = record (http_error 204) {
  stream_next = to_string (tail_offset tail);
  stream_cursor = cursor_for client;
  up_to_date = true;
}

-- The control event of an SSE response.
pub record SseControl : Type 0 where
  pub next : Offset
  pub stream_cursor : Bytes
  pub up_to_date : Bool
  pub stream_closed : Bool

control_head : Bytes
control_head =
    b'e' ∷ b'v' ∷ b'e' ∷ b'n' ∷ b't' ∷ b':' ∷ b' ' ∷ b'c' ∷ b'o' ∷ b'n' ∷ b't' ∷ b'r' ∷ b'o' ∷ b'l'
    ∷ 10 ∷ b'd' ∷ b'a' ∷ b't' ∷ b'a' ∷ b':' ∷ b'{' ∷ 34 ∷ b's' ∷ b't' ∷ b'r' ∷ b'e' ∷ b'a' ∷ b'm'
    ∷ b'N' ∷ b'e' ∷ b'x' ∷ b't' ∷ b'O' ∷ b'f' ∷ b'f' ∷ b's' ∷ b'e' ∷ b't' ∷ 34 ∷ b':' ∷ 34 ∷ []

control_cursor : Bytes
control_cursor =
    b',' ∷ 34 ∷ b's' ∷ b't' ∷ b'r' ∷ b'e' ∷ b'a' ∷ b'm' ∷ b'C' ∷ b'u' ∷ b'r' ∷ b's' ∷ b'o' ∷ b'r'
    ∷ 34 ∷ b':' ∷ 34 ∷ []

control_up_to_date : Bytes
control_up_to_date =
    b',' ∷ 34 ∷ b'u' ∷ b'p' ∷ b'T' ∷ b'o' ∷ b'D' ∷ b'a' ∷ b't' ∷ b'e' ∷ 34 ∷ b':' ∷ b't' ∷ b'r'
    ∷ b'u' ∷ b'e' ∷ []

control_closed : Bytes
control_closed =
    b',' ∷ 34 ∷ b's' ∷ b't' ∷ b'r' ∷ b'e' ∷ b'a' ∷ b'm' ∷ b'C' ∷ b'l' ∷ b'o' ∷ b's' ∷ b'e' ∷ b'd'
    ∷ 34 ∷ b':' ∷ b't' ∷ b'r' ∷ b'u' ∷ b'e' ∷ []

unfoldable pub append_sse_control : Bytes → SseControl → Bytes
unfolding control_head control_cursor control_up_to_date control_closed
append_sse_control dst c =
    append_offset (dst ++ control_head) c.next
    ++ (34 ∷ [])
    ++ (if bytes_eq c.stream_cursor [] then [] else control_cursor ++ c.stream_cursor ++ (34 ∷ []))
    ++ (if c.up_to_date then control_up_to_date else [])
    ++ (if c.stream_closed then control_closed else [])
    ++ (b'}' ∷ 10 ∷ 10 ∷ [])
