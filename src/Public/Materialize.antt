-- ===== src/Public/Materialize.antt =====
-- Reads of the Go API: `Read`, `Cursor.Next`, `Materialize` and `StateCursor.Next` of internal/ds/public.go. A call
-- of `Materialize` is one look at the store: `fuel` bounds its rounds and `depth` the chain of forks, and the result
-- is `none` where one is too small.
use yasdb.Prelude.{
  ℕ, zero, suc, Bool, not, Option, none, some, List, [], ◌∷◌, if◌then◌else◌, Result, ok, err,
}
use yasdb.Prelude.Bytes.{Bytes}
use yasdb.Offset.{Offset}
use yasdb.Storage.{Storage}
use yasdb.Server.{Server}
use yasdb.Server.Read.{ReadResult, read_range}
use yasdb.Materializer.{Materializer, Message, apply_all, new}
use yasdb.Live.Catchup.{LiveState, live_state, found_or_zero}
use yasdb.Public.{err_not_state_protocol, because, Returned, returned, raised, StreamInfo, info}

pub record Cursor : Type 0 where
  pub path : Bytes
  pub id : ℕ
  pub forked_from : ℕ
  pub fork_offset : ℕ
  pub is_json : Bool
  pub start : Offset

unfoldable pub cursor_from : Bytes → Offset → Returned StreamInfo → Returned Cursor
cursor_from path from (raised e) = raised e
cursor_from path from (returned i) = returned (record {
  path = path;
  id = i.stream_id;
  forked_from = i.forked_from;
  fork_offset = i.fork_offset;
  is_json = i.is_json;
  start = from;
})

-- A chunk with the position behind it, and whether there may be more now.
pub record Chunk : Type 0 where
  pub body : Bytes
  pub next : Offset
  pub more : Bool

-- The JSON of a chunk; no body is no message.
unfoldable pub decode_state_messages :
    (Bytes → Option (List Message)) → Bytes → Returned (List Message)
decode_state_messages decode [] = returned []
decode_state_messages decode (b ∷ body) = elim (decode (b ∷ body)) [
  | some msgs ↦ returned msgs
  | none ↦ raised err_not_state_protocol
]

chunk_of : Cursor → ReadResult → Returned Chunk × Cursor
chunk_of c (err e) = (raised (because e), c)
chunk_of c (ok (body, next, up_to_date)) = (
  returned (record { body = body; next = next; more = not up_to_date }),
  record c { start = next },
)

abbrev pub Materialized : Type 0
Materialized = Option (Returned (Materializer × Offset))

module _ (store : Storage) (limit : ℕ) where
  open store use {Db}

  read_to_tail : ℕ → Db → Cursor → Result (Option LiveState) → Option (Returned Chunk × Cursor)
  unfolding chunk_of found_or_zero
  read_to_tail fuel db c (err e) = some (raised (because e), c)
  read_to_tail fuel db c (ok found) =
      elim (read_range store fuel db c.id c.forked_from c.fork_offset c.is_json c.start
        (found_or_zero store found).tail limit) [ some r ↦ some (chunk_of c r) | none ↦ none ]

  unfoldable pub cursor_next : ℕ → Server store → Cursor → Option (Returned Chunk × Cursor)
  unfolding read_to_tail
  cursor_next fuel s c = read_to_tail fuel s.db c (live_state store s c.path)

  apply_chunk :
      (Cursor → Materializer → Materialized)
      → Cursor
      → Materializer
      → Chunk
      → Returned (List Message)
      → Materialized
  apply_chunk again c mat chunk (raised e) = some (raised e)
  apply_chunk again c mat chunk (returned msgs) =
      let after = (apply_all msgs mat).1 in
      if chunk.more then again c after else some (returned (after, chunk.next))

  after_chunk :
      (Bytes → Option (List Message))
      → (Cursor → Materializer → Materialized)
      → Materializer
      → Option (Returned Chunk × Cursor)
      → Materialized
  unfolding apply_chunk
  after_chunk decode again mat none = none
  after_chunk decode again mat (some (raised e, c)) = some (raised e)
  after_chunk decode again mat (some (returned chunk, c)) =
      apply_chunk again c mat chunk (decode_state_messages decode chunk.body)

  unfoldable pub materialize_from :
      (Bytes → Option (List Message))
      → ℕ
      → ℕ
      → Server store
      → Cursor
      → Materializer
      → Option (Returned (Materializer × Offset))
  unfolding after_chunk
  materialize_from decode depth zero s c mat = none
  materialize_from decode depth (suc fuel) s c mat =
      after_chunk decode (materialize_from decode depth fuel s) mat (cursor_next depth s c)

  started :
      (Bytes → Option (List Message))
      → ℕ
      → ℕ
      → Server store
      → Returned Cursor
      → Option (Returned (Materializer × Offset))
  started decode depth fuel s (raised e) = some (raised e)
  started decode depth fuel s (returned c) = materialize_from decode depth fuel s c new

  unfoldable pub materialize :
      (Bytes → Option Bytes)
      → (Bytes → Option (List Message))
      → ℕ
      → ℕ
      → Server store
      → Bytes
      → Option (Returned (Materializer × Offset))
  unfolding started
  materialize parse_media_type decode depth fuel s path =
      started decode depth fuel s
        (cursor_from path (record { seq = 0; byte = 0 }) (info store parse_media_type s path))

-- `StateCursor.Next`: the chunks that the live cursor gives one after the other, the messages that are left of
-- the last one, and the next message. `none` waits for another chunk.
pub record StateCursor : Type 0 where
  pub chunks : List Bytes
  pub buf : List Message

unfoldable pub next_message :
    (Bytes → Option (List Message))
    → List Bytes
    → List Message
    → Option (Returned Message × StateCursor)
next_message decode chunks (m ∷ buf) = some (returned m, record { chunks = chunks; buf = buf })
next_message decode [] [] = none
next_message decode (body ∷ chunks) [] =
    let again = λ (msgs : List Message). next_message decode chunks msgs in
    elim (decode_state_messages decode body) [
      | returned msgs ↦ again msgs
      | raised e ↦ some (raised e, record { chunks = chunks; buf = [] })
    ]
