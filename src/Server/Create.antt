-- ===== src/Server/Create.antt =====
-- Creating a stream: `createStream` of internal/ds/handlers.go. The times are arguments: `now` in
-- seconds, `now_ms` in milliseconds.
pub mod Stored
pub mod Outcome
use yasdb.Prelude.{
  ℕ, ◌+◌, ◌%◌, ◌^◌, Bool, true, false, ◌&&◌, bool_eq, Option, none, some, List, [], ◌∷◌, ◌++◌, ltb,
  ◌==◌, if◌then◌else◌, length, Result, ok, err, empty_array,
}
use yasdb.Prelude.Bytes.{Bytes}
use yasdb.Wire.{u64_value}
use yasdb.Keys.{meta_key, id_mapping_key, tail_key, id_counter_key, expiry_key}
use yasdb.Meta.{StreamMeta, marshal, marshal_tail}
use yasdb.Offset.{Offset, tail_offset}
use yasdb.Storage.{Op, Storage, put}
use yasdb.ContentType.{content_type_matches, is_json_stream}
use yasdb.Json.{JsonLib, flatten_json}
use yasdb.Streamer.{record_ops_from}
use yasdb.Server.{
  Server, CreateResult, refusal, created, no_message, msg_invalid_json, Stage, stop, go, stage,
  and_then, or_500, positive, load_meta, load_tail_seq, check_tombstone,
}

pub record CreateParams : Type 0 where
  pub path : Bytes
  pub content_type : Bytes
  pub ttl : ℕ
  pub ttl_set : Bool
  pub expires_at : ℕ
  pub expires_set : Bool
  pub closed : Bool
  pub body : Bytes

-- `boolU64` and `boolI64`.
abbrev pub when_set : Bool → ℕ → ℕ
when_set set v = if set then v else 0

unfoldable pub initial_deadline : ℕ → CreateParams → ℕ
initial_deadline now p =
    if p.ttl_set
    then (now + p.ttl + 1) % 2 ^ 64
    else (if p.expires_set && positive p.expires_at then p.expires_at else 0)

-- `&StreamMeta{...}`, with its deadline.
unfoldable pub new_meta : ℕ → ℕ → ℕ → CreateParams → StreamMeta
unfolding initial_deadline
new_meta id now now_ms p = record {
  stream_id = id;
  content_type = p.content_type;
  ttl_seconds = when_set p.ttl_set p.ttl;
  expires_at = when_set p.expires_set p.expires_at;
  closed = p.closed;
  created_at_ms = now_ms;
  is_private = false;
  deadline = initial_deadline now p;
  forked_from = 0;
  fork_offset = 0;
  fork_byte = 0;
}

deadline_op : StreamMeta → CreateParams → List Op
deadline_op m p =
    if ltb 0 m.deadline
    then put (expiry_key m.deadline m.stream_id) (u64_value (when_set p.ttl_set p.ttl)) ∷ []
    else []

-- The batch of a new stream: its records, the four entries, and the deadline.
unfoldable pub create_ops : ℕ → StreamMeta → CreateParams → List Bytes → List Op
unfolding deadline_op
create_ops now m p records =
    record_ops_from m.stream_id 0 records
    ++ (put (meta_key p.path) (marshal m)
        ∷ put (id_mapping_key m.stream_id) p.path
        ∷ put (tail_key m.stream_id) (marshal_tail (length records) now)
        ∷ put id_counter_key (u64_value ((m.stream_id + 1) % 2 ^ 64))
        ∷ deadline_op m p)

-- An empty array is an empty stream.
json_records : Result (List Bytes) → Stage (List Bytes)
json_records (ok recs) = go recs
json_records (err e) = elim e [ empty_array ↦ go [] | _ ↦ stop (refusal 400 msg_invalid_json) ]

module _ (store : Storage) (parse_media_type : Bytes → Option Bytes) (json : JsonLib) where
  open store use {Db, commit}

  same_config : StreamMeta → CreateParams → Bool
  same_config m p =
      content_type_matches parse_media_type m.content_type p.content_type
      && (m.ttl_seconds == when_set p.ttl_set p.ttl
          && (m.expires_at == when_set p.expires_set p.expires_at && bool_eq m.closed p.closed))

  -- The path has a stream already: the same creation again is answered with its state.
  unfoldable pub existing_answer : Db → CreateParams → StreamMeta → CreateResult
  unfolding same_config
  existing_answer db p m =
      if same_config m p
      then stage (λ (r : CreateResult). r)
          (λ tail. created 200 m.content_type (tail_offset tail) m.closed)
          (or_500 (load_tail_seq store db m.stream_id))
      else refusal 409 no_message

  unfoldable pub initial_records : CreateParams → Stage (List Bytes)
  unfolding json_records
  initial_records p =
      if length p.body == 0
      then go []
      else (if is_json_stream parse_media_type p.content_type
          then json_records (flatten_json json p.body)
          else go (p.body ∷ []))

  -- What the commit of the batch gives.
  finish : Server store → CreateParams → ℕ → Result (Unit {0}) × Db → CreateResult × Server store
  finish s p n (ok u, db) = (
    created 201 p.content_type (tail_offset n) p.closed,
    record s { db = db; next_id = (s.next_id + 1) % 2 ^ 64 },
  )
  finish s p n (err e, db) = (refusal 500 no_message, record s { db = db })

  unfoldable pub store_new :
      ℕ → ℕ → CreateParams → Server store → List Bytes → CreateResult × Server store
  unfolding finish
  store_new now now_ms p s records =
      finish s p (length records)
        (commit s.db (create_ops now (new_meta s.next_id now now_ms p) p records) true)

  -- Behind the check for a stream at the path.
  create_at : ℕ → ℕ → CreateParams → Server store → Option StreamMeta → CreateResult × Server store
  unfolding existing_answer initial_records store_new
  create_at now now_ms p s (some m) = (existing_answer s.db p m, s)
  create_at now now_ms p s none =
      stage (λ (r : CreateResult). (r, s)) (store_new now now_ms p s) (initial_records p)

  unfoldable pub create_stream : ℕ → ℕ → CreateParams → Server store → CreateResult × Server store
  unfolding create_at
  create_stream now now_ms p s =
      stage (λ (r : CreateResult). (r, s)) (create_at now now_ms p s)
        (and_then (check_tombstone store s.db p.path) (λ u. or_500 (load_meta store s.db p.path)))
