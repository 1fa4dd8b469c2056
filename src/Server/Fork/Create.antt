-- ===== src/Server/Fork/Create.antt =====
-- Creating a fork that is planned: the second half of `createFork` of internal/ds/fork.go.
use yasdb.Prelude.{
  ℕ, ◌+◌, ◌%◌, ◌^◌, Bool, true, false, ◌&&◌, bool_eq, Option, none, some, List, [], ◌∷◌, ◌++◌, ltb,
  ◌==◌, if◌then◌else◌, length, take, Result, ok, err, empty_array,
}
use yasdb.Prelude.Bytes.{Bytes}
use yasdb.Wire.{u64_value}
use yasdb.Keys.{meta_key, id_mapping_key, tail_key, id_counter_key, expiry_key, ref_count_key}
use yasdb.Meta.{StreamMeta, marshal, marshal_tail}
use yasdb.Offset.{tail_offset}
use yasdb.Storage.{Op, Storage, put}
use yasdb.ContentType.{content_type_matches, is_json_stream}
use yasdb.Json.{JsonLib, flatten_json}
use yasdb.Streamer.{record_ops_from}
use yasdb.Server.{
  Server, CreateResult, refusal, created, no_message, msg_invalid_body, Stage, stop, go, stage,
  and_then, or_500, positive, load_meta, load_tail_seq, load_ref_count,
}
use yasdb.Server.Fork.{record_at}
use yasdb.Server.Fork.Plan.{ForkParams, ForkPlan, fork_ttl, is_empty, plan_fork, read_payload}

unfoldable pub fork_meta : ℕ → ℕ → ℕ → Bytes → StreamMeta → ℕ × ℕ → ForkParams → StreamMeta
unfolding fork_ttl
fork_meta id now now_ms content_type src div p =
    let ttl = fork_ttl src p in
    record {
      stream_id = id;
      content_type = content_type;
      ttl_seconds = ttl.0;
      expires_at = ttl.1;
      closed = p.closed;
      created_at_ms = now_ms;
      is_private = false;
      deadline =
          (if ltb 0 ttl.0
            then (now + ttl.0 + 1) % 2 ^ 64
            else (if positive ttl.1 then ttl.1 else 0));
      forked_from = src.stream_id;
      fork_offset = div.0;
      fork_byte = div.1;
    }

deadline_op : StreamMeta → List Op
deadline_op m =
    if ltb 0 m.deadline
    then put (expiry_key m.deadline m.stream_id) (u64_value m.ttl_seconds) ∷ []
    else []

-- The batch of a fork: what it keeps of the record it diverges in, its records, its entries, and the
-- count of the source.
unfoldable pub fork_ops : ℕ → StreamMeta → ForkParams → List Bytes → List Bytes → ℕ → List Op
unfolding deadline_op
fork_ops now m p prefix records count =
    let start = (m.fork_offset + length prefix) % 2 ^ 64 in
    record_ops_from m.stream_id m.fork_offset prefix
    ++ (record_ops_from m.stream_id start records
        ++ (put (meta_key p.path) (marshal m)
            ∷ put (id_mapping_key m.stream_id) p.path
            ∷ put (tail_key m.stream_id) (marshal_tail ((start + length records) % 2 ^ 64) now)
            ∷ put id_counter_key (u64_value ((m.stream_id + 1) % 2 ^ 64))
            ∷ (deadline_op m
                ++ (put (ref_count_key m.forked_from) (u64_value ((count + 1) % 2 ^ 64)) ∷ []))))

body_records : Result (List Bytes) → Stage (List Bytes)
body_records (ok recs) = go recs
body_records (err e) = elim e [ empty_array ↦ go [] | _ ↦ stop (refusal 400 msg_invalid_body) ]

prefix_of : ℕ → Option Bytes → Stage (List Bytes)
prefix_of byte none = stop (refusal 500 no_message)
prefix_of byte (some payload) = go (take byte payload ∷ [])

module _ (store : Storage) (parse_media_type : Bytes → Option Bytes) (json : JsonLib) where
  open store use {Db, commit}

  same_fork : ForkPlan → ForkParams → StreamMeta → Bool
  unfolding fork_ttl
  same_fork plan p m =
      m.forked_from == plan.source.stream_id
      && (m.fork_offset == plan.divergence.0
          && (m.fork_byte == plan.divergence.1
              && (content_type_matches parse_media_type m.content_type plan.content_type
                  && (m.ttl_seconds == (fork_ttl plan.source p).0
                      && (m.expires_at == (fork_ttl plan.source p).1
                          && bool_eq m.closed p.closed)))))

  unfoldable pub existing_fork : Db → ForkPlan → ForkParams → StreamMeta → CreateResult
  unfolding same_fork
  existing_fork db plan p m =
      if same_fork plan p m
      then stage (λ (r : CreateResult). r)
          (λ tail. created 200 m.content_type (tail_offset tail) m.closed)
          (or_500 (load_tail_seq store db m.stream_id))
      else refusal 409 no_message

  -- The record that a divergence in its middle keeps a part of.
  kept_prefix : ℕ → Db → ForkPlan → Stage (List Bytes)
  unfolding prefix_of read_payload
  kept_prefix fuel db plan =
      if ltb 0 plan.divergence.1
      then and_then (read_payload (record_at store fuel db plan.source.stream_id plan.divergence.0))
          (prefix_of plan.divergence.1)
      else go []

  -- `forkBodyRecords`, of a body that is not empty.
  unfoldable pub fork_body_records : Bytes → Bytes → Stage (List Bytes)
  unfolding body_records
  fork_body_records content_type body =
      if is_empty body
      then go []
      else (if is_json_stream parse_media_type content_type
          then body_records (flatten_json json body)
          else go (body ∷ []))

  finish_fork :
      Server store
      → ForkPlan
      → ForkParams
      → ℕ
      → Result (Unit {0}) × Db
      → CreateResult × Server store
  finish_fork s plan p tail (ok u, db) = (
    created 201 plan.content_type (tail_offset tail) p.closed,
    record s { db = db; next_id = (s.next_id + 1) % 2 ^ 64 },
  )
  finish_fork s plan p tail (err e, db) = (refusal 500 no_message, record s { db = db })

  unfoldable pub store_fork :
      ℕ
      → ℕ
      → ForkPlan
      → ForkParams
      → Server store
      → List Bytes
      → List Bytes
      → CreateResult × Server store
  unfolding finish_fork fork_ops fork_meta
  store_fork now now_ms plan p s prefix records =
      let m = fork_meta s.next_id now now_ms plan.content_type plan.source plan.divergence p in
      let count = load_ref_count store s.db plan.source.stream_id in
      finish_fork s plan p ((m.fork_offset + length prefix + length records) % 2 ^ 64)
        (commit s.db (fork_ops now m p prefix records count) true)

  fork_at :
      ℕ
      → ℕ
      → ℕ
      → ForkPlan
      → ForkParams
      → Server store
      → Option StreamMeta
      → CreateResult × Server store
  unfolding existing_fork kept_prefix fork_body_records store_fork
  fork_at fuel now now_ms plan p s (some m) = (existing_fork s.db plan p m, s)
  fork_at fuel now now_ms plan p s none =
      stage (λ (r : CreateResult). (r, s))
        (λ (parts : List Bytes × List Bytes). store_fork now now_ms plan p s parts.0 parts.1)
        (and_then (kept_prefix fuel s.db plan) (λ prefix.
          and_then (fork_body_records plan.content_type p.body) (λ records. go (prefix, records))))

  unfoldable pub create_fork : ℕ → ℕ → ℕ → ForkParams → Server store → CreateResult × Server store
  unfolding fork_at
  create_fork fuel now now_ms p s =
      stage (λ (r : CreateResult). (r, s))
        (λ (plan : ForkPlan).
          stage (λ (r : CreateResult). (r, s)) (fork_at fuel now now_ms plan p s)
            (or_500 (load_meta store s.db p.path)))
        (plan_fork store parse_media_type fuel s.db p)
