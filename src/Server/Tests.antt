-- ===== src/Server/Tests.antt =====
-- A stream, a fork of it at its second record, and the life of a stream, in a store in memory.
use yasdb.Prelude.{
  ◌⊎◌, ◌≡◌, ◌≢◌, refl, true, false, Option, none, some, List, [], ◌∷◌, ok, arith, ◌>>=◌, ◌^◌, ◌<◌,
  length,
}
use yasdb.Prelude.Bytes.{Bytes, bytes_eq}
use yasdb.Keys.{expiry_key, meta_key, id_mapping_key, record_key, tombstone_key, tail_key}
use yasdb.Meta.{
  record_payload, marshal_tail, unmarshal_tail, StreamMeta, marshal, marshal_record, unmarshal_meta,
  rd_u64, rd_content_type,
}
use yasdb.Wire.{be64, be, append_u16, append_u64, be_uint, be_uint_from}
use yasdb.Storage.{put}
use yasdb.Storage.Memory.{memory, run_ops}
use yasdb.Decimal.{pad_digits, parse_uint, parse_strict_uint}
use yasdb.Offset.{parse_offset, to_string, tail_offset}
use yasdb.ContentType.{is_json_stream, media_type, trim_space, to_lower}
use yasdb.Json.{JsonLib}
use yasdb.Server.{
  load_tail_seq, Server, load_meta_by_id, load_meta, load_tombstone, check_tombstone, go, created,
}
use yasdb.Server.Create.{CreateParams, create_stream, initial_records, new_meta}
use yasdb.Server.Create.Stored.{IsNew}
use yasdb.Server.Create.Outcome.{create_stream-IsNew}
use yasdb.Server.Delete.{delete_one}
use yasdb.Server.Delete.Removed.{IsRemoved, delete_one-IsRemoved}
use yasdb.Server.Expiry.{DueEntry, expire_if_due}
use yasdb.Server.Expiry.Due.{IsExpired, IsKept, expire_if_due-cases}
use yasdb.Prelude.Map.{lookup}
use yasdb.Server.Fork.Plan.{ForkParams, ForkPlan, plan_fork, load_source}
use yasdb.Server.Fork.{Segment, resolve_segments_by_id, record_at, payload_of}
use yasdb.Server.Fork.Cover.{Tiles, Chain, holder, resolve_segments-Tiles, record_at-holder}

abbrev plain : StreamMeta
plain = record {
  stream_id = 1;
  content_type = b'a' ∷ [];
  ttl_seconds = 0;
  expires_at = 0;
  closed = false;
  created_at_ms = 5;
  is_private = false;
  deadline = 0;
  forked_from = 0;
  fork_offset = 0;
  fork_byte = 0;
}

abbrev forked : StreamMeta
forked = record plain { stream_id = 2; forked_from = 1; fork_offset = 1 }

abbrev two_streams : memory.Db
two_streams =
    (memory.commit []
      (put (id_mapping_key 1) (b's' ∷ [])
        ∷ put (meta_key (b's' ∷ [])) (marshal plain)
        ∷ put (id_mapping_key 2) (b'f' ∷ [])
        ∷ put (meta_key (b'f' ∷ [])) (marshal forked)
        ∷ put (record_key 1 0) (marshal_record 0 (b'x' ∷ []))
        ∷ put (record_key 2 1) (marshal_record 0 (b'y' ∷ []))
        ∷ [])
      true).1

plain_loaded : load_meta_by_id memory two_streams 1 ≡ ok (some (plain, b's' ∷ []))
unfolding load_meta_by_id load_meta run_ops bytes_eq record_key id_mapping_key meta_key be64 be
    unmarshal_meta marshal rd_u64 rd_content_type append_u16 append_u64 be_uint be_uint_from
plain_loaded = refl

fork_loaded : load_meta_by_id memory two_streams 2 ≡ ok (some (forked, b'f' ∷ []))
unfolding load_meta_by_id load_meta run_ops bytes_eq record_key id_mapping_key meta_key be64 be
    unmarshal_meta marshal rd_u64 rd_content_type append_u16 append_u64 be_uint be_uint_from
fork_loaded = refl

one_is_not_zero : forked.forked_from ≢ 0
one_is_not_zero h = absurd (omega (arith, h))

abbrev chain : Chain memory two_streams 1 2
chain = (forked, b'f' ∷ [], fork_loaded, one_is_not_zero, (plain, b's' ∷ [], plain_loaded, refl))

resolve_segments-Tiles_example :
    (segs : List Segment) × (resolve_segments_by_id memory 2 two_streams 2 0 3 ≡ some (ok segs))
    × Tiles (holder memory two_streams 1 2 chain) 0 3 segs
resolve_segments-Tiles_example =
    resolve_segments-Tiles memory two_streams 1 2 chain 0 3 (omega arith)

record_at-holder_example :
    record_at memory 2 two_streams 2 0
    ≡ some (
        memory.get two_streams (record_key (holder memory two_streams 1 2 chain 0) 0) >>= λ v.
        ok (payload_of v))
record_at-holder_example = record_at-holder memory two_streams 1 2 chain 0 (omega arith)

abbrev no_parser : Bytes → Option Bytes
no_parser ct = none

abbrev no_json : JsonLib
no_json = record { unmarshal_array = λ b. none; valid = λ b. false; compact = λ b. none }

abbrev params : CreateParams
params = record {
  path = b'n' ∷ [];
  content_type = b'a' ∷ [];
  ttl = 60;
  ttl_set = true;
  expires_at = 0;
  expires_set = false;
  closed = false;
  body = b'h' ∷ b'i' ∷ [];
}

abbrev server : Server memory
server = record { db = two_streams; next_id = 3; resident = []; deletions = [] }

short :
    (recs : List Bytes)
    → initial_records memory no_parser no_json params ≡ go recs
    → length recs < 2 ^ 64
unfolding initial_records is_json_stream media_type trim_space to_lower bytes_eq
short [] h = omega arith
short (r ∷ []) h = omega arith
short (r ∷ q ∷ recs) h = cc

answered : (create_stream memory no_parser no_json 100 100000 params server).0.status ≡ 201
unfolding create_stream check_tombstone load_tombstone load_meta initial_records run_ops bytes_eq
    record_key tombstone_key meta_key id_mapping_key is_json_stream media_type trim_space to_lower
answered = refl

abbrev IsCreated : Type 0
IsCreated =
    let r = create_stream memory no_parser no_json 100 100000 params server in
    (recs : List Bytes) × (initial_records memory no_parser no_json params ≡ go recs)
    × (load_meta memory two_streams (b'n' ∷ []) ≡ ok none)
    × (r.0 ≡ created 201 (b'a' ∷ []) (tail_offset (length recs)) false)
    × (r.1.next_id ≡ 4)
    × IsNew (memory.view two_streams) (memory.view r.1.db) 100 (new_meta 3 100 100000 params) params
        recs

create_stream-IsNew_example : IsCreated
create_stream-IsNew_example =
    create_stream-IsNew memory no_parser no_json 100 100000 params server (omega arith) short
      answered

abbrev forkable : memory.Db
forkable =
    (meta_key (b's' ∷ []), marshal plain)
    ∷ (id_mapping_key 1, b's' ∷ [])
    ∷ (tail_key 1, marshal_tail 2 0)
    ∷ (record_key 1 1, marshal_record 0 (b'x' ∷ b'y' ∷ []))
    ∷ []

-- In the middle of the record 1.
abbrev fork_params : ForkParams
fork_params = record {
  path = b'f' ∷ [];
  source_path = b's' ∷ [];
  fork_offset_raw = to_string (record { seq = 1; byte = 0 });
  sub_offset_raw = b'1' ∷ [];
  sub_offset_set = true;
  content_type = [];
  ttl = 0;
  ttl_set = false;
  expires_at = 0;
  expires_set = false;
  closed = false;
  body = [];
}

abbrev fork_plan : ForkPlan
fork_plan = record { source = plain; content_type = b'a' ∷ []; divergence = (1, 1) }

fork_planned : plan_fork memory no_parser 1 forkable fork_params ≡ go fork_plan
unfolding plan_fork load_source check_tombstone load_tombstone load_meta bytes_eq record_key
    tombstone_key meta_key id_mapping_key tail_key be64 be unmarshal_meta marshal rd_u64
    rd_content_type append_u16 append_u64 be_uint be_uint_from is_json_stream media_type trim_space
    to_lower load_tail_seq unmarshal_tail marshal_tail to_string pad_digits parse_offset parse_uint
    parse_strict_uint record_at resolve_segments_by_id load_meta_by_id record_payload marshal_record
fork_planned = refl

abbrev deleting : Server memory
deleting = record server { db = forkable }

abbrev timed : StreamMeta
timed = record plain { deadline = 50 }

abbrev after_delete : Server memory
after_delete = (delete_one memory (b's' ∷ []) timed deleting).2

delete_one-IsRemoved_example :
    IsRemoved (b's' ∷ []) timed (memory.view after_delete.db)
    × (lookup (b's' ∷ []) after_delete.resident ≡ none)
    × (after_delete.deletions ≡ 1 ∷ [])
unfolding delete_one
delete_one-IsRemoved_example =
    delete_one-IsRemoved memory (b's' ∷ []) timed deleting (omega arith) (omega arith) (λ h. cc)
      refl

abbrev entry : DueEntry
entry = record { deadline = 50; id = 1; key = expiry_key 50 1 }

expire_if_due-cases_example :
    IsExpired memory 1 entry 60 deleting (expire_if_due memory 1 entry 60 deleting)
    ⊎ IsKept memory (meta_key (b's' ∷ [])) deleting (expire_if_due memory 1 entry 60 deleting)
unfolding expiry_key meta_key bytes_eq
expire_if_due-cases_example =
    expire_if_due-cases memory 1 entry 60 deleting (meta_key (b's' ∷ [])) refl
