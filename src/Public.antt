-- ===== src/Public.antt =====
-- The operations of the Go API: internal/ds/public.go. The context of a call and the wording of errors are left
-- out; the decoding of State Protocol messages (encoding/json) is a parameter.
pub mod Append
pub mod Answer
pub mod Materialize
mod Tests
use yasdb.Prelude.{
  ℕ, Bool, true, false, ◌&&◌, ◌||◌, not, Option, none, some, List, [], ◌∷◌, ◌==◌, if◌then◌else◌,
  ltb, length, Result, ok, err, Err,
}
use yasdb.Prelude.Bytes.{Bytes}
use yasdb.Prelude.Map.{lookup}
use yasdb.ContentType.{is_json_stream}
use yasdb.Offset.{Offset}
use yasdb.Meta.{StreamMeta}
use yasdb.Storage.{Storage}
use yasdb.Streamer.{Streamer, AppendReq, AppendResp}
use yasdb.Server.{Server, CreateResult, load_meta, load_tombstone, tomb_soft_delete}
use yasdb.Server.Spawn.{CacheConfig, get_or_spawn}
use yasdb.Live.Catchup.{LiveState, no_state, live_state, is_gone, found_or_zero}

-- The errors of the API; `because` passes one of the storage on.
pub data PublicErr : Type 0 where
  err_not_found err_gone err_conflict err_stream_closed err_bad_request err_internal : PublicErr
  err_not_state_protocol : PublicErr
  because : Err → PublicErr
  append_failed : ℕ → PublicErr

pub data Returned {ℓ} (Value : Type ℓ) : Type ℓ where
  returned : Value → Returned Value
  raised : PublicErr → Returned Value

pub record StreamInfo : Type 0 where
  pub stream_id : ℕ
  pub content_type : Bytes
  pub is_json : Bool
  pub closed : Bool
  pub tail : ℕ
  pub forked_from : ℕ
  pub fork_offset : ℕ
  pub ttl_seconds : ℕ
  pub expires_at : ℕ

-- `switch res.status`
unfoldable pub create_result_to_offset : CreateResult → Returned Offset
create_result_to_offset res =
    if res.status == 201 || res.status == 200
    then returned res.next_offset
    else (if res.status == 409
        then raised err_conflict
        else (if res.status == 404
            then raised err_not_found
            else (if res.status == 400 then raised err_bad_request else raised err_internal)))

unfoldable pub append_failure : AppendResp → Returned Offset
append_failure resp = elim resp.error [
  | some e ↦ raised (because e)
  | none ↦ raised (append_failed resp.status)
]

unfoldable pub append_resp_to_offset : AppendResp → Returned Offset
unfolding append_failure
append_resp_to_offset resp =
    if resp.status == 200 || resp.status == 204
    then returned resp.next_offset
    else (if resp.status == 409
        then raised err_stream_closed
        else (if resp.status == 404
            then raised err_not_found
            else (if resp.status == 400 then raised err_bad_request else append_failure resp)))

-- The request of an append or of a close: its content type is the stream's own.
unfoldable pub append_request : List Bytes → Bool → Streamer → AppendReq
append_request records close_stream st =
    let has_body = ltb 0 (length records) in
    record {
      records = records;
      has_body = has_body;
      content_type = if has_body then st.meta.content_type else [];
      close_stream = close_stream;
      stream_seq = none;
      producer = none;
    }

module _ (store : Storage) (parse_media_type : Bytes → Option Bytes) where
  open store use {Db}

  info_of : StreamMeta → Result (Option LiveState) → Returned StreamInfo
  unfolding found_or_zero
  info_of meta (err e) = raised (because e)
  info_of meta (ok found) =
      let live = found_or_zero store found in
      returned (record {
        stream_id = meta.stream_id;
        content_type = meta.content_type;
        is_json = is_json_stream parse_media_type meta.content_type;
        closed = live.closed;
        tail = live.tail;
        forked_from = meta.forked_from;
        fork_offset = meta.fork_offset;
        ttl_seconds = meta.ttl_seconds;
        expires_at = meta.expires_at;
      })

  info_found : Server store → Bytes → Result (Option StreamMeta) → Returned StreamInfo
  unfolding info_of
  info_found s path (err e) = raised (because e)
  info_found s path (ok none) = raised err_not_found
  info_found s path (ok (some meta)) = info_of meta (live_state store s path)

  info_checked : Server store → Bytes → Result (Option (ℕ × ℕ)) → Returned StreamInfo
  unfolding info_found is_gone
  info_checked s path (err e) = raised (because e)
  info_checked s path (ok tomb) =
      if is_gone tomb then raised err_gone else info_found s path (load_meta store s.db path)

  unfoldable pub info : Server store → Bytes → Returned StreamInfo
  unfolding info_checked
  info s path = info_checked s path (load_tombstone store s.db path)

  -- What `appendOrClose` and `Tail` look up before they go on; the tombstone of a stream that is not resident is
  -- read first by the one and last by the other.
  spawned_or : Result (Option Streamer) × Server store → Returned Streamer × Server store
  spawned_or (err e, s) = (raised (because e), s)
  spawned_or (ok none, s) = (raised err_not_found, s)
  spawned_or (ok (some st), s) = (returned st, s)

  append_checked :
      CacheConfig
      → Server store
      → Bytes
      → Result (Option (ℕ × ℕ))
      → Returned Streamer × Server store
  unfolding spawned_or is_gone
  append_checked cfg s path (err e) = (raised (because e), s)
  append_checked cfg s path (ok tomb) =
      if is_gone tomb then (raised err_gone, s) else spawned_or (get_or_spawn store cfg s path)

  append_resident :
      CacheConfig → Server store → Bytes → Option Streamer → Returned Streamer × Server store
  unfolding append_checked
  append_resident cfg s path (some st) = (returned st, s)
  append_resident cfg s path none = append_checked cfg s path (load_tombstone store s.db path)

  unfoldable pub append_target :
      CacheConfig → Server store → Bytes → Returned Streamer × Server store
  unfolding append_resident
  append_target cfg s path = append_resident cfg s path (lookup path s.resident)

  tail_missing : Result (Option (ℕ × ℕ)) → Returned Streamer
  unfolding is_gone
  tail_missing (err e) = raised (because e)
  tail_missing (ok tomb) = if is_gone tomb then raised err_gone else raised err_not_found

  tail_found : Bytes → Result (Option Streamer) × Server store → Returned Streamer × Server store
  unfolding tail_missing
  tail_found path (err e, s) = (raised (because e), s)
  tail_found path (ok none, s) = (tail_missing (load_tombstone store s.db path), s)
  tail_found path (ok (some st), s) = (returned st, s)

  -- `Tail`: the streamer of a live cursor.
  unfoldable pub tail_target : CacheConfig → Server store → Bytes → Returned Streamer × Server store
  unfolding tail_found
  tail_target cfg s path = tail_found path (get_or_spawn store cfg s path)
