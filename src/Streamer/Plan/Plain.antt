-- ===== src/Streamer/Plan/Plain.antt =====
-- An append with neither producer nor Stream-Seq: `planAppend` of internal/ds/streamer.go.
use yasdb.Prelude.{◌≡◌, refl, Bool, true, false, ◌&&◌, not, Option, none, List}
use yasdb.Prelude.Bytes.{Bytes}
use yasdb.ContentType.{content_type_matches}
use yasdb.Storage.{Storage}
use yasdb.Streamer.{AppendReq, Streamer, Pending, admit}
use yasdb.Streamer.Plan.{
  plan_append, plan_append_closed, check_producer, check_stream_seq, plan_checked,
}

abbrev pub plain : List Bytes → Bool → Bytes → Bool → AppendReq
plain records has_body content_type close_stream = record {
  records = records;
  has_body = has_body;
  content_type = content_type;
  close_stream = close_stream;
  stream_seq = none;
  producer = none;
}

module _ (store : Storage) (parse_media_type : Bytes → Option Bytes) where
  open store use {Db}

  -- On an open stream of its type it is admitted.
  pub plan_append-plain :
      (db : Db) (pend : Pending) (records : List Bytes) (has_body : Bool) (ct : Bytes)
      (close : Bool) (s : Streamer)
      → pend.closed ≡ false
      → (has_body && not (content_type_matches parse_media_type s.meta.content_type ct)) ≡ false
      → plan_append store parse_media_type db pend (plain records has_body ct close) s
        ≡ admit s pend (plain records has_body ct close) none
  unfolding plan_append check_producer check_stream_seq plan_checked
  plan_append-plain db pend records has_body ct close s open_stream typed =
      rw (open_stream, typed) refl

  pub plan_append-plain_closed :
      (db : Db) (pend : Pending) (records : List Bytes) (has_body : Bool) (ct : Bytes)
      (close : Bool) (s : Streamer)
      → pend.closed ≡ true
      → plan_append store parse_media_type db pend (plain records has_body ct close) s
        ≡ plan_append_closed store parse_media_type db pend (plain records has_body ct close) s
  unfolding plan_append
  plan_append-plain_closed db pend records has_body ct close s shut = rw shut refl
