-- ===== src/Live/Catchup/Unchanged.antt =====
-- What a reply of 304 says: `readCatchup` of internal/ds/read.go.
use yasdb.Prelude.{
  ℕ, ◌≡◌, refl, sym, ap, subst, Bool, true, false, ◌&&◌, Option, none, some, if◌then◌else◌, Result,
  ok, err, arith,
}
use yasdb.Prelude.Bytes.{Bytes}
use yasdb.ContentType.{is_json_stream}
use yasdb.Offset.{Offset, ParsedOffset, to_string}
use yasdb.Meta.{StreamMeta}
use yasdb.Storage.{Storage}
use yasdb.Server.{Server}
use yasdb.Server.Read.{ReadResult, read_range}
use yasdb.Live.{Reply, http_error, make_etag}
use yasdb.Live.Etag.{make_etag_injective, etag_matches-make_etag}
use yasdb.Live.Catchup.{
  LiveState, catchup_reply, after_read, now_reply, serve_catchup, read_catchup, live_state,
  found_or_zero,
}

-- What a reply to a client with the ETag of an earlier reply tells, if it is 304.
abbrev Tells : Offset → Bool → Reply → Type 0
Tells end closed r = r.status ≡ 304 → (r.stream_next ≡ to_string end) × (r.stream_closed ≡ closed)

abbrev TellsIf : Offset → Bool → Option Reply → Type 0
TellsIf end closed none = Unit
TellsIf end closed (some r) = Tells end closed r

is_304 : (t : Bool) → ◌≡◌ {A = ℕ} (if t then 304 else 200) 304 → t ≡ true
is_304 true h = refl
is_304 false h = absurd (omega arith)

both_true : (a b : Bool) → (a && b) ≡ true → b ≡ true
both_true a b h = ground arith

catchup_reply-Tells :
    (meta : StreamMeta) (start end : Offset) (was_closed is_head closed : Bool)
    (served : Bytes × Offset × Bool)
    → Tells end was_closed (
        catchup_reply meta start
          (make_etag meta.stream_id start end was_closed)
          is_head
          closed
          served)
unfolding catchup_reply
catchup_reply-Tells meta start end was_closed is_head closed (body, next, up) h =
    let matched = both_true _ _ (is_304 _ h) in
    let same = etag_matches-make_etag meta.stream_id start end was_closed _ matched in
    let (e, c) = make_etag_injective meta.stream_id start end next was_closed (closed && up) same in
    (sym e, sym c)

after_read-Tells :
    (meta : StreamMeta) (start end : Offset) (was_closed is_head closed : Bool) (r : ReadResult)
    → Tells end was_closed
        (after_read meta start (make_etag meta.stream_id start end was_closed) is_head closed r)
unfolding after_read
after_read-Tells meta start end was_closed is_head closed (err e) h = absurd (omega arith)
after_read-Tells meta start end was_closed is_head closed (ok served) h =
    catchup_reply-Tells meta start end was_closed is_head closed served h

module _ (store : Storage) (parse_media_type : Bytes → Option Bytes) where
  open store use {Db}

  serve_catchup-Tells :
      (fuel : ℕ) (db : Db) (meta : StreamMeta) (po : ParsedOffset) (end : Offset)
      (was_closed is_head : Bool) (limit : ℕ) (live : LiveState)
      → TellsIf end was_closed (
          serve_catchup store parse_media_type fuel db meta po
            (make_etag meta.stream_id po.off end was_closed)
            is_head
            limit
            live)
  unfolding serve_catchup now_reply
  serve_catchup-Tells fuel db meta po end was_closed is_head limit live = go po.is_now (
      read_range store fuel db meta.stream_id meta.forked_from meta.fork_offset
        (is_json_stream parse_media_type meta.content_type) po.off live.tail limit)
    where
      go :
          (now : Bool) (read : Option ReadResult)
          → TellsIf end was_closed (
              if now
              then some (now_reply meta (is_json_stream parse_media_type meta.content_type) live)
              else elim read [
                | some r ↦ some (
                    after_read meta po.off
                      (make_etag meta.stream_id po.off end was_closed)
                      is_head
                      live.closed
                      r)
                | none ↦ none
              ])
      go true read = λ h. absurd (omega arith)
      go false none = tt
      go false (some r) = after_read-Tells meta po.off end was_closed is_head live.closed r

  -- A 304 hides neither new records nor the end of the stream: the reply to a client with the ETag of an
  -- earlier read of the stream from the same position has that read's next position and its closed flag.
  pub read_catchup-unchanged :
      (fuel : ℕ) (s : Server store) (path : Bytes) (meta : StreamMeta) (po : ParsedOffset)
      (end : Offset) (was_closed is_head : Bool) (limit : ℕ) {r : Reply}
      → read_catchup store parse_media_type fuel s path meta po
          (make_etag meta.stream_id po.off end was_closed)
          is_head
          limit
        ≡ some r
      → r.status ≡ 304
      → (r.stream_next ≡ to_string end) × (r.stream_closed ≡ was_closed)
  unfolding read_catchup
  read_catchup-unchanged fuel s path meta po end was_closed is_head limit {r} h status =
      go (live_state store s path) h
    where
      go :
          (l : Result (Option LiveState))
          → elim l [
            | ok live ↦
                serve_catchup store parse_media_type fuel s.db meta po
                  (make_etag meta.stream_id po.off end was_closed)
                  is_head
                  limit
                  (found_or_zero store live)
            | err e ↦ some (http_error 500)
          ]
            ≡ some r
          → (r.stream_next ≡ to_string end) × (r.stream_closed ≡ was_closed)
      go (ok live) g =
          subst (TellsIf end was_closed) g
            (serve_catchup-Tells fuel s.db meta po end was_closed is_head limit
              (found_or_zero store live))
            status
      go (err e) g = absurd (
          let n : 500 ≡ r.status =
            ap (λ (o : Option Reply). elim o [ some x ↦ x.status | none ↦ 0 ]) g in
          omega arith)
