-- ===== src/Streamer/Commit.antt =====
-- What happens to a planned burst: `applyWriter`, `applyReader`, `failAccepted` of
-- internal/ds/streamer.go, and for both durability modes the `commit` of internal/ds/commit.go.
pub mod Durable
pub mod Retry
pub mod Closed
use yasdb.Prelude.{
  ℕ, ◌+◌, ◌-◌, Bool, true, false, ◌&&◌, ◌||◌, Option, none, some, List, [], ◌∷◌, ltb, if◌then◌else◌,
  Result, ok, err, Err,
}
use yasdb.Prelude.Bytes.{Bytes}
use yasdb.Prelude.Map.{Map, insert}
use yasdb.Meta.{ProducerState}
use yasdb.Storage.{Op, Storage}
use yasdb.LiveCache
use yasdb.LiveCache.{LiveCache}
use yasdb.Streamer.{AppendReq, AppendResp, bare, Streamer, Pending}
use yasdb.Streamer.Burst.{CommitBurst, Outcome, replied, to_commit, plan_burst}

unfoldable pub insert_all : Map ProducerState → Map ProducerState → Map ProducerState
insert_all [] m = m
insert_all ((pid, ps) ∷ rest) m = insert_all rest (insert pid ps m)

unfoldable pub merge_producers : Option (Map ProducerState) → Map ProducerState → Map ProducerState
merge_producers none m = m
merge_producers (some new) m = insert_all new m

publish_writer_seq : Option Bytes → Streamer → Streamer
publish_writer_seq none s = s
publish_writer_seq (some v) s = record s { writer_seq = v; writer_seq_loaded = true }

unfoldable pub apply_writer : Pending → Bool → Streamer → Streamer
unfolding publish_writer_seq
apply_writer pend meta_changed s =
    let meta1 =
      if meta_changed
      then record s.meta { closed = pend.closed; deadline = pend.deadline }
      else s.meta in
    publish_writer_seq pend.writer_seq (record s {
      write_tail = pend.tail;
      meta = meta1;
      producers = merge_producers pend.producers s.producers;
    })

-- The cache takes the segment while readers are parked, and is dropped otherwise.
next_cache : ℕ → ℕ → List Bytes → Option LiveCache → Option LiveCache
next_cache readers first payloads none = none
next_cache readers first payloads (some c) =
    some (if ltb 0 readers then LiveCache.append first payloads c else LiveCache.reset c)

unfoldable pub apply_reader : ℕ → Bool → ℕ → List Bytes → Streamer → Streamer
unfolding next_cache
apply_reader tail closed seg_first seg_payloads s = record s {
  cache = next_cache s.live_readers seg_first seg_payloads s.cache;
  tail = tail;
  closed = closed || s.closed;
  wake_requests = if ltb 0 s.live_readers then s.wake_requests + 1 else s.wake_requests;
}

-- `failAccepted`, and then `replyAll`: what each request is answered.
unfoldable pub fail_accepted : Err → List (AppendResp × Bool) → List (AppendResp × Bool)
fail_accepted e [] = []
fail_accepted e ((resp, accepted) ∷ rest) =
    ((if accepted then record (bare 500) { error = some e } else resp), accepted)
    ∷ fail_accepted e rest

-- The reader's half of a burst.
unfoldable pub publish : CommitBurst → Streamer → Streamer
unfolding apply_reader
publish c s =
    apply_reader c.pend.tail (c.meta_changed && c.pend.closed) c.seg_first c.seg_payloads s

-- `sharedCommitter.commit` on an open committer: the writer's view advances at once, the rest waits.
unfoldable pub stage_job : CommitBurst → Streamer → Streamer
unfolding apply_writer
stage_job c s =
    let s1 = apply_writer c.pend c.meta_changed s in record s1 { pending = s1.pending + 1 }

-- `failJob`.
unfoldable pub fail_job : Err → CommitBurst → Streamer → List (AppendResp × Bool) × Streamer
unfolding fail_accepted
fail_job e c s = (fail_accepted e c.responses, record s { pending = s.pending - 1 })

-- The callback that `runFlush` subscribes, on the notifier's error or nil.
unfoldable pub durable_callback :
    Option Err → CommitBurst → Streamer → List (AppendResp × Bool) × Streamer
unfolding publish
durable_callback none c s =
    let s1 = publish c s in (c.responses, record s1 { pending = s1.pending - 1 })
durable_callback (some e) c s = fail_job e c s

module _ (store : Storage) (parse_media_type : Bytes → Option Bytes) where
  open store use {Db, commit}

  -- `syncCommitter.commit`, on the result of the durable write.
  sync_result :
      CommitBurst → Result (Unit {0}) × Db → Streamer → List (AppendResp × Bool) × Db × Streamer
  unfolding publish apply_writer fail_accepted
  sync_result c (err e, db) s = (fail_accepted e c.responses, db, s)
  sync_result c (ok done, db) s =
      (c.responses, db, publish c (apply_writer c.pend c.meta_changed s))

  sync_outcome : Db → Outcome × Streamer → List (AppendResp × Bool) × Db × Streamer
  unfolding sync_result
  sync_outcome db (replied responses, s) = (responses, db, s)
  sync_outcome db (to_commit c, s) = sync_result c (commit db c.ops true) s

  -- A whole burst in sync mode: the answers, the store and the streamer after it.
  unfoldable pub run_sync :
      Db → ℕ → List AppendReq → Streamer → List (AppendResp × Bool) × Db × Streamer
  unfolding sync_outcome
  run_sync db now batch s = sync_outcome db (plan_burst store parse_media_type db now batch s)
