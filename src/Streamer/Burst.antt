-- ===== src/Streamer/Burst.antt =====
-- `processBurst` of internal/ds/streamer.go up to the commit: each append of the burst is planned against
-- one view, and the accepted effects become one batch.
pub mod Numbers
pub mod Batch
use yasdb.Prelude.{
  ℕ, ◌+◌, Bool, true, false, ◌&&◌, ◌||◌, not, Option, none, some, List, [], ◌∷◌, ◌++◌, ltb, ◌==◌,
  if◌then◌else◌, length,
}
use yasdb.Prelude.Bytes.{Bytes}
use yasdb.Prelude.Map.{Map}
use yasdb.Wire.{u64_value}
use yasdb.Keys.{tail_key, producer_key, writer_seq_key, expiry_key, meta_key}
use yasdb.Meta.{ProducerState, marshal, marshal_tail, marshal_producer, record_payload}
use yasdb.Storage.{Op, put, delete, Storage}
use yasdb.LiveCache.{LiveCache}
use yasdb.Streamer.{AppendReq, AppendResp, Streamer, Pending}
use yasdb.Streamer.Plan.{plan_append}

abbrev pub start_pending : Streamer → ℕ → Pending
start_pending s now = record {
  tail = s.write_tail;
  closed = s.meta.closed;
  deadline = s.meta.deadline;
  producers = none;
  writer_seq = none;
  record_ops = [];
  now = now;
}

-- `commitBurst`: a response and whether it was accepted for each request, in order; the cache segment
-- is the first number and the payloads.
pub record CommitBurst : Type 0 where
  pub pend : Pending
  pub ops : List Op
  pub responses : List (AppendResp × Bool)
  pub meta_changed : Bool
  pub seg_first : ℕ
  pub seg_payloads : List Bytes

unfoldable pub producer_ops : ℕ → Map ProducerState → List Op
producer_ops id [] = []
producer_ops id ((pid, ps) ∷ m) =
    put (producer_key id pid) (marshal_producer ps) ∷ producer_ops id m

unfoldable pub producer_ops? : ℕ → Option (Map ProducerState) → List Op
producer_ops? id none = []
producer_ops? id (some m) = producer_ops id m

unfoldable pub writer_seq_ops : ℕ → Option Bytes → List Op
writer_seq_ops id none = []
writer_seq_ops id (some v) = put (writer_seq_key id) v ∷ []

abbrev pub deadline_changed : Streamer → Pending → Bool
deadline_changed s pend = not (pend.deadline == s.meta.deadline)

unfoldable pub deadline_ops : Streamer → Pending → List Op
deadline_ops s pend =
    if deadline_changed s pend
    then put (expiry_key pend.deadline s.id) (u64_value s.meta.ttl_seconds)
      ∷ (if ltb 0 s.meta.deadline then delete (expiry_key s.meta.deadline s.id) ∷ [] else [])
    else []

unfoldable pub meta_ops : Streamer → Pending → Bool → List Op
meta_ops s pend changed =
    if changed
    then put (meta_key s.path)
        (marshal (record s.meta { closed = pend.closed; deadline = pend.deadline }))
      ∷ []
    else []

-- One batch from the final view.
unfoldable pub assemble : Streamer → Pending → Bool → List Op
assemble s pend meta_changed =
    pend.record_ops
    ++ (put (tail_key s.id) (marshal_tail pend.tail pend.now)
        ∷ (producer_ops? s.id pend.producers
            ++ (writer_seq_ops s.id pend.writer_seq
                ++ (deadline_ops s pend
                    ++ meta_ops s pend (deadline_changed s pend || meta_changed)))))

is_none {ℓ} : {A : Type ℓ} → Option A → Bool
is_none none = true
is_none (some a) = false

is_nil {ℓ} : {A : Type ℓ} → List A → Bool
is_nil [] = true
is_nil (x ∷ xs) = false

-- `nothing`: the burst has no effect to commit.
unfoldable pub no_effect : Streamer → Pending → Bool → Bool
unfolding is_none is_nil
no_effect s pend meta_changed =
    is_nil pend.record_ops
    && (not meta_changed
        && (is_none pend.writer_seq && (is_none pend.producers && not (deadline_changed s pend))))

unfoldable pub op_payloads : List Op → List Bytes
op_payloads [] = []
op_payloads (op ∷ ops) = record_payload op.val ∷ op_payloads ops

-- Whether the burst is kept for the live cache: only with a cache, records and readers.
captures : Streamer → Pending → Bool
captures s pend = not (is_none s.cache) && (not (is_nil pend.record_ops) && ltb 0 s.live_readers)

unfoldable pub burst_of : Streamer → Pending → List (AppendResp × Bool) → Bool → CommitBurst
unfolding captures is_none is_nil
burst_of s pend responses meta_changed = record {
  pend = pend;
  ops = assemble s pend meta_changed;
  responses = responses;
  meta_changed = deadline_changed s pend || meta_changed;
  seg_first = if captures s pend then s.write_tail else 0;
  seg_payloads = if captures s pend then op_payloads pend.record_ops else [];
}

-- What the planning of a burst gives: replies without a commit, or a burst to commit.
pub data Outcome : Type 0 where
  replied : List (AppendResp × Bool) → Outcome
  to_commit : CommitBurst → Outcome

module _ (store : Storage) (parse_media_type : Bytes → Option Bytes) where
  open store use {Db}

  -- The loop over the batch: the responses, whether an accepted one closes, the view, the streamer.
  unfoldable pub plan_batch :
      Db
      → List AppendReq
      → Pending
      → Streamer
      → List (AppendResp × Bool) × Bool × Pending × Streamer
  plan_batch db [] pend s = ([], false, pend, s)
  plan_batch db (req ∷ batch) pend s =
      let (resp, accepted, pend1, s1) = plan_append store parse_media_type db pend req s in
      let (responses, closes, pend2, s2) = plan_batch db batch pend1 s1 in
      ((resp, accepted) ∷ responses, (accepted && req.close_stream) || closes, pend2, s2)

  unfoldable pub plan_burst : Db → ℕ → List AppendReq → Streamer → Outcome × Streamer
  unfolding burst_of
  plan_burst db now batch s =
      let (responses, closes, pend, s1) = plan_batch db batch (start_pending s now) s in
      if no_effect s1 pend closes
      then (replied responses, s1)
      else (to_commit (burst_of s1 pend responses closes), s1)
