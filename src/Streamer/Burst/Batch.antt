-- ===== src/Streamer/Burst/Batch.antt =====
-- The batch of a burst: its records, the tail, and nothing else under those keys.
use yasdb.Prelude.{
  ℕ, ◌+◌, ◌%◌, ◌^◌, ◌<◌, ◌≡◌, refl, ap, subst, ◌∙◌, ◌⊎◌, inl, inr, Bool, true, false, ◌||◌, Option,
  none, some, List, [], ◌∷◌, ◌++◌, ltb, length, arith, if-elim, All-append,
}
use yasdb.Prelude.Bytes.{Bytes, bytes_eq, bytes_eq_self}
use yasdb.Prelude.Map.{Map}
use yasdb.Keys.{tail_key, producer_key, writer_seq_key, expiry_key, meta_key, record_key}
use yasdb.Meta.{ProducerState, marshal_tail}
use yasdb.Storage.{Op, View, Storage, apply_ops}
use yasdb.Storage.View.{Untouched, apply_ops-append, apply_ops-Untouched}
use yasdb.Streamer.{AppendReq, AppendResp, Streamer, Pending, record_ops_from}
use yasdb.Streamer.Load.Core.{SameCore}
use yasdb.Streamer.Burst.{
  plan_batch, producer_ops, producer_ops?, writer_seq_ops, deadline_ops, deadline_changed, meta_ops,
  assemble, start_pending, CommitBurst, Outcome, replied, to_commit, plan_burst, no_effect,
  burst_of,
}
use yasdb.Streamer.Burst.Numbers.{Numbered, plan_batch-Numbered, accepted_records}

-- The kinds of the keys of records and tails.
abbrev pub RecordOrTail : ℕ → Type 0
RecordOrTail c = (c ≡ 3) ⊎ (c ≡ 4)

producer_ops-Untouched :
    (id c : ℕ) (k : Bytes) (m : Map ProducerState)
    → RecordOrTail c
    → Untouched (c ∷ k) (producer_ops id m)
unfolding producer_ops producer_key bytes_eq
producer_ops-Untouched id c k [] h = tt
producer_ops-Untouched id c k ((pid, ps) ∷ m) h = (ground arith, producer_ops-Untouched id c k m h)

producer_ops?-Untouched :
    (id c : ℕ) (k : Bytes) (m : Option (Map ProducerState))
    → RecordOrTail c
    → Untouched (c ∷ k) (producer_ops? id m)
unfolding producer_ops?
producer_ops?-Untouched id c k none h = tt
producer_ops?-Untouched id c k (some m) h = producer_ops-Untouched id c k m h

writer_seq_ops-Untouched :
    (id c : ℕ) (k : Bytes) (v : Option Bytes)
    → RecordOrTail c
    → Untouched (c ∷ k) (writer_seq_ops id v)
unfolding writer_seq_ops writer_seq_key bytes_eq
writer_seq_ops-Untouched id c k none h = tt
writer_seq_ops-Untouched id c k (some v) h = (ground arith, tt)

deadline_ops-Untouched :
    (s : Streamer) (pend : Pending) (c : ℕ) (k : Bytes)
    → RecordOrTail c
    → Untouched (c ∷ k) (deadline_ops s pend)
unfolding deadline_ops expiry_key bytes_eq
deadline_ops-Untouched s pend c k h =
    if-elim (Untouched (c ∷ k)) (deadline_changed s pend) _ _
      (λ changed. (
        ground arith,
        if-elim (Untouched (c ∷ k)) (ltb 0 s.meta.deadline) _ _ (λ had. (ground arith, tt))
            (λ first. tt),
      ))
      (λ same. tt)

meta_ops-Untouched :
    (s : Streamer) (pend : Pending) (changed : Bool) (c : ℕ) (k : Bytes)
    → RecordOrTail c
    → Untouched (c ∷ k) (meta_ops s pend changed)
unfolding meta_ops meta_key bytes_eq
meta_ops-Untouched s pend true c k h = (ground arith, tt)
meta_ops-Untouched s pend false c k h = tt

-- What `assemble` puts behind the records and the tail.
behind_tail : Streamer → Pending → Bool → List Op
behind_tail s pend closes =
    producer_ops? s.id pend.producers
    ++ (writer_seq_ops s.id pend.writer_seq
        ++ (deadline_ops s pend ++ meta_ops s pend (deadline_changed s pend || closes)))

behind_tail-Untouched :
    (s : Streamer) (pend : Pending) (closes : Bool) (c : ℕ) (k : Bytes)
    → RecordOrTail c
    → Untouched (c ∷ k) (behind_tail s pend closes)
unfolding behind_tail
behind_tail-Untouched s pend closes c k h =
    let free = λ (op : Op). bytes_eq op.key (c ∷ k) ≡ false in
    All-append free _ _ (producer_ops?-Untouched s.id c k pend.producers h) (
      All-append free _ _ (writer_seq_ops-Untouched s.id c k pend.writer_seq h) (
        All-append free _ _ (deadline_ops-Untouched s pend c k h)
          (meta_ops-Untouched s pend (deadline_changed s pend || closes) c k h)))

-- Under a record's key the batch leaves what its record operations put there.
pub assemble-record :
    (s : Streamer) (pend : Pending) (closes : Bool) (view : View) (id seq : ℕ)
    → apply_ops (assemble s pend closes) view (record_key id seq)
      ≡ apply_ops pend.record_ops view (record_key id seq)
unfolding assemble behind_tail record_key tail_key bytes_eq apply_ops
assemble-record s pend closes view id seq =
    ap (λ (v : View). v (record_key id seq)) (apply_ops-append pend.record_ops _ view)
    ∙ apply_ops-Untouched _ (behind_tail s pend closes) _
        (behind_tail-Untouched s pend closes 4 _ (inr refl))

-- Under the tail's key it leaves the view's tail.
pub assemble-tail :
    (s : Streamer) (pend : Pending) (closes : Bool) (view : View)
    → apply_ops (assemble s pend closes) view (tail_key s.id)
      ≡ some (marshal_tail pend.tail pend.now)
unfolding assemble behind_tail tail_key apply_ops
assemble-tail s pend closes view =
    ap (λ (v : View). v (tail_key s.id)) (apply_ops-append pend.record_ops _ view)
    ∙ (apply_ops-Untouched _ (behind_tail s pend closes) _
          (behind_tail-Untouched s pend closes 3 _ (inl refl))
        ∙ rw (bytes_eq_self (tail_key s.id)))

pub replied_ne :
    (responses : List (AppendResp × Bool)) (s : Streamer) (c : CommitBurst) (t : Streamer)
    → ◌≡◌ {A = Outcome × Streamer} (replied responses, s) (to_commit c, t)
    → ⊥
replied_ne responses s c t e = cc

-- What a burst to be committed is made of: the view that the planning left, from which `assemble`
-- made the batch.
pub record Assembled (s : Streamer) (now : ℕ) (batch : List AppendReq) (c : CommitBurst)
    (t : Streamer) : Type 0 where
  pub core : SameCore s t
  pub closes : Bool
  pub ops : c.ops ≡ assemble t c.pend closes
  pub records :
      c.pend.record_ops ≡ record_ops_from s.id s.write_tail (accepted_records batch c.responses)
  pub tail : c.pend.tail ≡ (s.write_tail + length (accepted_records batch c.responses)) % 2 ^ 64
  pub same_now : c.pend.now ≡ now

abbrev OfOutcome : Streamer → ℕ → List AppendReq → Outcome → Streamer → Type 0
OfOutcome s now batch (replied responses) t = Unit
OfOutcome s now batch (to_commit c) t = Assembled s now batch c t

burst_of-Assembled :
    (s : Streamer) (now : ℕ) (batch : List AppendReq)
    (p : List (AppendResp × Bool) × Bool × Pending × Streamer)
    → Numbered batch (start_pending s now) s p
    → Assembled s now batch (burst_of p.3 p.2 p.0 p.1) p.3
unfolding burst_of
burst_of-Assembled s now batch p n = record {
  core = n.core;
  closes = p.1;
  ops = refl;
  records = n.ops;
  tail = n.tail;
  same_now = n.same_now;
}

module _ (store : Storage) (parse_media_type : Bytes → Option Bytes) where
  open store use {Db, view}

  pub plan_burst-Assembled :
      (db : Db) (now : ℕ) (batch : List AppendReq) (s : Streamer) (c : CommitBurst) (t : Streamer)
      → s.write_tail < 2 ^ 64
      → plan_burst store parse_media_type db now batch s ≡ (to_commit c, t)
      → Assembled s now batch c t
  unfolding plan_burst
  plan_burst-Assembled db now batch s c t h =
      let p = plan_batch store parse_media_type db batch (start_pending s now) s in
      let n : Numbered batch (start_pending s now) s p =
        plan_batch-Numbered store parse_media_type db batch (start_pending s now) s h in
      if-elim (λ r. r ≡ (to_commit c, t) → Assembled s now batch c t) (no_effect p.3 p.2 p.1) _ _
        (λ nothing e. absurd (replied_ne _ _ c t e))
        (λ something e.
          subst (λ (r : Outcome × Streamer). OfOutcome s now batch r.0 r.1) e
            (burst_of-Assembled s now batch p n))
