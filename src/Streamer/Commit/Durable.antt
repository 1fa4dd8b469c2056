-- ===== src/Streamer/Commit/Durable.antt =====
-- A burst in sync mode, from the requests to the store: what was acknowledged is there, and a failed
-- commit hides nothing that readers had.
use yasdb.Prelude.{
  ℕ, zero, suc, ◌+◌, ◌^◌, ◌<◌, ◌≡◌, refl, ap, ap₂, ◌∙◌, inl, inr, Bool, true, false, Option, some,
  List, [], ◌∷◌, length, get_elem?, arith, Result, ok, err, Err,
}
use yasdb.Prelude.Bytes.{Bytes}
use yasdb.Keys.{tail_key, record_key}
use yasdb.Meta.{marshal_record, marshal_tail, rec_flag_none}
use yasdb.Storage.{Storage, View, AllOrNothing, apply_ops}
use yasdb.Storage.View.{apply_ops-Untouched}
use yasdb.Streamer.{AppendReq, AppendResp, bare, Streamer, Pending}
use yasdb.Streamer.Load.Core.{SameCore}
use yasdb.Streamer.Burst.{CommitBurst, to_commit, plan_burst, assemble}
use yasdb.Streamer.Burst.Numbers.{accepted_records, apply_ops-record_ops, record_ops-Untouched}
use yasdb.Streamer.Burst.Batch.{Assembled, plan_burst-Assembled, assemble-record, assemble-tail}
use yasdb.Streamer.Commit.{
  run_sync, sync_outcome, sync_result, apply_writer, apply_reader, publish, publish_writer_seq,
  fail_accepted,
}

-- The i-th accepted record of a burst is stored under the i-th number after the tail, and the tail
-- itself counts them all.
pub record Stored (s : Streamer) (now : ℕ) (recs : List Bytes) (view : View) : Type 0 where
  pub records :
      (i : ℕ) (rec : Bytes)
      → get_elem? recs i ≡ some rec
      → view (record_key s.id (s.write_tail + i)) ≡ some (marshal_record rec_flag_none rec)
  pub tail : view (tail_key s.id) ≡ some (marshal_tail (s.write_tail + length recs) now)

batch-Stored :
    (s : Streamer) (now : ℕ) (batch : List AppendReq) (c : CommitBurst) (t : Streamer)
    (view after : View)
    → s.id < 2 ^ 64
    → s.write_tail + length (accepted_records batch c.responses) < 2 ^ 64
    → Assembled s now batch c t
    → ((k : Bytes) → after k ≡ apply_ops c.ops view k)
    → Stored s now (accepted_records batch c.responses) after
batch-Stored s now batch c t view after hid h a done = record {
  records = λ i rec g.
      done _
      ∙ ap (λ ops. apply_ops ops view (record_key s.id (s.write_tail + i))) a.ops
      ∙ assemble-record t c.pend a.closes view s.id (s.write_tail + i)
      ∙ rw a.records (apply_ops-record_ops s.id s.write_tail i _ view rec hid h g);
  tail =
      done _
      ∙ ap (λ ops. apply_ops ops view (tail_key s.id)) a.ops
      ∙ ap (λ i. apply_ops (assemble t c.pend a.closes) view (tail_key i)) a.core.id
      ∙ assemble-tail t c.pend a.closes view
      ∙ ap₂ (λ n u. some (marshal_tail n u)) (omega arith) a.same_now;
}

-- A batch that stores records from the tail on leaves those below the tail alone, whatever became of it.
below-kept :
    (s : Streamer) (now : ℕ) (batch : List AppendReq) (c : CommitBurst) (t : Streamer)
    (view after : View) (seq : ℕ)
    → s.id < 2 ^ 64
    → s.write_tail + length (accepted_records batch c.responses) < 2 ^ 64
    → Assembled s now batch c t
    → AllOrNothing c.ops view after
    → seq < s.write_tail
    → after (record_key s.id seq) ≡ view (record_key s.id seq)
below-kept s now batch c t view after seq hid h a (inl nothing) lt = nothing (record_key s.id seq)
below-kept s now batch c t view after seq hid h a (inr all) lt =
    all (record_key s.id seq)
    ∙ ap (λ ops. apply_ops ops view (record_key s.id seq)) a.ops
    ∙ assemble-record t c.pend a.closes view s.id seq
    ∙ ap (λ ops. apply_ops ops view (record_key s.id seq)) a.records
    ∙ apply_ops-Untouched (record_key s.id seq) _ view
        (record_ops-Untouched s.id seq s.write_tail (accepted_records batch c.responses) hid lt h)

apply_writer-tail :
    (pend : Pending) (changed : Bool) (s : Streamer)
    → (apply_writer pend changed s).write_tail ≡ pend.tail
unfolding apply_writer publish_writer_seq
apply_writer-tail pend changed s = ground arith

publish-tails :
    (c : CommitBurst) (s : Streamer)
    → ((publish c s).tail ≡ c.pend.tail) × ((publish c s).write_tail ≡ s.write_tail)
unfolding publish apply_reader
publish-tails c s = (refl, refl)

fail_accepted-status :
    (e : Err) (resps : List (AppendResp × Bool)) (i : ℕ) (resp : AppendResp)
    → get_elem? resps i ≡ some (resp, true)
    → get_elem? (fail_accepted e resps) i ≡ some (record (bare 500) { error = some e }, true)
unfolding fail_accepted
fail_accepted-status e [] i resp h = cc
fail_accepted-status e ((r, b) ∷ resps) zero resp h = ground arith
fail_accepted-status e ((r, b) ∷ resps) (suc i) resp h = fail_accepted-status e resps i resp h

fail_accepted-refused :
    (e : Err) (resps : List (AppendResp × Bool)) (i : ℕ) (resp : AppendResp)
    → get_elem? resps i ≡ some (resp, false)
    → get_elem? (fail_accepted e resps) i ≡ some (resp, false)
unfolding fail_accepted
fail_accepted-refused e [] i resp h = cc
fail_accepted-refused e ((r, b) ∷ resps) zero resp h = ground arith
fail_accepted-refused e ((r, b) ∷ resps) (suc i) resp h = fail_accepted-refused e resps i resp h

module _ (store : Storage) (parse_media_type : Bytes → Option Bytes) where
  open store use {Db, view, commit, commit-ok, commit-err}

  committed :
      (c : CommitBurst) (r : Result (Unit {0}) × Db) (s : Streamer)
      → r.0 ≡ ok tt
      → sync_result store parse_media_type c r s
        ≡ (c.responses, r.1, publish c (apply_writer c.pend c.meta_changed s))
  unfolding sync_result
  committed c (ok done, db) s h = refl
  committed c (err e, db) s h = cc

  not_committed :
      (c : CommitBurst) (r : Result (Unit {0}) × Db) (s : Streamer) {e : Err}
      → r.0 ≡ err e
      → sync_result store parse_media_type c r s ≡ (fail_accepted e c.responses, r.1, s)
  unfolding sync_result
  not_committed c (ok done, db) s h = cc
  not_committed c (err f, db) s {e} h = let same : f ≡ e = cc in rw same

  -- The outcome of a burst whose durable write succeeds.
  pub run_sync-committed :
      (db : Db) (now : ℕ) (batch : List AppendReq) (s : Streamer) (c : CommitBurst) (t : Streamer)
      → plan_burst store parse_media_type db now batch s ≡ (to_commit c, t)
      → (commit db c.ops true).0 ≡ ok tt
      → run_sync store parse_media_type db now batch s
        ≡ (c.responses, (commit db c.ops true).1, publish c (apply_writer c.pend c.meta_changed t))
  unfolding run_sync sync_outcome
  run_sync-committed db now batch s c t planned done =
      rw planned (committed c (commit db c.ops true) t done)

  -- When the durable write of a burst succeeds, every request is answered as it was planned, each
  -- accepted record is stored under its own number, from the streamer's tail on with none left
  -- out, the stored tail counts them, and readers and the writer see that tail. The stream's id
  -- and the new tail are below 2 ^ 64.
  pub run_sync-durable :
      (db : Db) (now : ℕ) (batch : List AppendReq) (s : Streamer) (c : CommitBurst) (t : Streamer)
      → s.id < 2 ^ 64
      → s.write_tail + length (accepted_records batch c.responses) < 2 ^ 64
      → plan_burst store parse_media_type db now batch s ≡ (to_commit c, t)
      → (commit db c.ops true).0 ≡ ok tt
      → let r = run_sync store parse_media_type db now batch s in
        let recs = accepted_records batch c.responses in
        (r.0 ≡ c.responses)
        × Stored s now recs (view r.1)
        × (r.2.tail ≡ s.write_tail + length recs)
        × (r.2.write_tail ≡ s.write_tail + length recs)
  unfolding run_sync sync_outcome
  run_sync-durable db now batch s c t hid h planned done =
      let a =
        plan_burst-Assembled store parse_media_type db now batch s c t (omega arith) planned in
      let w = apply_writer c.pend c.meta_changed t in
      rw (planned, committed c (commit db c.ops true) t done)
        (
          refl,
          batch-Stored s now batch c t (view db) (view (commit db c.ops true).1) hid h a
              (λ k. commit-ok db c.ops true k done),
          omega (arith, a.tail, publish-tails c w),
          omega (arith, a.tail, publish-tails c w, apply_writer-tail c.pend c.meta_changed t),
        )

  -- When the durable write of a burst fails, whether or not the engine has applied the batch, every
  -- accepted request is answered 500 with the error and every other one as it was planned, the
  -- streamer keeps its tail, its metadata and its closure, only its caches may have grown, and each
  -- record below the tail is stored as before. The stream's id and the tail that the burst would
  -- have come to are below 2 ^ 64.
  pub run_sync-failed :
      (db : Db) (now : ℕ) (batch : List AppendReq) (s : Streamer) (c : CommitBurst) (t : Streamer)
      (e : Err)
      → s.id < 2 ^ 64
      → s.write_tail + length (accepted_records batch c.responses) < 2 ^ 64
      → plan_burst store parse_media_type db now batch s ≡ (to_commit c, t)
      → (commit db c.ops true).0 ≡ err e
      → let r = run_sync store parse_media_type db now batch s in
        ((i : ℕ) (resp : AppendResp)
          → get_elem? c.responses i ≡ some (resp, true)
          → get_elem? r.0 i ≡ some (record (bare 500) { error = some e }, true))
        × ((i : ℕ) (resp : AppendResp)
            → get_elem? c.responses i ≡ some (resp, false)
            → get_elem? r.0 i ≡ some (resp, false))
        × SameCore s r.2
        × ((seq : ℕ)
            → seq < s.write_tail
            → view r.1 (record_key s.id seq) ≡ view db (record_key s.id seq))
  unfolding run_sync sync_outcome
  run_sync-failed db now batch s c t e hid h planned failed =
      let a =
        plan_burst-Assembled store parse_media_type db now batch s c t (omega arith) planned in
      rw (planned, not_committed c (commit db c.ops true) t failed)
        (
          λ i resp g. fail_accepted-status e c.responses i resp g,
          λ i resp g. fail_accepted-refused e c.responses i resp g,
          a.core,
          λ seq lt.
              below-kept s now batch c t (view db) (view (commit db c.ops true).1) seq hid h a
                (commit-err db c.ops true failed) lt,
        )
