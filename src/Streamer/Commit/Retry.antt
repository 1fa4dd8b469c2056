-- ===== src/Streamer/Commit/Retry.antt =====
-- What a client meets that sends an idempotent append again, after a commit and after a failed one.
use yasdb.Prelude.{
  ℕ, ◌+◌, ◌-◌, ◌^◌, ◌<◌, ◌≡◌, refl, ap, sym, subst, ◌∙◌, Bool, true, false, ◌&&◌, ◌||◌, not, Option,
  some, List, [], ◌∷◌, if◌then◌else◌, arith, if-elim, ok, Err, ==_self,
}
use yasdb.Prelude.Bytes.{Bytes, bytes_eq_self}
use yasdb.Prelude.Map.{Map, lookup, insert, lookup-insert}
use yasdb.Meta.{StreamMeta, ProducerState}
use yasdb.Producer.{ProducerHeaders}
use yasdb.ContentType.{content_type_matches}
use yasdb.Storage.{Storage}
use yasdb.Streamer.{AppendReq, AppendResp, Streamer, Pending, Planned, echo, bare}
use yasdb.Streamer.Load.Known.{Knows}
use yasdb.Streamer.Plan.{plan_append}
use yasdb.Streamer.Plan.Effects.{Effect, plan_append-Effect}
use yasdb.Streamer.Plan.Retry.{Accepted, fits, plan_append-known, plan_append-Accepted}
use yasdb.Streamer.Burst.{
  CommitBurst, Outcome, replied, to_commit, plan_burst, plan_batch, burst_of, no_effect,
  start_pending,
}
use yasdb.Streamer.Burst.Batch.{replied_ne}
use yasdb.Streamer.Commit.{
  run_sync, apply_writer, fail_accepted, apply_reader, publish, publish_writer_seq, merge_producers,
  insert_all, stage_job, fail_job,
}
use yasdb.Streamer.Commit.Durable.{run_sync-committed}

-- An open streamer that knows the request as an old one.
pub record Remembers (parse_media_type : Bytes → Option Bytes) (s : Streamer) (req : AppendReq)
    (h : ProducerHeaders) (st : ProducerState) : Type 0 where
  pub knows : Knows s h st
  pub fit : fits parse_media_type s req ≡ true
  pub still_open : s.meta.closed ≡ false

-- The answer to an old request: nothing is committed, and the streamer is as it was.
abbrev pub OldAnswer :
    Storage → (Bytes → Option Bytes) → AppendReq → ProducerHeaders → Streamer → Type 0
OldAnswer store parse_media_type req h s =
    (st : ProducerState) × (st.epoch ≡ h.epoch)
    × (st.last_seq ≡ h.seq)
    × ((db : store.Db) (now : ℕ)
        → plan_burst store parse_media_type db now (req ∷ []) s
          ≡ (replied ((echo s.write_tail false st, false) ∷ []), s))

insert_all-one :
    (id : Bytes) (st : ProducerState) (m : Map ProducerState)
    → lookup id (merge_producers (some (insert id st [])) m) ≡ some st
unfolding merge_producers insert_all insert
insert_all-one id st m = rw (lookup-insert id id st m, bytes_eq_self id)

writer-caches :
    (pend : Pending) (changed : Bool) (t : Streamer)
    → ((apply_writer pend changed t).producer_loaded ≡ t.producer_loaded)
      × ((apply_writer pend changed t).producers ≡ merge_producers pend.producers t.producers)
unfolding apply_writer publish_writer_seq
writer-caches pend changed t = ground arith

-- The writer's half of a burst of one accepted append.
applied-Knows :
    (parse_media_type : Bytes → Option Bytes) (h : ProducerHeaders) (s : Streamer) (req : AppendReq)
    (p : Planned) (changed : Bool) (a : Accepted parse_media_type h s req p)
    → Knows (apply_writer p.2 changed p.3) h a.st
applied-Knows parse_media_type h s req p changed a = record {
  loaded = rw ((writer-caches p.2 changed p.3).0) a.loaded;
  state =
      ap (lookup h.id)
        ((writer-caches p.2 changed p.3).1 ∙ ap (λ m. merge_producers m p.3.producers) a.producers)
      ∙ insert_all-one h.id a.st p.3.producers;
  epoch = a.epoch;
  not_new = omega (arith, a.seq);
}

writer-meta :
    (pend : Pending) (changed : Bool) (t : Streamer)
    → ((apply_writer pend changed t).meta.content_type ≡ t.meta.content_type)
      × ((apply_writer pend changed t).meta.closed
          ≡ (if changed then pend.closed else t.meta.closed))
unfolding apply_writer publish_writer_seq
writer-meta pend changed t = ground arith

if_same : (b : Bool) {x y : Bool} → x ≡ false → y ≡ false → (if b then x else y) ≡ false
if_same true p q = p
if_same false p q = q

-- After the writer's half, the streamer remembers an accepted append that did not close the stream.
applied-Remembers :
    (parse_media_type : Bytes → Option Bytes) (h : ProducerHeaders) (s : Streamer) (req : AppendReq)
    (pend : Pending) (p : Planned) (changed : Bool) (a : Accepted parse_media_type h s req p)
    → Effect pend req s p
    → p.1 ≡ true
    → s.meta.closed ≡ false
    → req.close_stream ≡ false
    → Remembers parse_media_type (apply_writer p.2 changed p.3) req h a.st
applied-Remembers parse_media_type h s req pend p changed a e acc still_open no_close = record {
  knows = applied-Knows parse_media_type h s req p changed a;
  fit =
      ap
        (λ (ct : Bytes).
          not (req.has_body && not (content_type_matches parse_media_type ct req.content_type)))
        ((writer-meta p.2 changed p.3).0
          ∙ ap (λ (m : StreamMeta). m.content_type) (sym e.core.meta))
      ∙ a.fit;
  still_open =
      (writer-meta p.2 changed p.3).1
      ∙ if_same changed (e.closes acc ∙ no_close)
          (ap (λ (m : StreamMeta). m.closed) (sym e.core.meta) ∙ still_open);
}

burst_parts :
    (b c : CommitBurst) (s t : Streamer)
    → ◌≡◌ {A = Outcome × Streamer} (to_commit b, s) (to_commit c, t)
    → (c.responses ≡ b.responses) × (c.pend ≡ b.pend) × (t ≡ s)
burst_parts b c s t e =
    let same : b ≡ c = cc in
    (
      ap (λ (x : CommitBurst). x.responses) (sym same),
      ap (λ (x : CommitBurst). x.pend) (sym same),
      cc,
    )

-- The reader's half, and the count of outstanding callbacks, do not touch what the answer rests on.
publish-Remembers :
    (parse_media_type : Bytes → Option Bytes) (req : AppendReq) (h : ProducerHeaders)
    (st : ProducerState) (c : CommitBurst) (s : Streamer)
    → Remembers parse_media_type s req h st
    → Remembers parse_media_type (publish c s) req h st
unfolding publish apply_reader
publish-Remembers parse_media_type req h st c s r = record {
  knows = record {
    loaded = r.knows.loaded;
    state = r.knows.state;
    epoch = r.knows.epoch;
    not_new = r.knows.not_new;
  };
  fit = r.fit;
  still_open = r.still_open;
}

pending-Remembers :
    (parse_media_type : Bytes → Option Bytes) (req : AppendReq) (h : ProducerHeaders)
    (st : ProducerState) (n : ℕ) (s : Streamer)
    → Remembers parse_media_type s req h st
    → Remembers parse_media_type (record s { pending = n }) req h st
pending-Remembers parse_media_type req h st n s r = record {
  knows = record {
    loaded = r.knows.loaded;
    state = r.knows.state;
    epoch = r.knows.epoch;
    not_new = r.knows.not_new;
  };
  fit = r.fit;
  still_open = r.still_open;
}

failed_state :
    (e : Err) (c : CommitBurst) (t : Streamer)
    → (fail_job e c (stage_job c t)).1 ≡ record (apply_writer c.pend c.meta_changed t) {
      pending = (apply_writer c.pend c.meta_changed t).pending + 1 - 1;
    }
unfolding fail_job stage_job
failed_state e c t = refl

failed_answer :
    (e : Err) (c : CommitBurst) (s : Streamer) (resp : AppendResp)
    → c.responses ≡ (resp, true) ∷ []
    → (fail_job e c s).0 ≡ (record (bare 500) { error = some e }, true) ∷ []
unfolding fail_job fail_accepted
failed_answer e c s resp acc = ap (fail_accepted e) acc

second_true :
    (r q : AppendResp) (b : Bool)
    → ◌≡◌ {A = List (AppendResp × Bool)} ((r, b) ∷ []) ((q, true) ∷ [])
    → b ≡ true
second_true r q b e = cc

module _ (store : Storage) (parse_media_type : Bytes → Option Bytes) where
  open store use {Db, view, commit, commit_async, commit_async-err}

  Remembers-answer :
      (db : Db) (now : ℕ) (req : AppendReq) (s : Streamer) (h : ProducerHeaders)
      (st : ProducerState)
      → req.producer ≡ some h
      → Remembers parse_media_type s req h st
      → plan_burst store parse_media_type db now (req ∷ []) s
        ≡ (replied ((echo s.write_tail false st, false) ∷ []), s)
  unfolding plan_burst plan_batch no_effect
  Remembers-answer db now req s h st has r =
      rw
        (plan_append-known store parse_media_type db (start_pending s now) req s h st r.still_open
          refl r.fit has r.knows)
        (rw (==_self s.meta.deadline)
          (ap (λ b. (replied ((echo s.write_tail b st, false) ∷ []), s)) r.still_open))

  -- The plan of a burst of one request that comes to a commit.
  single_plan :
      (db : Db) (now : ℕ) (req : AppendReq) (s : Streamer) (c : CommitBurst) (t : Streamer)
      → plan_burst store parse_media_type db now (req ∷ []) s ≡ (to_commit c, t)
      → let p = plan_append store parse_media_type db (start_pending s now) req s in
        (c.responses ≡ (p.0, p.1) ∷ []) × (c.pend ≡ p.2) × (t ≡ p.3)
  unfolding plan_burst plan_batch burst_of
  single_plan db now req s c t =
      let p = plan_append store parse_media_type db (start_pending s now) req s in
      let closes : Bool = (p.1 && req.close_stream) || false in
      if-elim
        (λ r. r ≡ (to_commit c, t) → (c.responses ≡ (p.0, p.1) ∷ []) × (c.pend ≡ p.2) × (t ≡ p.3))
        (no_effect p.3 p.2 closes) _ _ (λ nothing e. absurd (replied_ne _ _ c t e))
        (λ something e. burst_parts (burst_of p.3 p.2 ((p.0, p.1) ∷ []) closes) c p.3 t e)

  -- The streamer after the writer's half of a burst of one accepted append.
  accepted-Remembers :
      (db : Db) (now : ℕ) (req : AppendReq) (s : Streamer) (h : ProducerHeaders) (c : CommitBurst)
      (t : Streamer) (resp : AppendResp)
      → h.seq < 2 ^ 64
      → req.producer ≡ some h
      → req.close_stream ≡ false
      → plan_burst store parse_media_type db now (req ∷ []) s ≡ (to_commit c, t)
      → c.responses ≡ (resp, true) ∷ []
      → (st : ProducerState) × (st.epoch ≡ h.epoch)
        × (st.last_seq ≡ h.seq)
        × Remembers parse_media_type (apply_writer c.pend c.meta_changed t) req h st
  accepted-Remembers db now req s h c t resp b has no_close planned acc =
      let p : Planned = plan_append store parse_media_type db (start_pending s now) req s in
      let (resps, pend, left) = single_plan db now req s c t planned in
      let yes_acc : p.1 ≡ true = second_true p.0 resp p.1 (sym resps ∙ acc) in
      let e : Effect (start_pending s now) req s p =
        plan_append-Effect store parse_media_type db (start_pending s now) req s in
      let a =
        plan_append-Accepted store parse_media_type db (start_pending s now) req s h b refl has
          yes_acc in
      (
        a.st,
        a.epoch,
        a.seq,
        subst
            (λ (q : Pending).
              Remembers parse_media_type (apply_writer q c.meta_changed t) req h a.st)
            (sym pend)
            (subst
              (λ (u : Streamer).
                Remembers parse_media_type (apply_writer p.2 c.meta_changed u) req h a.st)
              (sym left)
              (applied-Remembers parse_media_type h s req (start_pending s now) p c.meta_changed a e
                yes_acc (e.open_before yes_acc) no_close)),
      )

  -- After the durable commit of a burst of exactly one append, which was accepted, has a producer (with a
  -- number below 2 ^ 64) and does not ask to close the stream: the same request, alone in the next
  -- burst at any later time, is answered 204 with its own epoch and number, and neither the store
  -- nor the streamer changes.
  pub retry_after_commit :
      (db : Db) (now : ℕ) (req : AppendReq) (s : Streamer) (h : ProducerHeaders) (c : CommitBurst)
      (t : Streamer) (resp : AppendResp)
      → h.seq < 2 ^ 64
      → req.producer ≡ some h
      → req.close_stream ≡ false
      → plan_burst store parse_media_type db now (req ∷ []) s ≡ (to_commit c, t)
      → c.responses ≡ (resp, true) ∷ []
      → (commit db c.ops true).0 ≡ ok tt
      → OldAnswer store parse_media_type req h
          (run_sync store parse_media_type db now (req ∷ []) s).2
  retry_after_commit db now req s h c t resp b has no_close planned acc done =
      let (st, ep, sq, r) = accepted-Remembers db now req s h c t resp b has no_close planned acc in
      rw (run_sync-committed store parse_media_type db now (req ∷ []) s c t planned done) (
        st,
        ep,
        sq,
        λ db2 now2. Remembers-answer db2 now2 req _ h st has (
            publish-Remembers parse_media_type req h st c (apply_writer c.pend c.meta_changed t) r),
      )

  -- In notifier mode, for a burst of exactly one append, which was accepted, has a producer (with a number
  -- below 2 ^ 64) and does not ask to close the stream: when the job is failed, as it is when the engine
  -- refuses the batch, the append is answered 500, but the writer's half was already published, so that the same request, alone in
  -- the next burst, is answered 204 with its own epoch and number, as one that was applied, and neither
  -- the store nor the streamer changes.
  pub retry_after_failure :
      (db : Db) (now : ℕ) (req : AppendReq) (s : Streamer) (h : ProducerHeaders) (c : CommitBurst)
      (t : Streamer) (resp : AppendResp) (e : Err)
      → h.seq < 2 ^ 64
      → req.producer ≡ some h
      → req.close_stream ≡ false
      → plan_burst store parse_media_type db now (req ∷ []) s ≡ (to_commit c, t)
      → c.responses ≡ (resp, true) ∷ []
      → let failed = fail_job e c (stage_job c t) in
        (failed.0 ≡ (record (bare 500) { error = some e }, true) ∷ [])
        × OldAnswer store parse_media_type req h failed.1
  retry_after_failure db now req s h c t resp e b has no_close planned acc =
      let (st, ep, sq, r) = accepted-Remembers db now req s h c t resp b has no_close planned acc in
      let w = apply_writer c.pend c.meta_changed t in
      (
        failed_answer e c (stage_job c t) resp acc,
        subst (OldAnswer store parse_media_type req h) (sym (failed_state e c t)) (
          st,
          ep,
          sq,
          λ db2 now2.
              Remembers-answer db2 now2 req _ h st has
                (pending-Remembers parse_media_type req h st (w.pending + 1 - 1) w r),
        ),
      )
