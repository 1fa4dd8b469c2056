-- ===== src/Committer.antt =====
-- The shared committer of notifier mode: `sharedCommitter` of internal/ds/commit.go, with the notifier
-- behind it. What `commit` and the callback do to their streamer is in Streamer/Commit; here a job is
-- followed through the queue. The one flush goroutine is `in_flight`: the jobs whose `CommitAsync` is
-- under way, which an event answers.
pub mod Once
pub mod Order
mod Tests
use yasdb.Prelude.{
  ℕ, ◌-◌, Bool, true, false, Option, none, some, List, [], ◌∷◌, ◌++◌, ltb, leb, if◌then◌else◌,
  length, take, drop, Result, ok, err, Err, store_closed, map,
}
use yasdb.Storage.{Op}
use yasdb.Notifier.{Notifier, Call, subscribe, poll, close_all}
use yasdb.Notifier

-- `commitJob`: which one it is, and the batch of its burst.
pub record Job : Type 0 where
  pub id : ℕ
  pub ops : List Op

pub record Committer : Type 0 where
  pub pending : List Job
  pub in_flight : List Job
  pub flushing : Bool
  pub closed : Bool
  pub batch_max : ℕ
  pub notifier : Notifier

abbrev pub new : ℕ → Committer
new batch_max = record {
  pending = [];
  in_flight = [];
  flushing = false;
  closed = false;
  batch_max = batch_max;
  notifier = Notifier.new;
}

-- `failJob` for each: the calls that answer them.
abbrev pub fail_jobs : Err → List Job → List Call
fail_jobs e [] = []
fail_jobs e (j ∷ js) = (j.id, some e) ∷ fail_jobs e js

-- `takeBatchLocked`, into the flush.
unfoldable pub take_batch : Committer → Committer
take_batch c =
    if leb (length c.pending) c.batch_max
    then record c { in_flight = c.pending; pending = [] }
    else record c { in_flight = take c.batch_max c.pending; pending = drop c.batch_max c.pending }

unfoldable pub commit_job : Job → Committer → List Call × Committer
unfolding take_batch
commit_job j c =
    let queued = record c { pending = c.pending ++ (j ∷ []) } in
    if c.closed
    then (fail_jobs store_closed (j ∷ []), c)
    else (if c.flushing then ([], queued) else ([], take_batch (record queued { flushing = true })))

-- Each job of a batch waits for the same number, in the order of the batch.
unfoldable pub subscribe_jobs : ℕ → List Job → Notifier → List Call × Notifier
subscribe_jobs seq [] n = ([], n)
subscribe_jobs seq (j ∷ js) n =
    let r = subscribe seq j.id n in let rest = subscribe_jobs seq js r.1 in (r.0 ++ rest.0, rest.1)

-- The end of a round of `runFlush`: what was staged meanwhile is next, or the goroutine ends.
unfoldable pub next_round_for : List Job → Committer → Committer
unfolding take_batch
next_round_for [] c = record c { in_flight = []; flushing = false }
next_round_for (j ∷ js) c = take_batch c

unfoldable pub next_round : Committer → Committer
unfolding next_round_for
next_round c = next_round_for c.pending c

answer_batch : Result ℕ → Committer → List Call × Committer
unfolding subscribe_jobs
answer_batch (err e) c = (fail_jobs e c.in_flight, c)
answer_batch (ok seq) c =
    let r = subscribe_jobs seq c.in_flight c.notifier in (r.0, record c { notifier = r.1 })

-- `CommitAsync` returns for the batch in flight.
unfoldable pub finish_flush : Result ℕ → Committer → List Call × Committer
unfolding answer_batch next_round
finish_flush result c =
    if c.flushing then (let r = answer_batch result c in (r.0, next_round r.1)) else ([], c)

-- The first half of `close`; then it waits for the flush, and stops the notifier.
unfoldable pub close : Committer → List Call × Committer
close c = (fail_jobs store_closed c.pending, record c { pending = []; closed = true })

unfoldable pub with_notifier : Committer → List Call × Notifier → List Call × Committer
with_notifier c r = (r.0, record c { notifier = r.1 })

pub data Event : Type 0 where
  submitted : Job → Event
  flushed : Result ℕ → Event
  polled : Result ℕ → Event
  closing : Event
  notifier_stopped : Event

unfoldable pub handle : Event → Committer → List Call × Committer
unfolding commit_job finish_flush close with_notifier
handle (submitted j) c = commit_job j c
handle (flushed result) c = finish_flush result c
handle (polled seq) c = with_notifier c (poll seq c.notifier)
handle closing c = close c
handle notifier_stopped c = with_notifier c (close_all store_closed c.notifier)

unfoldable pub run : List Event → Committer → List Call × Committer
run [] c = ([], c)
run (e ∷ es) c = let r = handle e c in let rest = run es r.1 in (r.0 ++ rest.0, rest.1)
