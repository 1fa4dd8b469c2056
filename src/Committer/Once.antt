-- ===== src/Committer/Once.antt =====
-- Every job is answered once, whatever happens.
use yasdb.Prelude.{
  ℕ, ◌+◌, ◌≡◌, refl, ap, sym, ◌∙◌, true, false, Option, none, some, List, [], ◌∷◌, ◌++◌, ltb, leb,
  ◌==◌, if◌then◌else◌, length, take, drop, Result, ok, err, Err, store_closed, arith, Bool-cases,
  inl, inr, take-drop, if-elim,
}
use yasdb.Notifier.{
  Waiter, Notifier, Call, insert_waiter, subscribe, ready, behind, call_with, fire, close_all, poll,
  poll_for, poll_with,
}
use yasdb.Notifier.Order.{ready-behind}
use yasdb.Committer.{
  Job, Committer, new, fail_jobs, take_batch, commit_job, subscribe_jobs, next_round,
  next_round_for, answer_batch, finish_flush, close, with_notifier, Event, submitted, flushed,
  polled, closing, notifier_stopped, handle, run,
}

-- How often a job is among calls, waiters and jobs, and among the submissions of a run.
abbrev pub calls_of : ℕ → List Call → ℕ
calls_of id [] = 0
calls_of id (c ∷ cs) = (if c.0 == id then 1 else 0) + calls_of id cs

abbrev pub waiters_of : ℕ → List Waiter → ℕ
waiters_of id [] = 0
waiters_of id (w ∷ ws) = (if w.cb == id then 1 else 0) + waiters_of id ws

abbrev pub jobs_of : ℕ → List Job → ℕ
jobs_of id [] = 0
jobs_of id (j ∷ js) = (if j.id == id then 1 else 0) + jobs_of id js

abbrev pub submissions_of : ℕ → List Event → ℕ
submissions_of id [] = 0
submissions_of id (submitted j ∷ es) = (if j.id == id then 1 else 0) + submissions_of id es
submissions_of id (flushed r ∷ es) = submissions_of id es
submissions_of id (polled r ∷ es) = submissions_of id es
submissions_of id (closing ∷ es) = submissions_of id es
submissions_of id (notifier_stopped ∷ es) = submissions_of id es

-- The jobs that have no answer yet: waiting for durability, in flight, and queued.
abbrev pub open_of : ℕ → Committer → ℕ
open_of id c = waiters_of id c.notifier.waiters + jobs_of id c.in_flight + jobs_of id c.pending

-- The jobs in flight are those of a flush.
abbrev IsIdle : Committer → Type 0
IsIdle c = c.flushing ≡ false → c.in_flight ≡ []

calls_of-append :
    (id : ℕ) (xs ys : List Call) → calls_of id (xs ++ ys) ≡ calls_of id xs + calls_of id ys
calls_of-append id [] ys = omega arith
calls_of-append id (x ∷ xs) ys = omega (arith, calls_of-append id xs ys)

waiters_of-append :
    (id : ℕ) (xs ys : List Waiter) → waiters_of id (xs ++ ys) ≡ waiters_of id xs + waiters_of id ys
waiters_of-append id [] ys = omega arith
waiters_of-append id (x ∷ xs) ys = omega (arith, waiters_of-append id xs ys)

jobs_of-append : (id : ℕ) (xs ys : List Job) → jobs_of id (xs ++ ys) ≡ jobs_of id xs + jobs_of id ys
jobs_of-append id [] ys = omega arith
jobs_of-append id (x ∷ xs) ys = omega (arith, jobs_of-append id xs ys)

calls_of-fail_jobs :
    (id : ℕ) (e : Err) (js : List Job) → calls_of id (fail_jobs e js) ≡ jobs_of id js
calls_of-fail_jobs id e [] = refl
calls_of-fail_jobs id e (j ∷ js) = omega (arith, calls_of-fail_jobs id e js)

calls_of-call_with :
    (id : ℕ) (e : Option Err) (ws : List Waiter) → calls_of id (call_with e ws) ≡ waiters_of id ws
calls_of-call_with id e [] = refl
calls_of-call_with id e (w ∷ ws) = omega (arith, calls_of-call_with id e ws)

waiters_of-insert_waiter :
    (id : ℕ) (w : Waiter) (ws : List Waiter)
    → waiters_of id (insert_waiter w ws) ≡ (if w.cb == id then 1 else 0) + waiters_of id ws
unfolding insert_waiter
waiters_of-insert_waiter id w [] = omega arith
waiters_of-insert_waiter id w (v ∷ vs) = elim (Bool-cases (ltb w.target v.target)) [
  | inl before ↦ rw before
  | inr after ↦ rw after (omega (arith, waiters_of-insert_waiter id w vs))
]

-- A call of the notifier, which answers some of its waiters.
Balanced : ℕ → ℕ → Notifier → List Call × Notifier → Type 0
Balanced id fresh n r =
    calls_of id r.0 + waiters_of id r.1.waiters ≡ fresh + waiters_of id n.waiters

idle-Balanced : (id : ℕ) (n : Notifier) → Balanced id 0 n ([], n)
unfolding Balanced
idle-Balanced id n = omega arith

joined-Balanced :
    (id a b : ℕ) (n : Notifier) (r rest : List Call × Notifier)
    → Balanced id a n r
    → Balanced id b r.1 rest
    → Balanced id (a + b) n (r.0 ++ rest.0, rest.1)
unfolding Balanced
joined-Balanced id a b n r rest h k = omega (arith, h, k, calls_of-append id r.0 rest.0)

subscribe-Balanced :
    (id seq cb : ℕ) (n : Notifier) → Balanced id (if cb == id then 1 else 0) n (subscribe seq cb n)
unfolding subscribe Balanced
subscribe-Balanced id seq cb n = elim (Bool-cases n.closed) [
  | inl closed ↦ rw closed (omega arith)
  | inr still ↦
      rw still
        (omega (arith, waiters_of-insert_waiter id (record { target = seq; cb = cb }) n.waiters))
]

fire-Balanced : (id d : ℕ) (n : Notifier) → Balanced id 0 n (fire d n)
unfolding fire Balanced
fire-Balanced id d n = omega (
  arith,
  calls_of-call_with id none (ready d n.waiters),
  waiters_of-append id (ready d n.waiters) (behind d n.waiters),
  ap (waiters_of id) (ready-behind d n.waiters),
)

close_all-Balanced : (id : ℕ) (e : Err) (n : Notifier) → Balanced id 0 n (close_all e n)
unfolding close_all Balanced
close_all-Balanced id e n = elim (Bool-cases n.closed) [
  | inl closed ↦ rw closed (omega arith)
  | inr still ↦ rw still (omega (arith, calls_of-call_with id (some e) n.waiters))
]

poll_for-Balanced :
    (id : ℕ) (ws : List Waiter) (seq : Result ℕ) (n : Notifier)
    → Balanced id 0 n (poll_for ws seq n)
unfolding poll_for poll_with
poll_for-Balanced id [] seq n = idle-Balanced id n
poll_for-Balanced id (w ∷ ws) (ok seq) n = fire-Balanced id seq n
poll_for-Balanced id (w ∷ ws) (err e) n = close_all-Balanced id e n

subscribe_jobs-Balanced :
    (id seq : ℕ) (js : List Job) (n : Notifier)
    → Balanced id (jobs_of id js) n (subscribe_jobs seq js n)
unfolding subscribe_jobs
subscribe_jobs-Balanced id seq [] n = idle-Balanced id n
subscribe_jobs-Balanced id seq (j ∷ js) n =
    let first = subscribe-Balanced id seq j.id n in
    let rest = subscribe_jobs-Balanced id seq js (subscribe seq j.id n).1 in
    joined-Balanced id _ _ n (subscribe seq j.id n) _ first rest

-- A step of the committer, with so many new submissions of a job.
Settles : ℕ → ℕ → Committer → List Call × Committer → Type 0
Settles id fresh c r = calls_of id r.0 + open_of id r.1 ≡ fresh + open_of id c

jobs_of-split :
    (id n : ℕ) (js : List Job) → jobs_of id (take n js) + jobs_of id (drop n js) ≡ jobs_of id js
jobs_of-split id n js =
    sym (jobs_of-append id (take n js) (drop n js)) ∙ ap (jobs_of id) (take-drop n js)

take_batch-kept :
    (id : ℕ) (c : Committer)
    → open_of id (take_batch c) ≡ waiters_of id c.notifier.waiters + jobs_of id c.pending
unfolding take_batch
take_batch-kept id c = elim (Bool-cases (leb (length c.pending) c.batch_max)) [
  | inl fits ↦ rw fits (omega arith)
  | inr more ↦ rw more (omega (arith, jobs_of-split id c.batch_max c.pending))
]

take_batch-flushing : (c : Committer) → (take_batch c).flushing ≡ c.flushing
unfolding take_batch
take_batch-flushing c = ground arith

IsIdle-vacuous : (c : Committer) → c.flushing ≡ true → IsIdle c
IsIdle-vacuous c e h = cc

commit_job-Settles :
    (id : ℕ) (j : Job) (c : Committer)
    → IsIdle c
    → Settles id (if j.id == id then 1 else 0) c (commit_job j c) × IsIdle (commit_job j c).1
unfolding commit_job Settles take_batch
commit_job-Settles id j c idle =
    let c1 = record c { pending = c.pending ++ (j ∷ []); flushing = true } in
    let P =
      λ (r : List Call × Committer). Settles id (if j.id == id then 1 else 0) c r × IsIdle r.1 in
    if-elim P c.closed _ _ (λ closed. (omega arith, idle))
      (λ still.
        if-elim P c.flushing _ _
          (λ busy. (omega (arith, jobs_of-append id c.pending (j ∷ [])), idle))
          (λ free. (
            omega (
              arith,
              take_batch-kept id c1,
              jobs_of-append id c.pending (j ∷ []),
              ap (jobs_of id) (idle free),
            ),
            IsIdle-vacuous (take_batch c1) (take_batch-flushing c1),
          )))

next_round-kept :
    (id : ℕ) (js : List Job) (c : Committer)
    → c.pending ≡ js
    → c.flushing ≡ true
    → (open_of id (next_round_for js c) ≡ waiters_of id c.notifier.waiters + jobs_of id c.pending)
      × IsIdle (next_round_for js c)
unfolding next_round_for
next_round-kept id [] c e busy = (omega (arith, ap (jobs_of id) e), λ h. refl)
next_round-kept id (j ∷ js) c e busy =
    (take_batch-kept id c, IsIdle-vacuous (take_batch c) (take_batch-flushing c ∙ busy))

balance :
    (id k : ℕ) (n : Notifier) (r : List Call × Notifier)
    → Balanced id k n r
    → calls_of id r.0 + waiters_of id r.1.waiters ≡ k + waiters_of id n.waiters
unfolding Balanced
balance id k n r b = b

answer_batch-Settles :
    (id : ℕ) (result : Result ℕ) (c : Committer)
    → let r = answer_batch result c in
      (calls_of id r.0 + waiters_of id r.1.notifier.waiters
        ≡ jobs_of id c.in_flight + waiters_of id c.notifier.waiters)
      × (r.1.pending ≡ c.pending)
      × (r.1.flushing ≡ c.flushing)
unfolding answer_batch
answer_batch-Settles id (err e) c = (omega (arith, calls_of-fail_jobs id e c.in_flight), refl, refl)
answer_batch-Settles id (ok seq) c =
    (balance id _ c.notifier _ (subscribe_jobs-Balanced id seq c.in_flight c.notifier), refl, refl)

poll-Balanced : (id : ℕ) (seq : Result ℕ) (n : Notifier) → Balanced id 0 n (poll seq n)
unfolding poll
poll-Balanced id seq n = poll_for-Balanced id n.waiters seq n

nothing-Settles : (id : ℕ) (c : Committer) → Settles id 0 c ([], c)
unfolding Settles
nothing-Settles id c = omega arith

finish_flush-Settles :
    (id : ℕ) (result : Result ℕ) (c : Committer)
    → IsIdle c
    → Settles id 0 c (finish_flush result c) × IsIdle (finish_flush result c).1
unfolding finish_flush Settles next_round
finish_flush-Settles id result c idle =
    let P = λ (r : List Call × Committer). Settles id 0 c r × IsIdle r.1 in
    if-elim P c.flushing _ _
      (λ busy.
        let (b, same, still) = answer_batch-Settles id result c in
        let c1 = (answer_batch result c).1 in
        let (k, i) = next_round-kept id c1.pending c1 refl (still ∙ busy) in
        (omega (arith, b, k, ap (jobs_of id) same), i))
      (λ free. (omega arith, idle))

close-Settles : (id : ℕ) (c : Committer) → Settles id 0 c (close c)
unfolding close Settles
close-Settles id c = omega (arith, calls_of-fail_jobs id store_closed c.pending)

with_notifier-Settles :
    (id : ℕ) (c : Committer) (r : List Call × Notifier)
    → Balanced id 0 c.notifier r
    → Settles id 0 c (with_notifier c r)
unfolding with_notifier Settles Balanced
with_notifier-Settles id c r b = omega (arith, b)

then-Settles :
    (id a b : ℕ) (c : Committer) (r rest : List Call × Committer)
    → Settles id a c r
    → Settles id b r.1 rest
    → Settles id (a + b) c (r.0 ++ rest.0, rest.1)
unfolding Settles
then-Settles id a b c r rest h k = omega (arith, h, k, calls_of-append id r.0 rest.0)

kept-Settles :
    (id b : ℕ) (c : Committer) (r rest : List Call × Committer)
    → Settles id 0 c r
    → Settles id b r.1 rest
    → Settles id b c (r.0 ++ rest.0, rest.1)
unfolding Settles
kept-Settles id b c r rest h k = omega (arith, h, k, calls_of-append id r.0 rest.0)

run-Settles :
    (id : ℕ) (es : List Event) (c : Committer)
    → IsIdle c
    → Settles id (submissions_of id es) c (run es c)
unfolding run handle
run-Settles id [] c idle = nothing-Settles id c
run-Settles id (submitted j ∷ es) c idle =
    let (h, i) = commit_job-Settles id j c idle in
    then-Settles id _ _ c (commit_job j c) _ h (run-Settles id es _ i)
run-Settles id (flushed result ∷ es) c idle =
    let (h, i) = finish_flush-Settles id result c idle in
    kept-Settles id _ c (finish_flush result c) _ h (run-Settles id es _ i)
run-Settles id (polled seq ∷ es) c idle =
    kept-Settles id _ c (with_notifier c (poll seq c.notifier)) _
      (with_notifier-Settles id c _ (poll-Balanced id seq c.notifier)) (run-Settles id es _ idle)
run-Settles id (closing ∷ es) c idle =
    kept-Settles id _ c (close c) _ (close-Settles id c) (run-Settles id es _ idle)
run-Settles id (notifier_stopped ∷ es) c idle =
    kept-Settles id _ c (with_notifier c (close_all store_closed c.notifier)) _
      (with_notifier-Settles id c _ (close_all-Balanced id store_closed c.notifier))
      (run-Settles id es _ idle)

-- In every run of submissions, flushes that succeed or fail, polls, a close of the committer and a stop
-- of the notifier, in any order, each job is answered as often as it was submitted, or is still open:
-- nothing is lost, and nothing is answered twice. A job is open while it waits for its batch to be
-- durable, is in flight, or is queued.
pub run-once :
    (id batch_max : ℕ) (es : List Event)
    → let r = run es (new batch_max) in calls_of id r.0 + open_of id r.1 ≡ submissions_of id es
unfolding Settles
run-once id batch_max es = omega (arith, run-Settles id es (new batch_max) (λ h. refl))
