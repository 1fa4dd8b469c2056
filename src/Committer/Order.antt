-- ===== src/Committer/Order.antt =====
-- The engine gets the jobs in the order of their submission, in batches of bounded size.
use yasdb.Prelude.{
  ℕ, ◌≤◌, ◌≡◌, refl, ap, sym, subst, ◌∙◌, true, false, List, [], ◌∷◌, ◌++◌, leb, if◌then◌else◌,
  length, Result, ok, err, store_closed, arith, if-elim, take-drop, length-take, append-nil,
  append_assoc, ap₂, Bool-cases, inl, inr,
}
use yasdb.Notifier.{Call, Notifier, poll, close_all}
use yasdb.Committer.{
  Job, Committer, new, take_batch, commit_job, next_round, next_round_for, answer_batch,
  finish_flush, with_notifier, Event, submitted, flushed, polled, closing, notifier_stopped, handle,
  run,
}

false_ne_true : false ≡ true → ⊥
false_ne_true e = cc

-- The jobs that a run hands to `CommitAsync`: those in flight when it returns.
unfoldable pub sent : List Event → Committer → List Job
sent [] c = []
sent (flushed r ∷ es) c =
    (if c.flushing then c.in_flight else []) ++ sent es (handle (flushed r) c).1
sent (submitted j ∷ es) c = sent es (handle (submitted j) c).1
sent (polled r ∷ es) c = sent es (handle (polled r) c).1
sent (closing ∷ es) c = sent es (handle closing c).1
sent (notifier_stopped ∷ es) c = sent es (handle notifier_stopped c).1

abbrev pub submissions : List Event → List Job
submissions [] = []
submissions (submitted j ∷ es) = j ∷ submissions es
submissions (flushed r ∷ es) = submissions es
submissions (polled r ∷ es) = submissions es
submissions (closing ∷ es) = submissions es
submissions (notifier_stopped ∷ es) = submissions es

-- The committer is not closed in the run.
abbrev pub StaysOpen : List Event → Type 0
StaysOpen [] = Unit
StaysOpen (submitted j ∷ es) = StaysOpen es
StaysOpen (flushed r ∷ es) = StaysOpen es
StaysOpen (polled r ∷ es) = StaysOpen es
StaysOpen (closing ∷ es) = ⊥
StaysOpen (notifier_stopped ∷ es) = StaysOpen es

-- An open committer: a batch within its bound, and nothing left when it is idle.
pub record IsOpen (c : Committer) : Type 0 where
  pub still : c.closed ≡ false
  pub idle : c.flushing ≡ false → (c.in_flight ≡ []) × (c.pending ≡ [])
  pub bounded : length c.in_flight ≤ c.batch_max

-- The jobs that were not handed over yet, in order.
abbrev pub queue : Committer → List Job
queue c = c.in_flight ++ c.pending

take_batch-queue : (c : Committer) → queue (take_batch c) ≡ c.pending
unfolding take_batch
take_batch-queue c =
    if-elim (λ (t : Committer). queue t ≡ c.pending) (leb (length c.pending) c.batch_max) _ _
      (λ fits. append-nil c.pending) (λ more. take-drop c.batch_max c.pending)

take_batch-IsOpen : (c : Committer) → c.closed ≡ false → c.flushing ≡ true → IsOpen (take_batch c)
unfolding take_batch
take_batch-IsOpen c still busy =
    if-elim IsOpen (leb (length c.pending) c.batch_max) _ _
      (λ fits. record {
        still = still;
        idle = λ h. absurd (false_ne_true (sym h ∙ busy));
        bounded = ground arith;
      })
      (λ more. record {
        still = still;
        idle = λ h. absurd (false_ne_true (sym h ∙ busy));
        bounded = omega (arith, length-take c.batch_max c.pending (ground arith));
      })

-- A step that queues these jobs, and hands over those.
Moves : List Job → List Job → Committer → Committer → Type 0
Moves fresh out c t = (out ++ queue t ≡ queue c ++ fresh) × IsOpen t

commit_job-Moves : (j : Job) (c : Committer) → IsOpen c → Moves (j ∷ []) [] c (commit_job j c).1
unfolding commit_job Moves take_batch
commit_job-Moves j c o =
    let c1 = record c { pending = c.pending ++ (j ∷ []); flushing = true } in
    let P = λ (r : List Call × Committer). Moves (j ∷ []) [] c r.1 in
    if-elim P c.closed _ _ (λ closed. absurd (false_ne_true (sym o.still ∙ closed)))
      (λ still.
        if-elim P c.flushing _ _
          (λ busy. (
            sym (append_assoc c.in_flight c.pending (j ∷ [])),
            record {
              still = o.still;
              idle = λ h. absurd (false_ne_true (sym h ∙ busy));
              bounded = o.bounded;
            },
          ))
          (λ free.
            let none_in_flight = (o.idle free).0 in
            (
              take_batch-queue c1 ∙ ap (λ q. (q ++ c.pending) ++ (j ∷ [])) (sym none_in_flight),
              take_batch-IsOpen c1 o.still refl,
            )))

idle-Moves : (c : Committer) → IsOpen c → Moves [] [] c c
unfolding Moves
idle-Moves c o = (sym (append-nil (queue c)), o)

next_round-Moves :
    (js : List Job) (c : Committer)
    → c.pending ≡ js
    → c.closed ≡ false
    → c.flushing ≡ true
    → Moves [] c.in_flight c (next_round_for js c)
unfolding next_round_for Moves
next_round-Moves [] c e still busy = (
  sym (append-nil (queue c)),
  record { still = still; idle = λ h. (refl, e); bounded = omega arith },
)
next_round-Moves (j ∷ js) c e still busy = (
  ap (λ q. c.in_flight ++ q) (take_batch-queue c) ∙ sym (append-nil (queue c)),
  take_batch-IsOpen c still busy,
)

-- What becomes of the batch in flight leaves the queue alone.
answer_batch-kept :
    (result : Result ℕ) (c : Committer)
    → let t = (answer_batch result c).1 in
      (t.in_flight ≡ c.in_flight)
      × (t.pending ≡ c.pending)
      × (t.closed ≡ c.closed)
      × (t.flushing ≡ c.flushing)
unfolding answer_batch
answer_batch-kept (ok seq) c = (refl, refl, refl, refl)
answer_batch-kept (err e) c = (refl, refl, refl, refl)

-- The jobs that an answer of `CommitAsync` is for.
abbrev handed : Committer → List Job
handed c = if c.flushing then c.in_flight else []

same_queue :
    (c1 c : Committer)
    → c1.in_flight ≡ c.in_flight
    → c1.pending ≡ c.pending
    → (t : Committer) → Moves [] c1.in_flight c1 t
    → Moves [] c.in_flight c t
unfolding Moves
same_queue c1 c flight queued t m = (
  ap (λ q. q ++ queue t) (sym flight) ∙ m.0 ∙ ap (λ q. q ++ []) (ap₂ (λ a b. a ++ b) flight queued),
  m.1,
)

finish_busy :
    (result : Result ℕ) (c : Committer)
    → c.flushing ≡ true
    → Moves [] c.in_flight c (next_round (answer_batch result c).1)
    → Moves [] (handed c) c (finish_flush result c).1
unfolding finish_flush
finish_busy result c busy m =
    if-elim (λ (r : List Call × Committer). Moves [] (handed c) c r.1) c.flushing _ _
      (λ yes_busy.
        subst
          (λ b. Moves [] (if b then c.in_flight else []) c (next_round (answer_batch result c).1))
          (sym busy) m)
      (λ free. absurd (false_ne_true (sym free ∙ busy)))

finish_free :
    (result : Result ℕ) (c : Committer)
    → IsOpen c
    → c.flushing ≡ false
    → Moves [] (handed c) c (finish_flush result c).1
unfolding finish_flush
finish_free result c o free =
    if-elim (λ (r : List Call × Committer). Moves [] (handed c) c r.1) c.flushing _ _
      (λ busy. absurd (false_ne_true (sym free ∙ busy)))
      (λ still_free.
        subst (λ b. Moves [] (if b then c.in_flight else []) c c) (sym free) (idle-Moves c o))

finish_flush-Moves :
    (result : Result ℕ) (c : Committer) → IsOpen c → Moves [] (handed c) c (finish_flush result c).1
unfolding finish_flush next_round
finish_flush-Moves result c o = elim (Bool-cases c.flushing) [
  | inl busy ↦
      let c1 = (answer_batch result c).1 in
      let (flight, queued, shut, flushing) = answer_batch-kept result c in
      let moved = next_round-Moves c1.pending c1 refl (shut ∙ o.still) (flushing ∙ busy) in
      finish_busy result c busy (same_queue c1 c flight queued _ moved)
  | inr free ↦ finish_free result c o free
]

then-Moves :
    (f1 f2 o1 o2 : List Job) (c t u : Committer)
    → Moves f1 o1 c t
    → Moves f2 o2 t u
    → Moves (f1 ++ f2) (o1 ++ o2) c u
unfolding Moves
then-Moves f1 f2 o1 o2 c t u m n = (
  append_assoc o1 o2 (queue u)
      ∙ ap (λ q. o1 ++ q) n.0
      ∙ sym (append_assoc o1 (queue t) f2)
      ∙ ap (λ q. q ++ f2) m.0
      ∙ append_assoc (queue c) f1 f2,
  n.1,
)

with_notifier-Moves :
    (c : Committer) (r : List Call × Notifier) → IsOpen c → Moves [] [] c (with_notifier c r).1
unfolding with_notifier Moves
with_notifier-Moves c r o =
    (sym (append-nil (queue c)), record { still = o.still; idle = o.idle; bounded = o.bounded })

run-Moves :
    (es : List Event) (c : Committer)
    → StaysOpen es
    → IsOpen c
    → Moves (submissions es) (sent es c) c (run es c).1
unfolding run sent handle Moves
run-Moves [] c open_ o = idle-Moves c o
run-Moves (submitted j ∷ es) c open_ o =
    let m = commit_job-Moves j c o in
    then-Moves (j ∷ []) (submissions es) [] _ c (commit_job j c).1 _ m
      (run-Moves es (commit_job j c).1 open_ m.1)
run-Moves (flushed r ∷ es) c open_ o =
    let m = finish_flush-Moves r c o in
    then-Moves [] (submissions es) (handed c) _ c (finish_flush r c).1 _ m
      (run-Moves es (finish_flush r c).1 open_ m.1)
run-Moves (polled r ∷ es) c open_ o =
    let m = with_notifier-Moves c (poll r c.notifier) o in
    then-Moves [] (submissions es) [] _ c (with_notifier c (poll r c.notifier)).1 _ m
      (run-Moves es (with_notifier c (poll r c.notifier)).1 open_ m.1)
run-Moves (closing ∷ es) c open_ o = absurd open_
run-Moves (notifier_stopped ∷ es) c open_ o =
    let m = with_notifier-Moves c (close_all store_closed c.notifier) o in
    then-Moves [] (submissions es) [] _ c (with_notifier c (close_all store_closed c.notifier)).1 _
      m (run-Moves es (with_notifier c (close_all store_closed c.notifier)).1 open_ m.1)

-- While the committer is open, the jobs that the engine was asked to commit, then those in flight, and
-- then those in the queue are the submissions in their order, over all streams: two bursts of a
-- stream can never reach the engine out of order. A batch has at most the configured number of jobs,
-- and when no flush is running nothing is left over.
pub run-in_submission_order :
    (batch_max : ℕ) (es : List Event)
    → StaysOpen es
    → (sent es (new batch_max) ++ queue (run es (new batch_max)).1 ≡ submissions es)
      × IsOpen (run es (new batch_max)).1
unfolding Moves
run-in_submission_order batch_max es open_ =
    run-Moves es (new batch_max) open_
      (record { still = refl; idle = λ h. (refl, refl); bounded = omega arith })
