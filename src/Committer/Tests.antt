-- ===== src/Committer/Tests.antt =====
-- Two jobs: the second is staged while the first is in flight.
use yasdb.Prelude.{ℕ, List, [], ◌∷◌, ◌++◌, ◌+◌, ◌≡◌, ok}
use yasdb.Committer.{Job, Event, submitted, flushed, polled, closing, new, run}
use yasdb.Committer.Once.{calls_of, open_of, run-once}
use yasdb.Committer.Order.{sent, queue, IsOpen, run-in_submission_order}

abbrev job : ℕ → Job
job n = record { id = n; ops = [] }

abbrev events : List Event
events = submitted (job 1) ∷ submitted (job 2) ∷ flushed (ok 7) ∷ polled (ok 7) ∷ []

run-once_example :
    calls_of 1 (run (events ++ (closing ∷ [])) (new 5)).0
      + open_of 1 (run (events ++ (closing ∷ [])) (new 5)).1
    ≡ 1
run-once_example = run-once 1 5 (events ++ (closing ∷ []))

run-in_submission_order_example :
    (sent events (new 5) ++ queue (run events (new 5)).1 ≡ job 1 ∷ job 2 ∷ [])
    × IsOpen (run events (new 5)).1
run-in_submission_order_example = run-in_submission_order 5 events tt
