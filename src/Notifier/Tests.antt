-- ===== src/Notifier/Tests.antt =====
-- Three subscriptions, a poll between them, and a shutdown.
use yasdb.Prelude.{List, [], ◌∷◌, ◌++◌, ◌≡◌, ◌≤◌, arith, ok, none, All}
use yasdb.Notifier.{Waiter, Event, subscribed, polled, stopped, run, poll, call_with, new}
use yasdb.Notifier.Order.{called, waiting, run-in_order}
use yasdb.Notifier.Due.{AllLater, run-answers_due}

abbrev events : List Event
events =
    subscribed 4 10
    ∷ subscribed 4 11
    ∷ polled (ok 3)
    ∷ subscribed 6 12
    ∷ polled (ok 5)
    ∷ stopped
    ∷ []

run-in_order_example :
    called (run events new).0 ++ waiting (run events new).1.waiters ≡ 10 ∷ 11 ∷ 12 ∷ []
run-in_order_example = run-in_order events 0 (omega arith)

abbrev waiting_two : List Event
waiting_two = subscribed 4 10 ∷ subscribed 2 11 ∷ []

run-answers_due_example :
    let n = (run waiting_two new).1 in
    let r = poll (ok 3) n in
    (called_now : List Waiter) × (r.0 ≡ call_with none called_now)
    × All (λ (w : Waiter). w.target ≤ 3) called_now
    × AllLater 3 r.1.waiters
    × (called_now ++ r.1.waiters ≡ n.waiters)
run-answers_due_example = run-answers_due waiting_two 3
