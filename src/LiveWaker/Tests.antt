-- ===== src/LiveWaker/Tests.antt =====
-- A first commit wakes at once, and two more inside the window wait for the timer.
use yasdb.Prelude.{ℕ, ◌+◌, ◌≤◌, ◌≡◌, refl, true, false, some, List, [], ◌∷◌, arith}
use yasdb.LiveWaker.{new, wake, Event, committed, fired, handle, run}
use yasdb.LiveWaker.Woken.{last_time, run-woken}

abbrev events : List Event
events = committed 100 ∷ committed 103 ∷ committed 105 ∷ []

still_waiting : (run events (false, new 10)).0 ≡ true
unfolding run handle wake
still_waiting = refl

run-woken_example :
    (d : ℕ) × ((run events (false, new 10)).1.timer ≡ some d)
    × (d ≤ last_time 0 events + 10)
    × ((handle (fired d) (run events (false, new 10))).0 ≡ false)
run-woken_example =
    run-woken 10 events (omega arith, (omega arith, (omega arith, tt))) still_waiting
