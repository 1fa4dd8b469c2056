-- ===== src/Streamer/Mailbox/Tests.antt =====
-- A streamer that takes a request, is removed with another one queued, and stops.
use yasdb.Prelude.{◌+◌, ◌≡◌, refl, true, false, List, [], ◌∷◌}
use yasdb.Streamer.Mailbox.{
  Event, submits, removes, takes_burst, finishes, idles, stops, run, handle, new, submit,
  take_burst, finish_burst, remove_forced, drain_stop, try_retire,
}
use yasdb.Streamer.Mailbox.Counts.{answers_of, open_of}
use yasdb.Streamer.Mailbox.Steps.{IsSound}
use yasdb.Streamer.Mailbox.Answered.{sends_of, run-answers}

abbrev removed_while_queued : List Event
removed_while_queued =
    submits 7 ∷ takes_burst ∷ submits 8 ∷ removes ∷ submits 9 ∷ stops ∷ finishes ∷ idles ∷ []

answers :
    (run removed_while_queued new).0
    ≡ record { to = 8; gone = true } ∷ record { to = 7; gone = false } ∷ []
unfolding run handle submit take_burst finish_burst remove_forced drain_stop try_retire
answers = refl

run-answers_example :
    (answers_of 8 (run removed_while_queued new).0 + open_of 8 (run removed_while_queued new).1
      ≡ sends_of 8 removed_while_queued new)
    × IsSound (run removed_while_queued new).1
run-answers_example = run-answers removed_while_queued 8

-- An idle streamer retires only when nothing is queued.
retires : (run (submits 7 ∷ idles ∷ []) new).1.returned ≡ false
unfolding run handle submit try_retire
retires = refl
