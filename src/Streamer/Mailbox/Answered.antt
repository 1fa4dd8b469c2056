-- ===== src/Streamer/Mailbox/Answered.antt =====
-- No request of a streamer is left without an answer.
use yasdb.Prelude.{
  ℕ, ◌+◌, ◌-◌, ◌≡◌, inl, refl, ◌∙◌, Bool, true, false, List, [], ◌∷◌, arith, if-elim,
}
use yasdb.Streamer.Mailbox.{
  Mailbox, Answer, submit, touch, take_touch, Event, submits, touches, removes, takes_burst,
  takes_touch, finishes, idles, stops, joins, leaves, turn, handle, run, new,
}
use yasdb.Streamer.Mailbox.Counts.{answers_of, open_of, answers_of-append}
use yasdb.Streamer.Mailbox.Steps.{
  was_sent, none_fresh, Settles, IsSound, same-Settles, submit-Settles, remove_forced-Settles,
  take_burst-Settles, finish_burst-Settles, try_retire-Settles, drain_stop-Settles,
}

fresh_of : ℕ → Event → Mailbox → ℕ
unfolding was_sent
fresh_of id (submits r) m = was_sent (submit r m).0 r id
fresh_of id touches m = 0
fresh_of id removes m = 0
fresh_of id takes_burst m = 0
fresh_of id takes_touch m = 0
fresh_of id finishes m = 0
fresh_of id idles m = 0
fresh_of id stops m = 0
fresh_of id joins m = 0
fresh_of id leaves m = 0

unfoldable pub sends_of : ℕ → List Event → Mailbox → ℕ
unfolding fresh_of
sends_of id [] m = 0
sends_of id (e ∷ es) m = fresh_of id e m + sends_of id es (handle e m).1

-- A turn of the goroutine, which only happens as long as it has not returned.
turn-Settles :
    (m : Mailbox) (r : List Answer × Mailbox)
    → IsSound m
    → (m.returned ≡ false → Settles m none_fresh r)
    → Settles m none_fresh (turn m r)
turn-Settles m r h step =
    if-elim (λ (x : List Answer × Mailbox). Settles m none_fresh x) m.returned _ _
      (λ over. same-Settles m h) step

-- A step that changes neither the queue, the bursts nor what marks the end.
touched-Settles :
    (m : Mailbox) (t : Bool) (n : ℕ)
    → IsSound m
    → Settles m none_fresh ([], record m { touched = t; readers = n })
unfolding none_fresh
touched-Settles m t n h = record {
  sound = record {
    returned = h.returned;
    woken = h.woken;
    unregistered = h.unregistered;
    forced = h.forced;
    room = h.room;
  };
  accounted = λ id. omega arith;
}

handle-Settles :
    (e : Event) (m : Mailbox) → IsSound m → Settles m (λ id. fresh_of id e m) (handle e m)
unfolding handle fresh_of none_fresh touch take_touch
handle-Settles (submits r) m h = submit-Settles r m h
handle-Settles touches m h =
    if-elim (λ (n : Mailbox). Settles m none_fresh ([], n)) m.dead _ _ (λ gone. same-Settles m h)
      (λ alive. touched-Settles m true m.readers h)
handle-Settles removes m h = remove_forced-Settles m h
handle-Settles takes_burst m h = turn-Settles m _ h (λ runs. take_burst-Settles m runs h)
handle-Settles takes_touch m h = turn-Settles m _ h (λ runs. touched-Settles m false m.readers h)
handle-Settles finishes m h = finish_burst-Settles m h
handle-Settles idles m h = turn-Settles m _ h (λ runs. try_retire-Settles m h)
handle-Settles stops m h = turn-Settles m _ h (λ runs. drain_stop-Settles m runs h)
handle-Settles joins m h = touched-Settles m m.touched (m.readers + 1) h
handle-Settles leaves m h = touched-Settles m m.touched (m.readers - 1) h

run-Settles :
    (es : List Event) (m : Mailbox) → IsSound m → Settles m (λ id. sends_of id es m) (run es m)
unfolding run sends_of
run-Settles [] m h = record { sound = h; accounted = λ id. omega arith }
run-Settles (e ∷ es) m h =
    let now = handle-Settles e m h in
    let rest = run-Settles es (handle e m).1 now.sound in
    record {
      sound = rest.sound;
      accounted = λ id. omega (
        arith,
        now.accounted id,
        rest.accounted id,
        answers_of-append id (handle e m).0 (run es (handle e m).1).0,
      );
    }

-- Over every sequence of submissions, touches, removals and turns of the goroutine, a request that a streamer
-- has accepted is answered exactly once or is still open, and the streamer stays sound: when its goroutine
-- returns nothing is queued, and while it has not, a dead streamer still has its `stop` to find.
pub run-answers :
    (es : List Event) (id : ℕ)
    → (answers_of id (run es new).0 + open_of id (run es new).1 ≡ sends_of id es new)
      × IsSound (run es new).1
run-answers es id =
    let all = run-Settles es new (record {
      returned = inl refl;
      woken = inl refl;
      unregistered = inl refl;
      forced = inl refl;
      room = omega arith;
    }) in
    (all.accounted id ∙ omega arith, all.sound)
