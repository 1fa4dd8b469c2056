-- ===== src/Streamer/Mailbox.antt =====
-- The goroutine of a streamer and the calls that reach it: `run`, `tryRetire` and `drainBurst` of
-- internal/ds/streamer.go, `submitAppend`, `touchStream` and `removeStreamer` of internal/ds/server.go. Each
-- event is one section under the lock `mu`, or one turn of the goroutine's loop, in any order. A request is its
-- number; what a burst answers is in Burst.
pub mod Counts
pub mod Steps
pub mod Answered
mod Tests
use yasdb.Prelude.{
  ℕ, ◌+◌, ◌-◌, Bool, true, false, ◌&&◌, ◌||◌, not, Option, none, some, List, [], ◌∷◌, ◌++◌, ltb,
  ◌==◌, if◌then◌else◌, length, take, drop, map,
}

abbrev pub max_burst : ℕ
max_burst = 512

pub record Mailbox : Type 0 where
  -- `reqs` and `touch`, the buffered channels
  pub reqs : List ℕ
  pub touched : Bool
  -- the bursts that processBurst has taken and not answered, the oldest first: `pending` counts them
  pub bursts : List (List ℕ)
  pub readers : ℕ
  pub dead : Bool
  -- whether `stop` is closed, and whether the goroutine has returned
  pub stopping : Bool
  pub returned : Bool
  pub registered : Bool

abbrev pub new : Mailbox
new = record {
  reqs = [];
  touched = false;
  bursts = [];
  readers = 0;
  dead = false;
  stopping = false;
  returned = false;
  registered = true;
}

pub record Answer : Type 0 where
  pub to : ℕ
  pub gone : Bool

abbrev pub answered_burst : List ℕ → List Answer
answered_burst = map (λ (r : ℕ). record { to = r; gone = false })

-- `appendResp{status: 404}`
abbrev pub answered_gone : List ℕ → List Answer
answered_gone = map (λ (r : ℕ). record { to = r; gone = true })

-- How an attempt of `submitAppend` ends: the streamer is dead and another one is looked up, the channel is full
-- and the sender waits, or the request is sent.
pub data Submitted : Type 0 where
  look_again blocked sent : Submitted

unfoldable pub submit : ℕ → Mailbox → Submitted × Mailbox
submit r m =
    if m.dead
    then (look_again, m)
    else (if ltb (length m.reqs) max_burst
        then (sent, record m { reqs = m.reqs ++ (r ∷ []) })
        else (blocked, m))

-- `touchStream`: a touch that is there already absorbs this one.
unfoldable pub touch : Mailbox → Mailbox
touch m = if m.dead then m else record m { touched = true }

-- `removeStreamer`, once the registry has given the streamer up.
unfoldable pub remove_forced : Mailbox → Mailbox
remove_forced m =
    if m.dead
    then record m { registered = false }
    else record m { registered = false; dead = true; stopping = true }

-- `case req := <-s.reqs`: drainBurst takes what is queued, up to maxBurst requests.
unfoldable pub take_burst : Mailbox → Mailbox
take_burst m = elim m.reqs [
  | [] ↦ m
  | r ∷ rs ↦ record m {
    reqs = drop max_burst m.reqs;
    bursts = m.bursts ++ (take max_burst m.reqs ∷ []);
  }
]

-- `case <-s.touch`
unfoldable pub take_touch : Mailbox → Mailbox
take_touch m = record m { touched = false }

-- The oldest burst is answered: by its commit, or from the notifier.
unfoldable pub finish_burst : Mailbox → List Answer × Mailbox
finish_burst m = elim m.bursts [
  | [] ↦ ([], m)
  | b ∷ bs ↦ (answered_burst b, record m { bursts = bs })
]

-- `case <-timer.C`: whether `tryRetire` gives the streamer up.
unfoldable pub is_busy : Mailbox → Bool
is_busy m = (ltb 0 (length m.reqs) || ltb 0 m.readers || ltb 0 (length m.bursts))

unfoldable pub try_retire : Mailbox → Mailbox
unfolding is_busy
try_retire m =
    if is_busy m then m else record m { registered = false; dead = true; returned = true }

-- `case <-s.stop`: everything that is queued is answered 404.
unfoldable pub drain_stop : Mailbox → List Answer × Mailbox
drain_stop m =
    if m.stopping then (answered_gone m.reqs, record m { reqs = []; returned = true }) else ([], m)

pub data Event : Type 0 where
  submits : ℕ → Event
  touches removes takes_burst takes_touch finishes idles stops joins leaves : Event

-- A turn of the goroutine, as long as it has not returned.
abbrev pub turn : Mailbox → List Answer × Mailbox → List Answer × Mailbox
turn m r = if m.returned then ([], m) else r

unfoldable pub handle : Event → Mailbox → List Answer × Mailbox
unfolding submit touch remove_forced take_burst take_touch finish_burst try_retire drain_stop
handle (submits r) m = ([], (submit r m).1)
handle touches m = ([], touch m)
handle removes m = ([], remove_forced m)
handle takes_burst m = turn m ([], take_burst m)
handle takes_touch m = turn m ([], take_touch m)
handle finishes m = finish_burst m
handle idles m = turn m ([], try_retire m)
handle stops m = turn m (drain_stop m)
handle joins m = ([], record m { readers = m.readers + 1 })
handle leaves m = ([], record m { readers = m.readers - 1 })

unfoldable pub run : List Event → Mailbox → List Answer × Mailbox
unfolding handle
run [] m = ([], m)
run (e ∷ es) m = let now = handle e m in let rest = run es now.1 in (now.0 ++ rest.0, rest.1)
