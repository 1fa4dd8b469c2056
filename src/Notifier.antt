-- ===== src/Notifier.antt =====
-- The durability notifier: internal/ds/durability.go. Its operations run one at a time under its lock,
-- and the callbacks of a call of `fire` or `closeAll` are made in order by the one poller goroutine. A
-- callback is a number, and a call of it is listed with its argument; `none` is nil.
pub mod Order
pub mod Due
mod Tests
use yasdb.Prelude.{
  ℕ, Bool, true, false, Option, none, some, List, [], ◌∷◌, ◌++◌, ltb, leb, if◌then◌else◌, Result,
  ok, err, Err, store_closed, map,
}

-- `durWaiter`.
pub record Waiter : Type 0 where
  pub target : ℕ
  pub cb : ℕ

pub record Notifier : Type 0 where
  pub waiters : List Waiter
  pub last_durable : ℕ
  pub closed : Bool

abbrev pub new : Notifier
new = record { waiters = []; last_durable = 0; closed = false }

-- A callback and its argument.
abbrev pub Call : Type 0
Call = ℕ × Option Err

-- At the place that `sort.Search` finds in ascending targets: in front of the first that is above.
unfoldable pub insert_waiter : Waiter → List Waiter → List Waiter
insert_waiter w [] = w ∷ []
insert_waiter w (v ∷ vs) =
    let rest = insert_waiter w vs in if ltb w.target v.target then w ∷ v ∷ vs else v ∷ rest

unfoldable pub subscribe : ℕ → ℕ → Notifier → List Call × Notifier
unfolding insert_waiter
subscribe target cb n =
    if n.closed
    then ((cb, some store_closed) ∷ [], n)
    else ([], record n { waiters = insert_waiter (record { target = target; cb = cb }) n.waiters })

-- The waiters that are ready, in front, and those behind them.
unfoldable pub ready : ℕ → List Waiter → List Waiter
ready durable [] = []
ready durable (w ∷ ws) =
    let rest = ready durable ws in if leb w.target durable then w ∷ rest else []

unfoldable pub behind : ℕ → List Waiter → List Waiter
behind durable [] = []
behind durable (w ∷ ws) =
    let rest = behind durable ws in if leb w.target durable then rest else w ∷ ws

abbrev pub call_with : Option Err → List Waiter → List Call
call_with e [] = []
call_with e (w ∷ ws) = (w.cb, e) ∷ call_with e ws

unfoldable pub fire : ℕ → Notifier → List Call × Notifier
unfolding ready behind
fire durable n = (
  call_with none (ready durable n.waiters),
  record n {
    waiters = behind durable n.waiters;
    last_durable = if ltb n.last_durable durable then durable else n.last_durable;
  },
)

unfoldable pub close_all : Err → Notifier → List Call × Notifier
close_all e n =
    if n.closed
    then ([], n)
    else (call_with (some e) n.waiters, record n { waiters = []; closed = true })

unfoldable pub poll_with : Result ℕ → Notifier → List Call × Notifier
unfolding fire close_all
poll_with (ok seq) n = fire seq n
poll_with (err e) n = close_all e n

-- The argument is what `DurableSeq` gives; it is called only if somebody waits.
unfoldable pub poll_for : List Waiter → Result ℕ → Notifier → List Call × Notifier
unfolding poll_with
poll_for [] seq n = ([], n)
poll_for (w ∷ ws) seq n = poll_with seq n

unfoldable pub poll : Result ℕ → Notifier → List Call × Notifier
unfolding poll_for
poll seq n = poll_for n.waiters seq n

-- What may happen to a notifier: a subscription, a round of `run` with a poll, and its last round.
pub data Event : Type 0 where
  subscribed : ℕ → ℕ → Event
  polled : Result ℕ → Event
  stopped : Event

unfoldable pub handle : Event → Notifier → List Call × Notifier
unfolding subscribe poll close_all
handle (subscribed target cb) n = subscribe target cb n
handle (polled seq) n = poll seq n
handle stopped n = close_all store_closed n

-- The calls of a run of events, and the notifier behind it.
unfoldable pub run : List Event → Notifier → List Call × Notifier
run [] n = ([], n)
run (e ∷ es) n = let r = handle e n in let rest = run es r.1 in (r.0 ++ rest.0, rest.1)
