-- ===== src/Notifier/Due.antt =====
-- Whoever is due is answered, and nobody else.
use yasdb.Prelude.{
  ℕ, ◌≤◌, ◌<◌, ◌≡◌, refl, ap, none, List, [], ◌∷◌, ◌++◌, ltb, leb, Result, ok, err, Err,
  store_closed, arith, All, Bool-cases, inl, inr,
}
use yasdb.Notifier.Order.{ready-behind}
use yasdb.Notifier.{
  Waiter, Notifier, new, insert_waiter, subscribe, ready, behind, call_with, fire, close_all, poll,
  poll_with, poll_for, Event, subscribed, polled, stopped, handle, run,
}

-- Ascending targets, from a lower bound on.
abbrev pub IsSorted : ℕ → List Waiter → Type 0
IsSorted low [] = Unit
IsSorted low (w ∷ ws) = (low ≤ w.target) × IsSorted w.target ws

IsSorted-le : (a b : ℕ) (ws : List Waiter) → a ≤ b → IsSorted b ws → IsSorted a ws
IsSorted-le a b [] h s = tt
IsSorted-le a b (w ∷ ws) h s = (omega (arith, s.0), s.1)

insert_waiter-IsSorted :
    (low : ℕ) (w : Waiter) (ws : List Waiter)
    → low ≤ w.target
    → IsSorted low ws
    → IsSorted low (insert_waiter w ws)
unfolding insert_waiter
insert_waiter-IsSorted low w [] h s = (h, tt)
insert_waiter-IsSorted low w (v ∷ vs) h s = elim (Bool-cases (ltb w.target v.target)) [
  | inl before ↦ rw before (h, (ground arith, s.1))
  | inr after ↦ rw after (s.0, insert_waiter-IsSorted v.target w vs (ground arith) s.1)
]

behind-IsSorted : (low d : ℕ) (ws : List Waiter) → IsSorted low ws → IsSorted low (behind d ws)
unfolding behind
behind-IsSorted low d [] s = tt
behind-IsSorted low d (w ∷ ws) s = elim (Bool-cases (leb w.target d)) [
  | inl due ↦ rw due (behind-IsSorted low d ws (IsSorted-le low w.target ws s.0 s.1))
  | inr later ↦ rw later s
]

close_all-IsSorted :
    (e : Err) (n : Notifier) → IsSorted 0 n.waiters → IsSorted 0 (close_all e n).1.waiters
unfolding close_all
close_all-IsSorted e n s = elim (Bool-cases n.closed) [
  | inl closed ↦ rw closed s
  | inr still ↦ rw still tt
]

poll_for-IsSorted :
    (ws : List Waiter) (seq : Result ℕ) (n : Notifier)
    → IsSorted 0 n.waiters
    → IsSorted 0 (poll_for ws seq n).1.waiters
unfolding poll_for poll_with fire
poll_for-IsSorted [] seq n s = s
poll_for-IsSorted (w ∷ ws) (ok seq) n s = behind-IsSorted 0 seq n.waiters s
poll_for-IsSorted (w ∷ ws) (err e) n s = close_all-IsSorted e n s

-- Sorted waiters stay so.
handle-IsSorted :
    (e : Event) (n : Notifier) → IsSorted 0 n.waiters → IsSorted 0 (handle e n).1.waiters
unfolding handle subscribe
handle-IsSorted (subscribed target cb) n s = elim (Bool-cases n.closed) [
  | inl closed ↦ rw closed s
  | inr still ↦
      rw still
        (insert_waiter-IsSorted 0 (record { target = target; cb = cb }) n.waiters (omega arith) s)
]
handle-IsSorted (polled seq) n s = poll_for-IsSorted n.waiters seq n s
handle-IsSorted stopped n s = close_all-IsSorted store_closed n s

run-IsSorted :
    (es : List Event) (n : Notifier) → IsSorted 0 n.waiters → IsSorted 0 (run es n).1.waiters
unfolding run
run-IsSorted [] n s = s
run-IsSorted (e ∷ es) n s = run-IsSorted es (handle e n).1 (handle-IsSorted e n s)

-- The targets of the waiters that a round answers.
abbrev AllDue : ℕ → List Waiter → Type 0
AllDue d = All (λ (w : Waiter). w.target ≤ d)

abbrev pub AllLater : ℕ → List Waiter → Type 0
AllLater d = All (λ (w : Waiter). d < w.target)

sorted-AllLater : (d low : ℕ) (ws : List Waiter) → d < low → IsSorted low ws → AllLater d ws
sorted-AllLater d low [] h s = tt
sorted-AllLater d low (w ∷ ws) h s =
    (omega (arith, s.0), sorted-AllLater d w.target ws (omega (arith, s.0)) s.1)

behind-AllLater : (d low : ℕ) (ws : List Waiter) → IsSorted low ws → AllLater d (behind d ws)
unfolding behind
behind-AllLater d low [] s = tt
behind-AllLater d low (w ∷ ws) s = elim (Bool-cases (leb w.target d)) [
  | inl due ↦ rw due (behind-AllLater d w.target ws s.1)
  | inr later ↦ rw later (ground arith, sorted-AllLater d w.target ws (ground arith) s.1)
]

ready-AllDue : (d : ℕ) (ws : List Waiter) → AllDue d (ready d ws)
unfolding ready
ready-AllDue d [] = tt
ready-AllDue d (w ∷ ws) = elim (Bool-cases (leb w.target d)) [
  | inl due ↦ rw due (ground arith, ready-AllDue d ws)
  | inr later ↦ rw later tt
]

ready_nil : (d : ℕ) → ready d [] ≡ []
unfolding ready
ready_nil d = refl

nobody_ready : (d : ℕ) → [] ≡ call_with none (ready d [])
unfolding ready
nobody_ready d = refl

-- A poll of the waiters that there are.
poll_for_due :
    (d : ℕ) (ws : List Waiter) (n : Notifier)
    → n.waiters ≡ ws
    → IsSorted 0 n.waiters
    → let r = poll_for ws (ok d) n in
      (r.0 ≡ call_with none (ready d n.waiters))
      × AllDue d (ready d n.waiters)
      × AllLater d r.1.waiters
      × (ready d n.waiters ++ r.1.waiters ≡ n.waiters)
unfolding poll_for poll_with fire
poll_for_due d [] n e s = (
  rw e (nobody_ready d),
  ready-AllDue d n.waiters,
  rw e tt,
  rw e (ap (λ r. r ++ []) (ready_nil d)),
)
poll_for_due d (w ∷ ws) n e s =
    (refl, ready-AllDue d n.waiters, behind-AllLater d 0 n.waiters s, ready-behind d n.waiters)

-- After every run, whatever the order of the targets, a poll that finds the durable number d calls
-- with success exactly those waiters whose target is at most d, and leaves those whose target is later.
pub run-answers_due :
    (es : List Event) (d : ℕ)
    → let n = (run es new).1 in
      let r = poll (ok d) n in
      (called_now : List Waiter) × (r.0 ≡ call_with none called_now)
      × All (λ (w : Waiter). w.target ≤ d) called_now
      × AllLater d r.1.waiters
      × (called_now ++ r.1.waiters ≡ n.waiters)
unfolding poll
run-answers_due es d =
    let n = (run es new).1 in
    let (a, b, c, e) = poll_for_due d n.waiters n refl (run-IsSorted es new tt) in
    (ready d n.waiters, a, b, c, e)
