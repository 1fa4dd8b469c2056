-- ===== src/Notifier/Order.antt =====
-- Every callback is called once, in the order of the subscriptions.
use yasdb.Prelude.{
  ℕ, ◌≤◌, ◌≡◌, refl, ap, sym, ◌∙◌, true, false, Option, none, some, List, [], ◌∷◌, ◌++◌, ltb, leb,
  Result, ok, err, Err, store_closed, arith, All, All-append, append-nil, append_assoc, Bool-cases,
  inl, inr,
}
use yasdb.Notifier.{
  Waiter, Notifier, Call, new, insert_waiter, subscribe, ready, behind, call_with, fire, close_all,
  poll, poll_with, poll_for, Event, subscribed, polled, stopped, handle, run,
}

-- The callbacks of calls, of waiters, and of the subscriptions of a run.
abbrev pub called : List Call → List ℕ
called [] = []
called (c ∷ cs) = c.0 ∷ called cs

abbrev pub waiting : List Waiter → List ℕ
waiting [] = []
waiting (w ∷ ws) = w.cb ∷ waiting ws

abbrev pub subscriptions : List Event → List ℕ
subscriptions [] = []
subscriptions (subscribed target cb ∷ es) = cb ∷ subscriptions es
subscriptions (polled seq ∷ es) = subscriptions es
subscriptions (stopped ∷ es) = subscriptions es

-- Each subscription's target is at least the one before it.
abbrev pub IsAscending : ℕ → List Event → Type 0
IsAscending last [] = Unit
IsAscending last (subscribed target cb ∷ es) = (last ≤ target) × IsAscending target es
IsAscending last (polled seq ∷ es) = IsAscending last es
IsAscending last (stopped ∷ es) = IsAscending last es

-- No waiter has a later target, and a closed notifier has none.
record IsReady (last : ℕ) (n : Notifier) : Type 0 where
  pub targets : All (λ (w : Waiter). w.target ≤ last) n.waiters
  pub none_left : n.closed ≡ true → n.waiters ≡ []

false_ne_true : false ≡ true → ⊥
false_ne_true e = cc

waiting-append : (xs ys : List Waiter) → waiting (xs ++ ys) ≡ waiting xs ++ waiting ys
waiting-append [] ys = refl
waiting-append (x ∷ xs) ys = ap (λ r. x.cb ∷ r) (waiting-append xs ys)

called-append : (xs ys : List Call) → called (xs ++ ys) ≡ called xs ++ called ys
called-append [] ys = refl
called-append (x ∷ xs) ys = ap (λ r. x.0 ∷ r) (called-append xs ys)

called-call_with : (e : Option Err) (ws : List Waiter) → called (call_with e ws) ≡ waiting ws
called-call_with e [] = refl
called-call_with e (w ∷ ws) = ap (λ r. w.cb ∷ r) (called-call_with e ws)

pub ready-behind : (d : ℕ) (ws : List Waiter) → ready d ws ++ behind d ws ≡ ws
unfolding ready behind
ready-behind d [] = refl
ready-behind d (w ∷ ws) = elim (Bool-cases (leb w.target d)) [
  | inl due ↦ rw due (ap (λ r. w ∷ r) (ready-behind d ws))
  | inr later ↦ rw later
]

behind-All : (P : Waiter → Type 0) (d : ℕ) (ws : List Waiter) → All P ws → All P (behind d ws)
unfolding behind
behind-All P d [] h = tt
behind-All P d (w ∷ ws) h = elim (Bool-cases (leb w.target d)) [
  | inl due ↦ rw due (behind-All P d ws h.1)
  | inr later ↦ rw later h
]

-- A target that is none of the earlier ones' goes to the end.
insert_waiter-last :
    (w : Waiter) (ws : List Waiter)
    → All (λ (v : Waiter). v.target ≤ w.target) ws
    → insert_waiter w ws ≡ ws ++ (w ∷ [])
unfolding insert_waiter
insert_waiter-last w [] h = refl
insert_waiter-last w (v ∷ vs) h =
    let not_above : ltb w.target v.target ≡ false = ground (arith, h.0) in
    rw not_above (ap (λ r. v ∷ r) (insert_waiter-last w vs h.1))

All-le :
    (a b : ℕ) (ws : List Waiter)
    → a ≤ b
    → All (λ (w : Waiter). w.target ≤ a) ws
    → All (λ (w : Waiter). w.target ≤ b) ws
All-le a b [] le h = tt
All-le a b (w ∷ ws) le h = (omega (arith, h.0), All-le a b ws le h.1)

-- What a run from a notifier, whose waiters come first, answers and leaves.
Answers : Notifier → List ℕ → List Call × Notifier → Type 0
Answers n subs r = called r.0 ++ waiting r.1.waiters ≡ waiting n.waiters ++ subs

fire-Answers : (d : ℕ) (n : Notifier) → Answers n [] (fire d n)
unfolding fire Answers
fire-Answers d n =
    ap (λ r. r ++ waiting (behind d n.waiters)) (called-call_with none (ready d n.waiters))
    ∙ sym (waiting-append (ready d n.waiters) (behind d n.waiters))
    ∙ ap waiting (ready-behind d n.waiters)
    ∙ sym (append-nil _)

behind_nil : (d : ℕ) (ws : List Waiter) → ws ≡ [] → behind d ws ≡ []
unfolding behind
behind_nil d [] e = refl
behind_nil d (w ∷ ws) e = cc

fire-IsReady : (last d : ℕ) (n : Notifier) → IsReady last n → IsReady last (fire d n).1
unfolding fire
fire-IsReady last d n r = record {
  targets = behind-All (λ (w : Waiter). w.target ≤ last) d n.waiters r.targets;
  none_left = λ closed. behind_nil d n.waiters (r.none_left closed);
}

close_all-Answers : (e : Err) (n : Notifier) → Answers n [] (close_all e n)
unfolding close_all Answers
close_all-Answers e n = elim (Bool-cases n.closed) [
  | inl closed ↦ rw closed (sym (append-nil (waiting n.waiters)))
  | inr still ↦ rw still (
      append-nil (called (call_with (some e) n.waiters))
      ∙ called-call_with (some e) n.waiters
      ∙ sym (append-nil (waiting n.waiters)))
]

close_all-IsReady :
    (last : ℕ) (e : Err) (n : Notifier) → IsReady last n → IsReady last (close_all e n).1
unfolding close_all
close_all-IsReady last e n r = elim (Bool-cases n.closed) [
  | inl closed ↦ rw closed (record { targets = r.targets; none_left = λ h. r.none_left closed })
  | inr still ↦ rw still (record { targets = tt; none_left = λ h. refl })
]

idle-Answers : (n : Notifier) → Answers n [] ([], n)
unfolding Answers
idle-Answers n = sym (append-nil (waiting n.waiters))

poll_ok-Answers : (seq : Result ℕ) (n : Notifier) → Answers n [] (poll_with seq n)
unfolding poll_with
poll_ok-Answers (ok seq) n = fire-Answers seq n
poll_ok-Answers (err e) n = close_all-Answers e n

poll_for-Answers :
    (ws : List Waiter) (seq : Result ℕ) (n : Notifier) → Answers n [] (poll_for ws seq n)
unfolding poll_for
poll_for-Answers [] seq n = idle-Answers n
poll_for-Answers (w ∷ ws) seq n = poll_ok-Answers seq n

poll_ok-IsReady :
    (last : ℕ) (seq : Result ℕ) (n : Notifier) → IsReady last n → IsReady last (poll_with seq n).1
unfolding poll_with
poll_ok-IsReady last (ok seq) n r = fire-IsReady last seq n r
poll_ok-IsReady last (err e) n r = close_all-IsReady last e n r

poll_for-IsReady :
    (ws : List Waiter) (last : ℕ) (seq : Result ℕ) (n : Notifier)
    → IsReady last n
    → IsReady last (poll_for ws seq n).1
unfolding poll_for
poll_for-IsReady [] last seq n r = r
poll_for-IsReady (w ∷ ws) last seq n r = poll_ok-IsReady last seq n r

subscribe-Answers :
    (last target cb : ℕ) (n : Notifier)
    → last ≤ target
    → IsReady last n
    → Answers n (cb ∷ []) (subscribe target cb n) × IsReady target (subscribe target cb n).1
unfolding subscribe Answers
subscribe-Answers last target cb n le r = elim (Bool-cases n.closed) [
  | inl closed ↦
      let nobody : n.waiters ≡ [] = r.none_left closed in
      rw closed (
        ap (λ ws. cb ∷ waiting ws) nobody ∙ sym (ap (λ ws. waiting ws ++ (cb ∷ [])) nobody),
        record { targets = All-le last target n.waiters le r.targets; none_left = λ h. nobody },
      )
  | inr still ↦
      let w : Waiter = record { target = target; cb = cb } in
      let last_place = insert_waiter-last w n.waiters (All-le last target n.waiters le r.targets) in
      rw (still, last_place)
        (
          waiting-append n.waiters (w ∷ []),
          record {
            targets =
                All-append (λ (v : Waiter). v.target ≤ target) n.waiters (w ∷ [])
                  (All-le last target n.waiters le r.targets) (omega arith, tt);
            none_left = λ h. absurd (false_ne_true h);
          },
        )
]

-- A later event, behind those before it.
then-Answers :
    (n : Notifier) (first subs : List ℕ) (r : List Call × Notifier) (rest : List Call × Notifier)
    → Answers n first r
    → Answers r.1 subs rest
    → Answers n (first ++ subs) (r.0 ++ rest.0, rest.1)
unfolding Answers
then-Answers n first subs r rest a b =
    ap (λ c. c ++ waiting rest.1.waiters) (called-append r.0 rest.0)
    ∙ append_assoc (called r.0) (called rest.0) (waiting rest.1.waiters)
    ∙ ap (λ c. called r.0 ++ c) b
    ∙ sym (append_assoc (called r.0) (waiting r.1.waiters) subs)
    ∙ ap (λ c. c ++ subs) a
    ∙ append_assoc (waiting n.waiters) first subs

run-Answers :
    (es : List Event) (last : ℕ) (n : Notifier)
    → IsAscending last es
    → IsReady last n
    → Answers n (subscriptions es) (run es n)
unfolding run handle poll
run-Answers [] last n asc r = idle-Answers n
run-Answers (subscribed target cb ∷ es) last n asc r =
    let (a, r2) = subscribe-Answers last target cb n asc.0 r in
    then-Answers n (cb ∷ []) (subscriptions es) _ _ a (run-Answers es target _ asc.1 r2)
run-Answers (polled seq ∷ es) last n asc r =
    then-Answers n [] (subscriptions es) _ _ (poll_for-Answers n.waiters seq n)
      (run-Answers es last _ asc (poll_for-IsReady n.waiters last seq n r))
run-Answers (stopped ∷ es) last n asc r =
    then-Answers n [] (subscriptions es) _ _ (close_all-Answers store_closed n)
      (run-Answers es last _ asc (close_all-IsReady last store_closed n r))

-- In every run of subscriptions with ascending targets (equal ones included), polls, failed polls and
-- a shutdown, the callbacks are called in the order in which they were subscribed, each once or not
-- yet: those called so far, and then those that wait, are the subscriptions of the run.
pub run-in_order :
    (es : List Event) (last : ℕ)
    → IsAscending last es
    → called (run es new).0 ++ waiting (run es new).1.waiters ≡ subscriptions es
unfolding Answers
run-in_order es last asc =
    run-Answers es last new asc (record { targets = tt; none_left = λ h. refl })
