-- ===== src/LiveWaker.antt =====
-- The wake-ups of parked readers: internal/ds/livewaker.go. Times are numbers of nanoseconds that do not
-- go back. The timer is the time at which it fires, while it is armed.
pub mod Woken
mod Tests
use yasdb.Prelude.{
  ℕ, zero, suc, ◌+◌, ◌-◌, Bool, true, false, not, Option, none, some, List, [], ◌∷◌, leb, ltb, ◌==◌,
  if◌then◌else◌,
}

pub record LiveWaker : Type 0 where
  pub window : ℕ
  pub last_wake : Option ℕ
  pub timer : Option ℕ
  pub pending : Bool

-- `lastWake` is the zero time, further back than any window.
abbrev pub new : ℕ → LiveWaker
new window = record { window = window; last_wake = none; timer = none; pending = false }

-- `now.Sub(w.lastWake) >= w.window`
abbrev pub is_quiet : ℕ → LiveWaker → Bool
is_quiet now w = elim w.last_wake [ none ↦ true | some last ↦ leb (last + w.window) now ]

-- The time that is left of the window, and when the timer fires.
abbrev pub window_end : LiveWaker → ℕ
window_end w = elim w.last_wake [ none ↦ 0 | some last ↦ last + w.window ]

-- Whether `broadcast` is called, and the waker behind it.
unfoldable pub wake : ℕ → LiveWaker → Bool × LiveWaker
wake now w =
    if w.window == 0
    then (true, w)
    else (if is_quiet now w
        then (true, record w { last_wake = some now })
        else (if w.pending then (false, w) else (
          false,
          record w {
            pending = true;
            timer = some (if leb (window_end w) now then now else window_end w);
          },
        )))

unfoldable pub fire : ℕ → LiveWaker → Bool × LiveWaker
fire now w = (true, record w { pending = false; last_wake = some now; timer = none })

unfoldable pub stop : LiveWaker → LiveWaker
stop w = record w { pending = false; timer = none }

-- A commit asks for a wake-up; an armed timer fires. The flag says whether there is a commit that no
-- broadcast has followed.
pub data Event : Type 0 where
  committed fired : ℕ → Event

unfoldable pub fire_armed : Option ℕ → ℕ → Bool × LiveWaker → Bool × LiveWaker
fire_armed none now s = s
fire_armed (some d) now s = let r = fire now s.1 in (if r.0 then false else s.0, r.1)

unfoldable pub handle : Event → Bool × LiveWaker → Bool × LiveWaker
handle (committed now) s = let r = wake now s.1 in (not r.0, r.1)
handle (fired now) s = fire_armed s.1.timer now s

unfoldable pub run : List Event → Bool × LiveWaker → Bool × LiveWaker
run [] s = s
run (e ∷ es) s = run es (handle e s)
