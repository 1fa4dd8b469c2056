-- ===== src/LiveWaker/Woken.antt =====
-- No commit is left without a wake-up.
use yasdb.Prelude.{
  ℕ, ◌+◌, ◌≤◌, ◌≡◌, refl, ap, subst, Bool, true, false, not, Option, none, some, List, [], ◌∷◌, leb,
  ◌==◌, if◌then◌else◌, if-elim, arith,
}
use yasdb.LiveWaker.{
  LiveWaker, new, is_quiet, window_end, wake, fire, Event, committed, fired, fire_armed, handle,
  run,
}

-- Times that do not go back, and the last of them.
abbrev pub IsOrdered : ℕ → List Event → Type 0
IsOrdered now [] = Unit
IsOrdered now (committed t ∷ es) = (now ≤ t) × IsOrdered t es
IsOrdered now (fired t ∷ es) = (now ≤ t) × IsOrdered t es

abbrev pub last_time : ℕ → List Event → ℕ
last_time now [] = now
last_time now (committed t ∷ es) = last_time t es
last_time now (fired t ∷ es) = last_time t es

abbrev LastBy : ℕ → Option ℕ → Type 0
LastBy now none = Unit
LastBy now (some last) = last ≤ now

LastBy-later : (now t : ℕ) (last : Option ℕ) → now ≤ t → LastBy now last → LastBy t last
LastBy-later now t none h l = tt
LastBy-later now t (some last) h l = omega arith

abbrev pub IsArmed : ℕ → Option ℕ → Type 0
IsArmed bound timer = (d : ℕ) × (timer ≡ some d) × (d ≤ bound)

-- While a commit waits the timer is armed.
abbrev IsWatched : ℕ → ℕ → Bool × LiveWaker → Type 0
IsWatched window now s =
    (s.1.window ≡ window)
    × LastBy now s.1.last_wake
    × (s.1.pending ≡ true → IsArmed (now + window) s.1.timer)
    × (s.0 ≡ true → s.1.pending ≡ true)

IsArmed-later :
    (window now t : ℕ) (timer : Option ℕ)
    → now ≤ t
    → IsArmed (now + window) timer
    → IsArmed (t + window) timer
IsArmed-later window now t timer h (d, e, b) = (d, e, omega arith)

end_by :
    (window now : ℕ) (last : Option ℕ)
    → LastBy now last
    → elim last [ none ↦ 0 | some l ↦ l + window ] ≤ now + window
end_by window now none l = omega arith
end_by window now (some last) l = omega arith

due_by :
    (window now end : ℕ) → end ≤ now + window → (if leb end now then now else end) ≤ now + window
due_by window now end h = ground arith

IsWatched-wake :
    (window now t : ℕ) (u : Bool) (w : LiveWaker)
    → now ≤ t
    → IsWatched window now (u, w)
    → IsWatched window t (not (wake t w).0, (wake t w).1)
unfolding wake
IsWatched-wake window now t u w h (win, last, armed, waits) =
    let P = λ (r : Bool × LiveWaker). IsWatched window t (not r.0, r.1) in
    let lasts = LastBy-later now t w.last_wake h last in
    let arms = λ (p : w.pending ≡ true). IsArmed-later window now t w.timer h (armed p) in
    if-elim P (w.window == 0) _ _ (λ off. (win, lasts, arms, λ e. cc))
      (λ on.
        if-elim P (is_quiet t w) _ _ (λ quiet. (win, omega arith, arms, λ e. cc))
          (λ busy.
            if-elim P w.pending _ _ (λ p. (win, lasts, arms, λ e. p))
              (λ idle. (
                win,
                lasts,
                λ p. (
                  (if leb (window_end w) t then t else window_end w),
                  refl,
                  due_by window t (window_end w)
                      (subst (λ n. window_end w ≤ t + n) win (end_by w.window t w.last_wake lasts)),
                ),
                λ e. refl,
              ))))

IsWatched-fire_armed :
    (window now t : ℕ) (timer : Option ℕ) (s : Bool × LiveWaker)
    → now ≤ t
    → IsWatched window now s
    → IsWatched window t (fire_armed timer t s)
unfolding fire_armed fire
IsWatched-fire_armed window now t none s h (win, last, armed, waits) = (
  win,
  LastBy-later now t s.1.last_wake h last,
  λ p. IsArmed-later window now t s.1.timer h (armed p),
  waits,
)
IsWatched-fire_armed window now t (some d) s h (win, last, armed, waits) =
    (win, omega arith, λ p. cc, λ e. cc)

run-IsWatched :
    (window now : ℕ) (es : List Event) (s : Bool × LiveWaker)
    → IsOrdered now es
    → IsWatched window now s
    → IsWatched window (last_time now es) (run es s)
unfolding run handle
run-IsWatched window now [] s o i = i
run-IsWatched window now (committed t ∷ es) s (h, o) i =
    run-IsWatched window t es (handle (committed t) s) o (IsWatched-wake window now t s.0 s.1 h i)
run-IsWatched window now (fired t ∷ es) s (h, o) i =
    run-IsWatched window t es (handle (fired t) s) o
      (IsWatched-fire_armed window now t s.1.timer s h i)

-- In every run of commits and fires of the timer at times that do not go back, a commit that no
-- broadcast has followed yet has the timer armed, for at most a window after the last event, and
-- when it fires the readers are woken: no commit is left without a wake-up.
pub run-woken :
    (window : ℕ) (es : List Event)
    → IsOrdered 0 es
    → (run es (false, new window)).0 ≡ true
    → (d : ℕ) × ((run es (false, new window)).1.timer ≡ some d)
      × (d ≤ last_time 0 es + window)
      × ((handle (fired d) (run es (false, new window))).0 ≡ false)
unfolding handle fire_armed fire
run-woken window es o waiting =
    let s = run es (false, new window) in
    let (win, last, armed, waits) =
      run-IsWatched window 0 es (false, new window) o (refl, tt, λ p. cc, λ e. cc) in
    let (d, is, bound) = armed (waits waiting) in
    (d, is, bound, ap (λ timer. (fire_armed timer d s).0) is)
