-- ===== src/Streamer/Mailbox/Steps.antt =====
-- Each step of a streamer's mailbox accounts for the requests: internal/ds/streamer.go, internal/ds/server.go.
use yasdb.Prelude.{
  ℕ, zero, suc, ◌<◌, ◌+◌, ◌≤◌, ◌≡◌, ◌⊎◌, inl, inr, refl, ap, sym, ◌∙◌, true, false, ◌||◌, List, [],
  ◌∷◌, ◌++◌, ltb, ◌==◌, if◌then◌else◌, length, take, drop, arith, if-elim, length-append,
}
use yasdb.Streamer.Mailbox.Counts.{
  bursts_of, answers_of, open_of, requests_of-append, requests_of-split, bursts_of-append,
  answers_of-burst, answers_of-gone,
}
use yasdb.Streamer.Mailbox.{
  Mailbox, Answer, answered_burst, Submitted, sent, look_again, blocked, submit, remove_forced,
  take_burst, finish_burst, is_busy, try_retire, drain_stop, max_burst,
}

-- Whether a run sends a request: the submissions that find the streamer alive and its channel with room.
unfoldable pub was_sent : Submitted → ℕ → ℕ → ℕ
was_sent look_again r id = 0
was_sent blocked r id = 0
was_sent sent r id = if r == id then 1 else 0

-- What holds of a mailbox at any time: a goroutine that has returned has left nothing queued, a dead streamer is
-- no longer registered and its goroutine has returned or will find `stop` closed.
pub record IsSound (m : Mailbox) : Type 0 where
  pub returned : (m.returned ≡ false) ⊎ ((m.reqs ≡ []) × (m.dead ≡ true))
  pub woken : (m.dead ≡ false) ⊎ ((m.stopping ≡ true) ⊎ (m.returned ≡ true))
  pub unregistered : (m.dead ≡ false) ⊎ (m.registered ≡ false)
  pub forced : (m.stopping ≡ false) ⊎ (m.dead ≡ true)
  pub room : length m.reqs ≤ 512

-- A step that keeps the mailbox sound and accounts for every request.
pub record Settles (m : Mailbox) (fresh : ℕ → ℕ) (r : List Answer × Mailbox) : Type 0 where
  pub sound : IsSound r.1
  pub accounted : (id : ℕ) → answers_of id r.0 + open_of id r.1 ≡ fresh id + open_of id m

unfoldable pub none_fresh : ℕ → ℕ
none_fresh id = 0

pub same-Settles : (m : Mailbox) → IsSound m → Settles m none_fresh ([], m)
unfolding none_fresh
same-Settles m h = record { sound = h; accounted = λ id. omega arith }

ltb_lt : (a b : ℕ) → ltb a b ≡ true → a < b
ltb_lt a b h = ground arith

alive_runs : (m : Mailbox) → IsSound m → m.dead ≡ false → m.returned ≡ false
alive_runs m h alive = elim h.returned [
  | inl runs ↦ runs
  | inr (none_left, gone) ↦ absurd (let clash : false ≡ true = sym alive ∙ gone in cc)
]

pub submit-Settles :
    (r : ℕ) (m : Mailbox)
    → IsSound m
    → Settles m (λ id. was_sent (submit r m).0 r id) ([], (submit r m).1)
unfolding submit was_sent
submit-Settles r m h =
    let P = λ (s : Submitted × Mailbox). Settles m (λ id. was_sent s.0 r id) ([], s.1) in
    if-elim P m.dead _ _ (λ gone. record { sound = h; accounted = λ id. omega arith })
      (λ alive.
        if-elim P (ltb (length m.reqs) max_burst) _ _
          (λ fits. record {
            sound = record {
              returned = inl (alive_runs m h alive);
              woken = h.woken;
              unregistered = h.unregistered;
              forced = h.forced;
              room =
                  omega (arith, length-append {0} m.reqs (r ∷ []), ltb_lt (length m.reqs) 512 fits);
            };
            accounted = λ id. omega (arith, requests_of-append id m.reqs (r ∷ []));
          })
          (λ full. record { sound = h; accounted = λ id. omega arith }))

length-drop_le : (n : ℕ) (rs : List ℕ) → length (drop n rs) ≤ length rs
length-drop_le zero rs = omega arith
length-drop_le (suc n) [] = omega arith
length-drop_le (suc n) (r ∷ rs) = omega (arith, length-drop_le n rs)

no_requests : (rs : List ℕ) → ltb 0 (length rs) ≡ false → rs ≡ []
no_requests [] h = refl
no_requests (r ∷ rs) h = absurd (ground arith)

pub remove_forced-Settles : (m : Mailbox) → IsSound m → Settles m none_fresh ([], remove_forced m)
unfolding remove_forced none_fresh
remove_forced-Settles m h =
    if-elim (λ (n : Mailbox). Settles m none_fresh ([], n)) m.dead _ _
      (λ gone. record {
        sound = record {
          returned = h.returned;
          woken = h.woken;
          unregistered = inr refl;
          forced = h.forced;
          room = h.room;
        };
        accounted = λ id. omega arith;
      })
      (λ alive. record {
        sound = record {
          returned = inl (alive_runs m h alive);
          woken = inr (inl refl);
          unregistered = inr refl;
          forced = inr refl;
          room = h.room;
        };
        accounted = λ id. omega arith;
      })

pub take_burst-Settles :
    (m : Mailbox) → m.returned ≡ false → IsSound m → Settles m none_fresh ([], take_burst m)
unfolding take_burst none_fresh
take_burst-Settles m runs h = go m.reqs refl
  where
    taken : Mailbox
    taken = record m {
      reqs = drop max_burst m.reqs;
      bursts = m.bursts ++ (take max_burst m.reqs ∷ []);
    }

    taken-Settles : Settles m none_fresh ([], taken)
    taken-Settles = record {
      sound = record {
        returned = inl runs;
        woken = h.woken;
        unregistered = h.unregistered;
        forced = h.forced;
        room = let r = h.room in omega (arith, length-drop_le max_burst m.reqs);
      };
      accounted = λ id. omega (
        arith,
        bursts_of-append id m.bursts (take max_burst m.reqs ∷ []),
        requests_of-split id max_burst m.reqs,
      );
    }

    go :
        (rs : List ℕ)
        → m.reqs ≡ rs
        → Settles m none_fresh ([], elim rs [ [] ↦ m | r ∷ more ↦ taken ])
    go [] e = same-Settles m h
    go (r ∷ rs) e = taken-Settles

pub finish_burst-Settles : (m : Mailbox) → IsSound m → Settles m none_fresh (finish_burst m)
unfolding finish_burst none_fresh
finish_burst-Settles m h = go m.bursts refl
  where
    go :
        (bs : List (List ℕ))
        → m.bursts ≡ bs
        → Settles m none_fresh
            (elim bs [ [] ↦ ([], m) | b ∷ more ↦ (answered_burst b, record m { bursts = more }) ])
    go [] e = same-Settles m h
    go (b ∷ bs) e = record {
      sound = record {
        returned = h.returned;
        woken = h.woken;
        unregistered = h.unregistered;
        forced = h.forced;
        room = h.room;
      };
      accounted = λ id. omega (arith, answers_of-burst id b, ap (bursts_of id) e);
    }

pub try_retire-Settles : (m : Mailbox) → IsSound m → Settles m none_fresh ([], try_retire m)
unfolding try_retire is_busy none_fresh
try_retire-Settles m h =
    if-elim (λ (n : Mailbox). Settles m none_fresh ([], n))
      (ltb 0 (length m.reqs) || ltb 0 m.readers || ltb 0 (length m.bursts)) _ _
      (λ busy. same-Settles m h)
      (λ idle. record {
        sound = record {
          returned = inr (no_requests m.reqs (ground arith), refl);
          woken = inr (inr refl);
          unregistered = inr refl;
          forced = inr refl;
          room = h.room;
        };
        accounted = λ id. omega arith;
      })

was_dead : (m : Mailbox) → IsSound m → m.stopping ≡ true → m.dead ≡ true
was_dead m h ending = elim h.forced [
  | inl goes ↦ absurd (let clash : false ≡ true = sym goes ∙ ending in cc)
  | inr gone ↦ gone
]

pub drain_stop-Settles :
    (m : Mailbox) → m.returned ≡ false → IsSound m → Settles m none_fresh (drain_stop m)
unfolding drain_stop none_fresh
drain_stop-Settles m runs h =
    if-elim (λ (r : List Answer × Mailbox). Settles m none_fresh r) m.stopping _ _
      (λ ending. record {
        sound = record {
          returned = inr (refl, was_dead m h ending);
          woken = inr (inr refl);
          unregistered = h.unregistered;
          forced = h.forced;
          room = omega arith;
        };
        accounted = λ id. omega (arith, answers_of-gone id m.reqs);
      })
      (λ goes. same-Settles m h)
