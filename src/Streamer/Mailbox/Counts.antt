-- ===== src/Streamer/Mailbox/Counts.antt =====
-- How often a request stands among the requests, bursts and answers of a streamer.
use yasdb.Prelude.{
  ℕ, ◌+◌, ◌≡◌, refl, ap, sym, ◌∙◌, List, [], ◌∷◌, ◌++◌, ◌==◌, if◌then◌else◌, take, drop, arith,
  take-drop,
}
use yasdb.Streamer.Mailbox.{Mailbox, Answer, answered_burst, answered_gone}

-- How often a request is among requests, bursts and answers.
abbrev pub requests_of : ℕ → List ℕ → ℕ
requests_of id [] = 0
requests_of id (r ∷ rs) = (if r == id then 1 else 0) + requests_of id rs

abbrev pub bursts_of : ℕ → List (List ℕ) → ℕ
bursts_of id [] = 0
bursts_of id (b ∷ bs) = requests_of id b + bursts_of id bs

abbrev pub answers_of : ℕ → List Answer → ℕ
answers_of id [] = 0
answers_of id (a ∷ rest) = (if a.to == id then 1 else 0) + answers_of id rest

-- Those that still wait for an answer.
abbrev pub open_of : ℕ → Mailbox → ℕ
open_of id m = requests_of id m.reqs + bursts_of id m.bursts

pub requests_of-append :
    (id : ℕ) (a b : List ℕ) → requests_of id (a ++ b) ≡ requests_of id a + requests_of id b
requests_of-append id [] b = omega arith
requests_of-append id (r ∷ a) b = omega (arith, requests_of-append id a b)

pub requests_of-split :
    (id n : ℕ) (rs : List ℕ)
    → requests_of id (take n rs) + requests_of id (drop n rs) ≡ requests_of id rs
requests_of-split id n rs =
    sym (requests_of-append id (take n rs) (drop n rs)) ∙ ap (requests_of id) (take-drop n rs)

pub bursts_of-append :
    (id : ℕ) (a b : List (List ℕ)) → bursts_of id (a ++ b) ≡ bursts_of id a + bursts_of id b
bursts_of-append id [] b = omega arith
bursts_of-append id (r ∷ a) b = omega (arith, bursts_of-append id a b)

pub answers_of-append :
    (id : ℕ) (a b : List Answer) → answers_of id (a ++ b) ≡ answers_of id a + answers_of id b
answers_of-append id [] b = omega arith
answers_of-append id (r ∷ a) b = omega (arith, answers_of-append id a b)

pub answers_of-burst : (id : ℕ) (b : List ℕ) → answers_of id (answered_burst b) ≡ requests_of id b
answers_of-burst id [] = refl
answers_of-burst id (r ∷ b) = omega (arith, answers_of-burst id b)

pub answers_of-gone : (id : ℕ) (b : List ℕ) → answers_of id (answered_gone b) ≡ requests_of id b
answers_of-gone id [] = refl
answers_of-gone id (r ∷ b) = omega (arith, answers_of-gone id b)
