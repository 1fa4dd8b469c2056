-- ===== src/Live/Published.antt =====
-- What live readers see of a streamer: the two atomics that `applyReader` (internal/ds/streamer.go) stores,
-- one after the other, and that a reader loads one after the other.
use yasdb.Prelude.{
  ℕ, zero, suc, ◌≡◌, refl, Bool, true, false, List, [], ◌∷◌, ◌++◌, if◌then◌else◌, take,
}
use yasdb.Live.Turn.{Seen}

pub record Atomics : Type 0 where
  pub tail : ℕ
  pub closed : Bool

pub data StoreOp : Type 0 where
  store_tail : ℕ → StoreOp
  store_closed : StoreOp

unfoldable pub run_store : StoreOp → Atomics → Atomics
run_store (store_tail n) a = record a { tail = n }
run_store store_closed a = record a { closed = true }

unfoldable pub run_stores : List StoreOp → Atomics → Atomics
unfolding run_store
run_stores [] a = a
run_stores (s ∷ ss) a = run_stores ss (run_store s a)

-- The stores of one `applyReader`.
unfoldable pub reader_stores : ℕ → Bool → List StoreOp
reader_stores tail closed = store_tail tail ∷ (if closed then store_closed ∷ [] else [])

-- The stores of a streamer's life: some appends, and perhaps one that closes, behind which none is accepted.
unfoldable pub lifetime : List ℕ → List StoreOp → List StoreOp
unfolding reader_stores
lifetime [] last = last
lifetime (tail ∷ tails) last = reader_stores tail false ++ lifetime tails last

pub data Ending : Type 0 where
  still_open : Ending
  closed_at : ℕ → Ending

unfoldable pub ending : Ending → List StoreOp
unfolding reader_stores
ending still_open = []
ending (closed_at tail) = reader_stores tail true

-- The atomics behind the first n stores of a life that starts open at a tail.
unfoldable pub atomics_at : List StoreOp → ℕ → ℕ → Atomics
unfolding run_stores
atomics_at stores start n = run_stores (take n stores) (record { tail = start; closed = false })

-- What a turn sees that loads the tail behind i stores, and whether the stream is closed behind j.
unfoldable pub seen_at : List StoreOp → ℕ → ℕ → ℕ → Seen
unfolding atomics_at
seen_at stores start i j = record {
  tail = (atomics_at stores start i).tail;
  closed = (atomics_at stores start j).closed;
  stopped = false;
}

-- Behind all the stores of a life.
abbrev pub last_tail : List StoreOp → ℕ → ℕ
last_tail stores start = (run_stores stores (record { tail = start; closed = false })).tail

-- Where a streamer has been seen closed, its tail is the last one.
pub closed-final :
    (tails : List ℕ) (e : Ending) (start n : ℕ)
    → (atomics_at (lifetime tails (ending e)) start n).closed ≡ true
    → (atomics_at (lifetime tails (ending e)) start n).tail
      ≡ last_tail (lifetime tails (ending e)) start
unfolding atomics_at lifetime ending reader_stores run_stores run_store
closed-final [] still_open start zero c = cc
closed-final [] still_open start (suc n) c = cc
closed-final [] (closed_at t) start zero c = cc
closed-final [] (closed_at t) start (suc zero) c = cc
closed-final [] (closed_at t) start (suc (suc zero)) c = refl
closed-final [] (closed_at t) start (suc (suc (suc n))) c = refl
closed-final (t ∷ tails) e start zero c = cc
closed-final (t ∷ tails) e start (suc n) c = closed-final tails e t n c
