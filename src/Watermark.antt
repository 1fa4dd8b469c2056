-- ===== src/Watermark.antt =====
-- The watermark of completed sequence numbers: internal/ds/contigwatermark.go. The set is a list of
-- numbers; the loop of `mark` removes one of them in each round, so their count is fuel enough.
pub mod Prefix
mod Tests
use yasdb.Prelude.{
  ℕ, zero, suc, ◌+◌, ◌%◌, ◌^◌, Bool, true, false, ◌||◌, List, [], ◌∷◌, ◌==◌, if◌then◌else◌, length,
}

pub record Watermark : Type 0 where
  pub set : List ℕ
  pub value : ℕ

abbrev pub new : Watermark
new = record { set = []; value = 0 }

unfoldable pub member : ℕ → List ℕ → Bool
member n [] = false
member n (m ∷ ms) = let rest = member n ms in (m == n || rest)

-- `delete(set, n)`.
unfoldable pub remove : ℕ → List ℕ → List ℕ
remove n [] = []
remove n (m ∷ ms) = let rest = remove n ms in if m == n then rest else m ∷ rest

-- `set[n] = struct{}{}`, for each n.
unfoldable pub add_all : List ℕ → List ℕ → List ℕ
unfolding member
add_all [] set = set
add_all (n ∷ ns) set = add_all ns (if member n set then set else n ∷ set)

-- The loop, from the value v on.
unfoldable pub advance : ℕ → List ℕ → ℕ → Watermark
unfolding member remove
advance zero set v = record { set = set; value = v }
advance (suc fuel) set v =
    let next = (v + 1) % 2 ^ 64 in
    let rest = advance fuel (remove next set) next in
    if member next set then rest else record { set = set; value = v }

unfoldable pub mark : List ℕ → Watermark → Watermark
unfolding add_all advance
mark seqs w = let set = add_all seqs w.set in advance (length set) set w.value

-- The calls of `mark` in order.
unfoldable pub mark_all : List (List ℕ) → Watermark → Watermark
mark_all [] w = w
mark_all (seqs ∷ rest) w = mark_all rest (mark seqs w)
