-- ===== src/Registry/Parts.antt =====
-- The part of a map that a shard of the registry holds: internal/ds/registry.go.
use yasdb.Prelude.{
  ℕ, zero, suc, ◌+◌, ◌<◌, ◌≡◌, refl, ap, ap₂, sym, ◌∙◌, Bool, true, false, Option, none, some, List,
  [], ◌∷◌, ◌++◌, ◌==◌, ◌&&◌, ltb, if◌then◌else◌, Bool-cases, inl, inr, arith,
}
use yasdb.Prelude.Bytes.{Bytes, bytes_eq, bytes_eq→eq}
use yasdb.Prelude.Map.{Map, lookup, insert, remove}
use yasdb.Registry.{Registry, shard_for, set_shard, values, drain_from}

-- The entries whose paths belong to the shard, in their order.
unfoldable pub part : ℕ → Map ℕ → Map ℕ
part i [] = []
part i ((q, w) ∷ m) = let rest = part i m in if shard_for q == i then (q, w) ∷ rest else rest

-- Equal paths have one shard.
apart : (p q : Bytes) → (shard_for q == shard_for p) ≡ false → bytes_eq q p ≡ false
apart p q h = elim (Bool-cases (bytes_eq q p)) [
  | inl same ↦ let e = ap shard_for (bytes_eq→eq q p same) in absurd (ground (arith, h, e))
  | inr other ↦ other
]

together : (p q : Bytes) (i : ℕ) → bytes_eq q p ≡ true → (shard_for q == i) ≡ (shard_for p == i)
together p q i same = ap (λ (k : Bytes). shard_for k == i) (bytes_eq→eq q p same)

self : (p : Bytes) → (shard_for p == shard_for p) ≡ true
self p = ground arith

pub lookup-part : (p : Bytes) (m : Map ℕ) → lookup p (part (shard_for p) m) ≡ lookup p m
unfolding lookup part
lookup-part p [] = refl
lookup-part p ((q, w) ∷ m) = elim (Bool-cases (shard_for q == shard_for p)) [
  | inl here ↦ rw here (ap (λ (o : Option ℕ). if bytes_eq q p then some w else o) (lookup-part p m))
  | inr there ↦ rw (there, apart p q there) (lookup-part p m)
]

pub insert-part :
    (p : Bytes) (st : ℕ) (m : Map ℕ)
    → part (shard_for p) (insert p st m) ≡ insert p st (part (shard_for p) m)
unfolding insert part
insert-part p st [] = rw (self p)
insert-part p st ((q, w) ∷ m) = elim (Bool-cases (bytes_eq q p)) [
  | inl same ↦ rw (same, together p q (shard_for p) same, self p, same)
  | inr other ↦ elim (Bool-cases (shard_for q == shard_for p)) [
    | inl here ↦ rw (other, here, other) (ap (λ (n : Map ℕ). (q, w) ∷ n) (insert-part p st m))
    | inr there ↦ rw (other, there) (insert-part p st m)
  ]
]

pub insert-part_other :
    (p : Bytes) (st : ℕ) (m : Map ℕ) (i : ℕ)
    → (shard_for p == i) ≡ false
    → part i (insert p st m) ≡ part i m
unfolding insert part
insert-part_other p st [] i h = rw h
insert-part_other p st ((q, w) ∷ m) i h = elim (Bool-cases (bytes_eq q p)) [
  | inl same ↦ rw (same, together p q i same, h)
  | inr other ↦ rw other (
      ap (λ (n : Map ℕ). if shard_for q == i then (q, w) ∷ n else n) (insert-part_other p st m i h))
]

pub remove-part :
    (p : Bytes) (m : Map ℕ) → part (shard_for p) (remove p m) ≡ remove p (part (shard_for p) m)
unfolding remove part
remove-part p [] = refl
remove-part p ((q, w) ∷ m) = elim (Bool-cases (bytes_eq q p)) [
  | inl same ↦ rw (same, together p q (shard_for p) same, self p, same) (remove-part p m)
  | inr other ↦ elim (Bool-cases (shard_for q == shard_for p)) [
    | inl here ↦ rw (other, here, other) (ap (λ (n : Map ℕ). (q, w) ∷ n) (remove-part p m))
    | inr there ↦ rw (other, there) (remove-part p m)
  ]
]

pub remove-part_other :
    (p : Bytes) (m : Map ℕ) (i : ℕ) → (shard_for p == i) ≡ false → part i (remove p m) ≡ part i m
unfolding remove part
remove-part_other p [] i h = refl
remove-part_other p ((q, w) ∷ m) i h = elim (Bool-cases (bytes_eq q p)) [
  | inl same ↦ rw (same, together p q i same, h) (remove-part_other p m i h)
  | inr other ↦
      rw other
        (ap (λ (n : Map ℕ). if shard_for q == i then (q, w) ∷ n else n) (remove-part_other p m i h))
]

pub remove-absent : (p : Bytes) (m : Map ℕ) → lookup p m ≡ none → remove p m ≡ m
unfolding lookup remove
remove-absent p [] h = refl
remove-absent p ((q, w) ∷ m) h = elim (Bool-cases (bytes_eq q p)) [
  | inl same ↦ let clash : some w ≡ none = rw same at h in absurd (cc)
  | inr other ↦ rw other (ap (λ (n : Map ℕ). (q, w) ∷ n) (remove-absent p m (rw other at h)))
]

-- How often a streamer is in a list.
unfoldable pub occurrences : ℕ → List ℕ → ℕ
occurrences st [] = 0
occurrences st (x ∷ l) = let rest = occurrences st l in if x == st then rest + 1 else rest

occurrences-append :
    (st : ℕ) (a b : List ℕ) → occurrences st (a ++ b) ≡ occurrences st a + occurrences st b
unfolding occurrences
occurrences-append st [] b = omega arith
occurrences-append st (x ∷ a) b = ground (arith, occurrences-append st a b)

-- The entries of the first n shards.
below : ℕ → Map ℕ → Map ℕ
below n [] = []
below n ((q, w) ∷ m) = let rest = below n m in if ltb (shard_for q) n then (q, w) ∷ rest else rest

occurrences_if :
    (st w : ℕ) (q : Bytes) (t : Bool) (m : Map ℕ)
    → occurrences st (values (if t then (q, w) ∷ m else m))
      ≡ (if t && w == st then 1 else 0) + occurrences st (values m)
unfolding occurrences
occurrences_if st w q true m = ground arith
occurrences_if st w q false m = omega arith

next_shard :
    (st n : ℕ) (m : Map ℕ)
    → occurrences st (values (below (suc n) m))
      ≡ occurrences st (values (below n m)) + occurrences st (values (part n m))
unfolding below part occurrences
next_shard st n [] = refl
next_shard st n ((q, w) ∷ m) = ground (
  arith,
  next_shard st n m,
  occurrences_if st w q (ltb (shard_for q) (suc n)) (below (suc n) m),
  occurrences_if st w q (ltb (shard_for q) n) (below n m),
  occurrences_if st w q (shard_for q == n) (part n m),
)

none_below : (st : ℕ) (m : Map ℕ) → occurrences st (values (below 0 m)) ≡ 0
unfolding below occurrences
none_below st [] = refl
none_below st ((q, w) ∷ m) =
    let low : ltb (shard_for q) 0 ≡ false = ground arith in rw low (none_below st m)

drained_below :
    (st n : ℕ) (m : Map ℕ) (r : Registry)
    → ((i : ℕ) → i < n → r i ≡ part i m)
    → occurrences st (drain_from n r).0 ≡ occurrences st (values (below n m))
unfolding drain_from occurrences
drained_below st zero m r h = sym (none_below st m)
drained_below st (suc n) m r h =
    occurrences-append st (drain_from n r).0 (values (r n))
    ∙ ap₂ ◌+◌ (drained_below st n m r (λ i low. h i (omega arith)))
        (ap (λ (s : Map ℕ). occurrences st (values s)) (h n (omega arith)))
    ∙ sym (next_shard st n m)

pub shard_for_bound : (p : Bytes) → shard_for p < 64
unfolding shard_for
shard_for_bound p = omega arith

all_below : (m : Map ℕ) → below 64 m ≡ m
unfolding below
all_below [] = refl
all_below ((q, w) ∷ m) =
    let low : ltb (shard_for q) 64 ≡ true = ground (arith, shard_for_bound q) in
    rw low (ap (λ (n : Map ℕ). (q, w) ∷ n) (all_below m))

pub drain_from-occurrences :
    (st : ℕ) (m : Map ℕ) (r : Registry)
    → ((i : ℕ) → i < 64 → r i ≡ part i m)
    → occurrences st (drain_from 64 r).0 ≡ occurrences st (values m)
drain_from-occurrences st m r h =
    drained_below st 64 m r h ∙ ap (λ (n : Map ℕ). occurrences st (values n)) (all_below m)

pub drain_from-empty : (n : ℕ) (r : Registry) (i : ℕ) → i < n → (drain_from n r).1 i ≡ []
unfolding drain_from set_shard
drain_from-empty zero r i h = absurd (omega arith)
drain_from-empty (suc n) r i h = elim (Bool-cases (i == n)) [
  | inl last ↦ rw last refl
  | inr before ↦ rw before (drain_from-empty n r i (ground arith))
]
