-- ===== src/Pwal/Store/Numbers.antt =====
-- The numbers that a new store gives to its commits.
use yasdb.Prelude.{
  ℕ, zero, suc, ◌+◌, ◌*◌, ◌%◌, ◌^◌, ◌<◌, ◌≡◌, refl, ap, ap₂, sym, ◌∙◌, subst, false, Option, none,
  some, List, [], ◌∷◌, ltb, ◌==◌, if◌then◌else◌, if-elim, length, Bool-cases, inl, inr, Result, ok,
  Err, arith,
}
use native.Mathlib.Nat.{mul-add-mod_self_right, mod-eq_of_lt, le-mul_of_pos_right, suc-mul}
use yasdb.Storage.{Op}
use yasdb.Pwal.Shard.{Shard, next_seq, write_record, start_flush, stage, open_shard}
use yasdb.Pwal.Store.{Place, Store, set_shard, staged, commit_unless, commit_async, empty_store}
use yasdb.Pwal.Store.Btree.{Tree}

module _ (M : Tree Place) where
  -- What the commits of a run return.
  abbrev pub commit_results : List (List Op) → Store M.T → List (Result ℕ)
  commit_results [] s = []
  commit_results (ops ∷ opss) s = let r = commit_async M none ops s in r.0 ∷ commit_results opss r.1

abbrev pub count_from : ℕ → ℕ → List (Result ℕ)
count_from n zero = []
count_from n (suc k) = ok n ∷ count_from (n + 1) k

-- How many of the first k commits a shard has, where k = q * count + r.
abbrev share : ℕ → ℕ → ℕ → ℕ
share q r i = if ltb i r then q + 1 else q

abbrev IsShard : ℕ → ℕ → ℕ → Shard → Type 0
IsShard count i commits sh = (sh.idx ≡ i) × (sh.num_shards ≡ count) × (sh.local_seq ≡ commits)

-- The shards after k commits.
record IsAfter (count k : ℕ) (shards : ℕ → Shard) : Type 0 where
  q : ℕ
  r : ℕ
  whole : k ≡ q * count + r
  low : r < count
  each : (i : ℕ) → i < count → IsShard count i (share q r i) (shards i)

stage-IsShard :
    (count i commits : ℕ) (ops : List Op) (sh : Shard)
    → commits + 1 < 2 ^ 64
    → IsShard count i commits sh
    → IsShard count i (commits + 1) (stage none ops sh).2
unfolding stage write_record start_flush
stage-IsShard count i commits ops sh small (a, b, c) =
    let next : (sh.local_seq + 1) % 2 ^ 64 ≡ commits + 1 = omega (arith, c, small) in
    if-elim (IsShard count i (commits + 1)) sh.in_flight _ _ (λ busy. (a, b, next))
      (λ idle. (a, b, next))

-- The shard of the next commit.
turn : (count k q r : ℕ) → k ≡ q * count + r → r < count → k % count ≡ r
turn count k q r e h = ap (λ n. n % count) e ∙ mul-add-mod_self_right q count r ∙ mod-eq_of_lt h

share_self : (q r : ℕ) → share q r r ≡ q
share_self q r = ground arith

-- The number that the shard in turn gives.
turn_seq :
    (count k q r : ℕ) (sh : Shard)
    → k + 1 < 2 ^ 64
    → k ≡ q * count + r
    → IsShard count r (share q r r) sh
    → next_seq sh ≡ k + 1
turn_seq count k q r sh small e (a, b, c) =
    ap (λ n. (n * sh.num_shards + sh.idx + 1) % 2 ^ 64) (c ∙ share_self q r)
    ∙ ap (λ n. (q * n + sh.idx + 1) % 2 ^ 64) b
    ∙ ap (λ n. (q * count + n + 1) % 2 ^ 64) a
    ∙ omega (arith, e, small)

-- The shards when the one in turn is a commit further.
after_turn :
    (count q r q1 r1 : ℕ) (ops : List Op) (shards : ℕ → Shard)
    → q + 1 < 2 ^ 64
    → r < count
    → ((i : ℕ) → i < count → IsShard count i (share q r i) (shards i))
    → (share q1 r1 r ≡ q + 1)
    → ((i : ℕ) → i < count → (i == r) ≡ false → share q1 r1 i ≡ share q r i)
    → (i : ℕ) → i < count
    → IsShard count i (share q1 r1 i) (set_shard r (stage none ops (shards r)).2 shards i)
after_turn count q r q1 r1 ops shards small low each own others i h =
    if-elim (IsShard count i (share q1 r1 i)) (i == r) (stage none ops (shards r)).2 (shards i)
      (λ here.
        let same : r ≡ i = ground (arith, here) in
        subst (λ j. IsShard count j (share q1 r1 j) (stage none ops (shards r)).2) same
          (subst (λ n. IsShard count r n (stage none ops (shards r)).2) (sym own)
            (stage-IsShard count r q ops (shards r) small
              (subst (λ n. IsShard count r n (shards r)) (share_self q r) (each r low)))))
      (λ there. subst (λ n. IsShard count i n (shards i)) (sym (others i h there)) (each i h))

IsAfter-turn :
    (count k : ℕ) (ops : List Op) (shards : ℕ → Shard)
    → k + 1 < 2 ^ 64
    → IsAfter count k shards
    → let i = k % count in
      (next_seq (shards i) ≡ k + 1)
      × IsAfter count (k + 1) (set_shard i (stage none ops (shards i)).2 shards)
IsAfter-turn count k ops shards small a =
    let q = a.q in
    let r = a.r in
    let positive : 0 < count = omega (arith, a.low) in
    let within : q + 1 < 2 ^ 64 = omega (arith, a.whole, small, le-mul_of_pos_right q positive) in
    let more : (q + 1) * count ≡ q * count + count =
      ap (λ n. n * count) {x = q + 1} {y = suc q} (omega arith) ∙ suc-mul q count in
    let at_r : (next_seq (shards r) ≡ k + 1)
        × IsAfter count (k + 1) (set_shard r (stage none ops (shards r)).2 shards) =
      (
        turn_seq count k q r (shards r) small a.whole (a.each r a.low),
        elim (Bool-cases (ltb (r + 1) count)) [
          | inl inside ↦ record {
            q = q;
            r = r + 1;
            whole = omega (arith, a.whole);
            low = ground (arith, inside);
            each =
                after_turn count q r q (r + 1) ops shards within a.low a.each (ground arith)
                  (λ i h there. ground (arith, there));
          }
          | inr last ↦ record {
            q = q + 1;
            r = 0;
            whole = ground (arith, a.whole, more, last, a.low);
            low = omega (arith, a.low);
            each =
                after_turn count q r (q + 1) 0 ops shards within a.low a.each (ground arith)
                  (λ i h there. ground (arith, there, last, h, a.low));
          }
        ],
      ) in
    subst
      (λ i.
        (next_seq (shards i) ≡ k + 1)
        × IsAfter count (k + 1) (set_shard i (stage none ops (shards i)).2 shards))
      (sym (turn count k q r a.whole a.low)) at_r

module _ (M : Tree Place) where
  -- A store after k commits.
  abbrev StoreAfter : ℕ → ℕ → Store M.T → Type 0
  StoreAfter count k s =
      (s.failure ≡ none) × (s.shard_count ≡ count) × (s.next_shard ≡ k) × IsAfter count k s.shards

  staged-StoreAfter :
      (count k : ℕ) (ops : List Op) (s : Store M.T)
      → k + 1 < 2 ^ 64
      → StoreAfter count k s
      → let r = staged M none (k % count) ops s in (r.0 ≡ ok (k + 1)) × StoreAfter count (k + 1) r.1
  unfolding staged stage
  staged-StoreAfter count k ops s small (f, c, n, a) =
      let (seq, after) = IsAfter-turn count k ops s.shards small a in
      (ap ok seq, (f, c, omega (arith, n, small), after))

  commit_unless-StoreAfter :
      (failure : Option Err) (count k : ℕ) (ops : List Op) (s : Store M.T)
      → failure ≡ none
      → k + 1 < 2 ^ 64
      → StoreAfter count k s
      → let r = commit_unless M failure none ops s in
        (r.0 ≡ ok (k + 1)) × StoreAfter count (k + 1) r.1
  unfolding commit_unless
  commit_unless-StoreAfter none count k ops s e small (f, c, n, a) =
      subst
        (λ i.
          ((staged M none i ops s).0 ≡ ok (k + 1))
          × StoreAfter count (k + 1) (staged M none i ops s).1)
        (sym (ap₂ (λ x y. x % y) n c)) (staged-StoreAfter count k ops s small (f, c, n, a))
  commit_unless-StoreAfter (some failed) count k ops s e small h = cc

  commit_results-StoreAfter :
      (count k : ℕ) (opss : List (List Op)) (s : Store M.T)
      → k + length opss < 2 ^ 64
      → StoreAfter count k s
      → commit_results M opss s ≡ count_from (k + 1) (length opss)
  unfolding commit_async
  commit_results-StoreAfter count k [] s small h = refl
  commit_results-StoreAfter count k (ops ∷ opss) s small h =
      let (seq, after) =
        commit_unless-StoreAfter s.failure count k ops s h.0 (omega (arith, small)) h in
      ap₂ (λ (x : Result ℕ) (xs : List (Result ℕ)). x ∷ xs) seq
        (commit_results-StoreAfter count (k + 1) opss (commit_async M none ops s).1
          (omega (arith, small)) after)

  empty_store-StoreAfter : (count : ℕ) → 0 < count → StoreAfter count 0 (empty_store M count)
  unfolding empty_store
  empty_store-StoreAfter count h =
      let enough : ltb count 1 ≡ false = ground (arith, h) in
      let n = if ltb count 1 then 1 else count in
      let same : n ≡ count = rw enough refl in
      (
        refl,
        same,
        refl,
        subst (λ m. IsAfter count 0 (λ i. open_shard i m [])) (sym same)
            record {
              q = 0;
              r = 0;
              whole = omega arith;
              low = h;
              each = λ i l. (refl, refl, ground arith);
            },
      )

  -- A store that was opened on an empty directory with any number of shards numbers its commits 1, 2, 3 and
  -- so on, in their order, although each shard counts for itself: recovery, which sorts by
  -- number, replays them in that order. No write fails, and the numbers stay below 2 ^ 64.
  pub commit_results-count_from :
      (count : ℕ) (opss : List (List Op))
      → 0 < count
      → length opss < 2 ^ 64
      → commit_results M opss (empty_store M count) ≡ count_from 1 (length opss)
  commit_results-count_from count opss h small =
      commit_results-StoreAfter count 0 opss (empty_store M count) (omega (arith, small))
        (empty_store-StoreAfter count h)
