-- ===== src/Watermark/Prefix.antt =====
-- The watermark is the length of the longest prefix of completed numbers.
use yasdb.Prelude.{
  ℕ, zero, suc, ◌+◌, ◌%◌, ◌^◌, ◌≤◌, ◌<◌, ◌≡◌, inl, inr, refl, sym, subst, ◌∙◌, true, false, ◌||◌,
  List, [], ◌∷◌, ◌++◌, ◌==◌, length, arith, All, Bool-cases, append_assoc, append-nil, ==→eq,
}
use yasdb.Watermark.{Watermark, new, member, remove, add_all, advance, mark, mark_all}

-- Every number from 1 to v is completed, and v + 1 is not.
abbrev pub IsPrefix : List ℕ → ℕ → Type 0
IsPrefix completed v =
    ((n : ℕ) → 0 < n → n ≤ v → member n completed ≡ true) × (member (v + 1) completed ≡ false)

-- What is known of a set and a value on the way: the numbers up to the value are completed, and of
-- those above, the set has the ones that are.
record Folded (completed set : List ℕ) (v : ℕ) : Type 0 where
  pub below : (n : ℕ) → 0 < n → n ≤ v → member n completed ≡ true
  pub above : (n : ℕ) → v < n → member n set ≡ member n completed

member-append : (n : ℕ) (xs ys : List ℕ) → member n (xs ++ ys) ≡ (member n xs || member n ys)
unfolding member
member-append n [] ys = refl
member-append n (x ∷ xs) ys = ground (arith, member-append n xs ys)

member-remove : (n m : ℕ) (xs : List ℕ) → n < m → member m (remove n xs) ≡ member m xs
unfolding member remove
member-remove n m [] h = refl
member-remove n m (x ∷ xs) h = ground (arith, member-remove n m xs h)

length-remove_le : (n : ℕ) (xs : List ℕ) → length (remove n xs) ≤ length xs
unfolding remove
length-remove_le n [] = omega arith
length-remove_le n (x ∷ xs) = ground (arith, length-remove_le n xs)

length-remove : (n : ℕ) (xs : List ℕ) → member n xs ≡ true → length (remove n xs) < length xs
unfolding member remove
length-remove n [] h = ground arith
length-remove n (x ∷ xs) h = ground (arith, length-remove_le n xs, length-remove n xs)

member-add_all :
    (n : ℕ) (seqs set : List ℕ) → member n (add_all seqs set) ≡ (member n seqs || member n set)
unfolding add_all member
member-add_all n [] set = refl
member-add_all n (m ∷ seqs) set = elim (Bool-cases (member m set)) [
  | inl old ↦ rw old (elim (Bool-cases (m == n)) [
    | inl same ↦
        let e : m ≡ n = ==→eq m n same in
        let there : member n set ≡ true = subst (λ k. member k set ≡ true) e old in
        ground (arith, member-add_all n seqs set, same, there)
    | inr other ↦ ground (arith, member-add_all n seqs set, other)
  ])
  | inr fresh ↦ rw fresh (ground (arith, member-add_all n seqs (m ∷ set)))
]

-- Completed numbers are below the last one that a uint64 has.
abbrev pub InRange : List ℕ → Type 0
InRange = All (λ n. n + 1 < 2 ^ 64)

InRange-front : (xs ys : List ℕ) → InRange (xs ++ ys) → InRange xs
InRange-front [] ys h = tt
InRange-front (x ∷ xs) ys h = (h.0, InRange-front xs ys h.1)

member-InRange : (n : ℕ) (xs : List ℕ) → InRange xs → member n xs ≡ true → n + 1 < 2 ^ 64
unfolding member
member-InRange n [] h m = ground arith
member-InRange n (x ∷ xs) h m = elim (Bool-cases (x == n)) [
  | inl same ↦ let e : x ≡ n = ==→eq x n same in omega (arith, h.0)
  | inr other ↦ member-InRange n xs h.1 (ground arith)
]

-- What holds of the watermark between two calls.
record Tracks (completed : List ℕ) (w : Watermark) : Type 0 where
  pub folded : Folded completed w.set w.value
  pub missing : member (w.value + 1) completed ≡ false
  pub bound : w.value + 1 < 2 ^ 64

-- One round: the next number is completed, and leaves the set.
advance-step :
    (completed set : List ℕ) (v : ℕ)
    → member (v + 1) set ≡ true
    → Folded completed set v
    → Folded completed (remove (v + 1) set) (v + 1)
advance-step completed set v here f = record {
  below = λ n pos le. elim (Bool-cases (n == v + 1)) [
    | inl last ↦
        let e : n ≡ v + 1 = ==→eq n (v + 1) last in
        rw e (sym (f.above (v + 1) (omega arith)) ∙ here)
    | inr other ↦ f.below n pos (ground arith)
  ];
  above = λ n lt. member-remove (v + 1) n set lt ∙ f.above n (omega arith);
}

advance-Tracks :
    (completed : List ℕ) (fuel : ℕ) (set : List ℕ) (v : ℕ)
    → length set ≤ fuel
    → InRange completed
    → v + 1 < 2 ^ 64
    → Folded completed set v
    → Tracks completed (advance fuel set v)
unfolding advance
advance-Tracks completed zero [] v h r b f = record {
  folded = f;
  missing = sym (f.above (v + 1) (omega arith));
  bound = b;
}
advance-Tracks completed zero (x ∷ set) v h r b f = absurd (omega arith)
advance-Tracks completed (suc fuel) set v h r b f =
    let next : (v + 1) % 2 ^ 64 ≡ v + 1 = omega arith in
    rw next (elim (Bool-cases (member (v + 1) set)) [
      | inl here ↦
          let known : member (v + 1) completed ≡ true =
            sym (f.above (v + 1) (omega arith)) ∙ here in
          rw here (
            advance-Tracks completed fuel (remove (v + 1) set) (v + 1)
              (omega (arith, length-remove (v + 1) set here)) r
              (member-InRange (v + 1) completed r known) (advance-step completed set v here f))
      | inr gone ↦
          rw gone
            (record { folded = f; missing = sym (f.above (v + 1) (omega arith)) ∙ gone; bound = b })
    ])

mark-Tracks :
    (completed seqs : List ℕ) (w : Watermark)
    → InRange (completed ++ seqs)
    → Tracks completed w
    → Tracks (completed ++ seqs) (mark seqs w)
unfolding mark
mark-Tracks completed seqs w r t =
    advance-Tracks (completed ++ seqs) (length (add_all seqs w.set)) (add_all seqs w.set) w.value
      (omega arith) r t.bound
      (record {
        below = λ n pos le. ground (arith, member-append n completed seqs, t.folded.below n pos le);
        above = λ n lt. ground (
          arith,
          member-append n completed seqs,
          member-add_all n seqs w.set,
          t.folded.above n lt,
        );
      })

-- All the numbers of the calls.
abbrev pub completed_by : List (List ℕ) → List ℕ
completed_by [] = []
completed_by (seqs ∷ rest) = seqs ++ completed_by rest

mark_all-Tracks :
    (calls : List (List ℕ)) (completed : List ℕ) (w : Watermark)
    → InRange (completed ++ completed_by calls)
    → Tracks completed w
    → Tracks (completed ++ completed_by calls) (mark_all calls w)
unfolding mark_all
mark_all-Tracks [] completed w r t = rw (append-nil completed) t
mark_all-Tracks (seqs ∷ calls) completed w r t =
    let same = append_assoc completed seqs (completed_by calls) in
    subst (λ c. Tracks c (mark_all calls (mark seqs w))) same
      (mark_all-Tracks calls (completed ++ seqs) (mark seqs w) (subst InRange (sym same) r) (
        mark-Tracks completed seqs w
          (InRange-front (completed ++ seqs) (completed_by calls) (subst InRange (sym same) r)) t))

-- Whatever the order in which completions arrive, in however many calls, the watermark is the length of
-- the longest prefix 1, 2, … of the numbers completed so far (each of them below 2 ^ 64 - 1): all of
-- the prefix is completed, and the number behind it is not.
pub mark_all-IsPrefix :
    (calls : List (List ℕ))
    → InRange (completed_by calls)
    → IsPrefix (completed_by calls) (mark_all calls new).value
unfolding member
mark_all-IsPrefix calls r =
    let t = mark_all-Tracks calls [] new r (record {
      folded = record { below = λ n pos le. absurd (omega arith); above = λ n lt. refl };
      missing = refl;
      bound = omega arith;
    }) in
    (t.folded.below, t.missing)
