-- ===== src/LiveCache/Window.antt =====
-- The window stays a window: consecutive records within the bounds.
use yasdb.Prelude.{
  ℕ, ◌+◌, ◌-◌, ◌%◌, ◌^◌, ◌≤◌, ◌≡◌, ◌⊎◌, inl, inr, refl, ap, sym, ◌∙◌, true, ◌||◌, List, [], ◌∷◌,
  ◌++◌, ltb, length, arith, if-elim, ==→eq, Bool-cases,
}
use yasdb.Prelude.Bytes.{Bytes}
use yasdb.LiveCache.{
  LiveCache, CachedRecord, new, append, append_run, evict, number_from, total_bytes, next_seq,
  continues,
}

-- Each record follows the one before it.
abbrev pub Consecutive : List CachedRecord → Type 0
Consecutive [] = Unit
Consecutive (r ∷ []) = Unit
Consecutive (r ∷ s ∷ rs) = (s.seq ≡ (r.seq + 1) % 2 ^ 64) × Consecutive (s ∷ rs)

-- Within both bounds, or a single record, however large.
abbrev pub InBounds : ℕ → ℕ → List CachedRecord → Type 0
InBounds max_recs max_bytes recs =
    (length recs ≤ 1) ⊎ ((length recs ≤ max_recs) × (total_bytes recs ≤ max_bytes))

-- A window: consecutive records, whose bytes are counted, within the bounds.
pub record IsWindow (c : LiveCache) : Type 0 where
  pub consecutive : Consecutive c.recs
  pub counted : c.cur_bytes ≡ total_bytes c.recs
  pub bounded : InBounds c.max_recs c.max_bytes c.recs

number_from-Consecutive : (n : ℕ) (ps : List Bytes) → Consecutive (number_from n ps)
unfolding number_from
number_from-Consecutive n [] = tt
number_from-Consecutive n (p ∷ []) = tt
number_from-Consecutive n (p ∷ q ∷ ps) = (refl, number_from-Consecutive ((n + 1) % 2 ^ 64) (q ∷ ps))

-- A run behind the records that it continues.
joined-Consecutive :
    (rs : List CachedRecord) (n : ℕ) (ps : List Bytes)
    → Consecutive rs
    → continues n (next_seq rs) ≡ true
    → Consecutive (rs ++ number_from n ps)
unfolding number_from next_seq continues
joined-Consecutive [] n ps c h = number_from-Consecutive n ps
joined-Consecutive (r ∷ []) n [] c h = tt
joined-Consecutive (r ∷ []) n (p ∷ ps) c h = (==→eq _ _ h, number_from-Consecutive n (p ∷ ps))
joined-Consecutive (r ∷ s ∷ rs) n ps c h = (c.0, joined-Consecutive (s ∷ rs) n ps c.1 h)

total_bytes-append :
    (xs ys : List CachedRecord) → total_bytes (xs ++ ys) ≡ total_bytes xs + total_bytes ys
unfolding total_bytes
total_bytes-append [] ys = omega arith
total_bytes-append (x ∷ xs) ys = omega (arith, total_bytes-append xs ys)

-- What eviction leaves.
record Evicted (max_recs max_bytes : ℕ) (r : List CachedRecord × ℕ) : Type 0 where
  consecutive : Consecutive r.0
  counted : r.1 ≡ total_bytes r.0
  bounded : InBounds max_recs max_bytes r.0

evict-Evicted :
    (max_recs max_bytes : ℕ) (recs : List CachedRecord) (cur : ℕ)
    → Consecutive recs
    → cur ≡ total_bytes recs
    → Evicted max_recs max_bytes (evict max_recs max_bytes recs cur)
unfolding evict total_bytes
evict-Evicted max_recs max_bytes [] cur c e = record {
  consecutive = tt;
  counted = e;
  bounded = inl (omega arith);
}
evict-Evicted max_recs max_bytes (r ∷ []) cur c e = record {
  consecutive = tt;
  counted = e;
  bounded = inl (omega arith);
}
evict-Evicted max_recs max_bytes (r ∷ s ∷ rs) cur c e =
    if-elim (Evicted max_recs max_bytes) (ltb max_recs (length (r ∷ s ∷ rs)) || ltb max_bytes cur) _
      _
      (λ over.
        evict-Evicted max_recs max_bytes (s ∷ rs) (cur - length r.payload) c.1 (omega (arith, e)))
      (λ fits. record {
        consecutive = c;
        counted = e;
        bounded = inr (ground arith, ground (arith, e));
      })

IsWindow-evict :
    (c : LiveCache) {r : List CachedRecord × ℕ}
    → Evicted c.max_recs c.max_bytes r
    → IsWindow (record c { recs = r.0; cur_bytes = r.1 })
IsWindow-evict c e = record {
  consecutive = e.consecutive;
  counted = e.counted;
  bounded = e.bounded;
}

run-IsWindow : (n : ℕ) (ps : List Bytes) (c : LiveCache) → IsWindow c → IsWindow (append_run n ps c)
unfolding append_run
run-IsWindow n ps c w = elim (Bool-cases (continues n (next_seq c.recs))) [
  | inl fits ↦ rw fits (
      IsWindow-evict c (
        evict-Evicted c.max_recs c.max_bytes (c.recs ++ number_from n ps) _
          (joined-Consecutive c.recs n ps w.consecutive fits)
          (ap (λ b. b + total_bytes (number_from n ps)) w.counted
            ∙ sym (total_bytes-append c.recs (number_from n ps)))))
  | inr gap ↦ rw gap (
      IsWindow-evict c (
        evict-Evicted c.max_recs c.max_bytes (number_from n ps) _ (number_from-Consecutive n ps)
          (omega arith)))
]

-- An append to a window leaves a window: the records are consecutive, also where the run does not
-- continue the old ones, their bytes are counted, and both bounds are kept, but for a single record
-- that is too large by itself.
pub append-IsWindow :
    (first_seq : ℕ) (payloads : List Bytes) (c : LiveCache)
    → IsWindow c
    → IsWindow (append first_seq payloads c)
unfolding append
append-IsWindow n [] c w = w
append-IsWindow n (p ∷ ps) c w = run-IsWindow n (p ∷ ps) c w

pub new-IsWindow : (max_recs max_bytes : ℕ) → IsWindow (new max_recs max_bytes)
unfolding new total_bytes
new-IsWindow max_recs max_bytes = record {
  consecutive = tt;
  counted = refl;
  bounded = inl (omega arith);
}
