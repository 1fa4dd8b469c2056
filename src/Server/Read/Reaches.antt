-- ===== src/Server/Read/Reaches.antt =====
-- A read that says it is up to date has read to the tail: internal/ds/read.go.
use yasdb.Prelude.{
  ℕ, ◌≤◌, ◌≡◌, ◌⊎◌, inl, inr, refl, subst, [], Bool, true, false, Option, none, some, List, leb,
  if◌then◌else◌, Result, ok, err, ◌>>=◌, arith, Bool-cases,
}
use yasdb.Prelude.Bytes.{Bytes}
use yasdb.Json.{wrap_json_array}
use yasdb.Offset.{Offset}
use yasdb.Storage.{Storage}
use yasdb.Server.Fork.{Segment, resolve_segments}
use yasdb.Server.Read.{
  ReadResult, binary_result, json_result, read_segments_binary, read_segments_json, read_resolved,
  read_range,
}

-- The flag of a read is only set at a position that is not before the tail.
abbrev pub Reaches : ℕ → ReadResult → Type 0
Reaches tail (err e) = Unit
Reaches tail (ok (body, next, up)) = (up ≡ false) ⊎ (tail ≤ next.seq)

leb-Reaches : (a b : ℕ) → (leb a b ≡ false) ⊎ (a ≤ b)
leb-Reaches a b = elim (Bool-cases (leb a b)) [
  | inl at_tail ↦ inr (ground arith)
  | inr before ↦ inl before
]

bind-Reaches {ℓ} :
    {A : Type ℓ} (tail : ℕ) (f : A → Bytes × Offset × Bool)
    → ((a : A) → Reaches tail (ok (f a)))
    → (r : Result A) → Reaches tail (r >>= λ a. ok (f a))
bind-Reaches tail f h (ok a) = h a
bind-Reaches tail f h (err e) = tt

module _ (store : Storage) where
  open store use {Db}

  read_resolved-Reaches :
      (is_json : Bool) (db : Db) (start : Offset) (tail limit : ℕ) (r : Result (List Segment))
      → Reaches tail (read_resolved store is_json db start tail limit r)
  unfolding read_resolved read_segments_binary read_segments_json binary_result json_result
  read_resolved-Reaches is_json db start tail limit (err e) = tt
  read_resolved-Reaches true db start tail limit (ok segs) =
      bind-Reaches tail (json_result tail) (λ c. leb-Reaches tail c.next_seq) _
  read_resolved-Reaches false db start tail limit (ok segs) =
      bind-Reaches tail (binary_result tail) (λ p. leb-Reaches tail p.next.seq) _

  pub read_range-Reaches :
      (fuel : ℕ) (db : Db) (id forked_from fork_offset : ℕ) (is_json : Bool) (start : Offset)
      (tail limit : ℕ) {r : ReadResult}
      → read_range store fuel db id forked_from fork_offset is_json start tail limit ≡ some r
      → Reaches tail r
  unfolding read_range
  read_range-Reaches fuel db id forked_from fork_offset is_json start tail limit {r} h =
      resolved (resolve_segments store fuel db id forked_from fork_offset start.seq tail)
        (leb tail start.seq) refl h
    where
      resolved :
          (o : Option (Result (List Segment))) (t : Bool)
          → leb tail start.seq ≡ t
          → (if t
              then some (ok ((if is_json then wrap_json_array [] else []), start, true))
              else elim o [
                | some s ↦ some (read_resolved store is_json db start tail limit s)
                | none ↦ none
              ])
            ≡ some r
          → Reaches tail r
      resolved o true e g =
          let same : ok ((if is_json then wrap_json_array [] else []), start, true) ≡ r = cc in
          subst (Reaches tail) same (inr (ground arith))
      resolved none false e g = cc
      resolved (some s) false e g =
          let same : read_resolved store is_json db start tail limit s ≡ r = cc in
          subst (Reaches tail) same (read_resolved-Reaches is_json db start tail limit s)
