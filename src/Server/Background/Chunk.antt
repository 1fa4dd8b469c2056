-- ===== src/Server/Background/Chunk.antt =====
-- A chunk of a stream's records, as a scan finds it: internal/ds/deleter.go.
use yasdb.Prelude.{
  ◌⊎◌, inl, inr, ℕ, zero, suc, ◌+◌, ◌<◌, ◌≤◌, ◌≡◌, refl, sym, ap, ◌∙◌, Bool, true, false, ltb, ◌^◌,
  Option, none, some, List, [], ◌∷◌, ◌++◌, length, take, drop, length-append, if◌then◌else◌, ok,
  arith, Bool-cases,
}
use yasdb.Prelude.Bytes.{Bytes, bytes_eq, bytes_eq_iff, bytes_eq_self, lex_lt, lex_lt_trans}
use yasdb.Wire.{be64, be64_decode}
use yasdb.Wire.Laws.{length-be64, be64_decode-be64}
use yasdb.Keys.{record_key, record_prefix, record_prefix_end}
use yasdb.Keys.Order.{in_range, in_range-record_key, lex_lt-record_key}
use yasdb.Storage.{Storage, View, row_value, IsAscending}
use yasdb.Server.Expiry.{number_at}
use yasdb.Server.Background.{keys_of, last_seq_of}
use yasdb.Server.Background.Among.{elem, lex_lt-longer}

-- In ascending rows every key behind the first is above it.
above-head :
    (k v j w : Bytes) (rows : List (Bytes × Bytes))
    → IsAscending ((k, v) ∷ rows)
    → row_value j rows ≡ some w
    → lex_lt k j ≡ true
above-head k v j w [] a h = cc
above-head k v j w ((i, u) ∷ rows) a h = elim (Bool-cases (bytes_eq i j)) [
  | inl same ↦ rw (← (bytes_eq_iff i j).0 same) a.0
  | inr other ↦ lex_lt_trans k i j a.0 (above-head i u j w rows a.1 (rw other at h))
]

tail-IsAscending :
    (k v : Bytes) (rows : List (Bytes × Bytes)) → IsAscending ((k, v) ∷ rows) → IsAscending rows
tail-IsAscending k v [] a = tt
tail-IsAscending k v ((j, w) ∷ rows) a = a.1

-- A key of ascending rows is among the first n, or above all of them.
take-or_above :
    (n : ℕ) (rows : List (Bytes × Bytes)) (j : Bytes) {w : Bytes}
    → IsAscending rows
    → row_value j rows ≡ some w
    → (elem j (take n (keys_of rows)) ≡ true)
      ⊎ ((i : Bytes) → elem i (take n (keys_of rows)) ≡ true → lex_lt i j ≡ true)
unfolding elem
take-or_above zero rows j a h = inr (λ i e. cc)
take-or_above (suc n) [] j a h = cc
take-or_above (suc n) ((k, v) ∷ rows) j {w} a h = elim (Bool-cases (bytes_eq k j)) [
  | inl same ↦ inl (ground arith)
  | inr other ↦ elim (take-or_above n rows j (tail-IsAscending k v rows a) (rw other at h)) [
    | inl found ↦ inl (ground arith)
    | inr past ↦ inr (λ i e. elim (Bool-cases (bytes_eq k i)) [
      | inl same ↦ rw (← (bytes_eq_iff k i).0 same) (above-head k v j w rows a (rw other at h))
      | inr not_head ↦ past i (rw not_head at e)
    ])
  ]
]

elem-row :
    (n : ℕ) (rows : List (Bytes × Bytes)) (i : Bytes)
    → elem i (take n (keys_of rows)) ≡ true
    → (w : Bytes) × (row_value i rows ≡ some w)
unfolding elem
elem-row zero rows i e = cc
elem-row (suc n) [] i e = cc
elem-row (suc n) ((k, v) ∷ rows) i e = elim (Bool-cases (bytes_eq k i)) [
  | inl same ↦ (v, ground arith)
  | inr other ↦ let (w, found) = elem-row n rows i (rw other at e) in (w, ground arith)
]

-- A record's key, of a number that has a successor in 64 bits.
pub record IsNumbered (id : ℕ) (k : Bytes) : Type 0 where
  pub seq : ℕ
  pub bound : seq + 1 < 2 ^ 64
  pub key : k ≡ record_key id seq

take-all : (n : ℕ) (b : Bytes) → length b ≡ n → take n b ≡ b
take-all zero [] h = refl
take-all zero (x ∷ b) h = absurd (omega arith)
take-all (suc n) [] h = absurd (omega arith)
take-all (suc n) (x ∷ b) h = ap (λ r. x ∷ r) (take-all n b (omega arith))

drop-all : (n : ℕ) (a b : Bytes) → length a ≡ n → drop n (a ++ b) ≡ b
drop-all zero [] b h = refl
drop-all zero (x ∷ a) b h = absurd (omega arith)
drop-all (suc n) [] b h = absurd (omega arith)
drop-all (suc n) (x ∷ a) b h = drop-all n a b (omega arith)

number_at-record_key : (id seq : ℕ) → seq < 2 ^ 64 → number_at 9 (record_key id seq) ≡ seq
unfolding record_key
number_at-record_key id seq h =
    ap (λ b. be64_decode (take 8 b)) (drop-all 8 (be64 id) (be64 seq) (length-be64 id))
    ∙ ap be64_decode (take-all 8 (be64 seq) (length-be64 seq))
    ∙ be64_decode-be64 seq h

length-record_key : (id seq : ℕ) → length (record_key id seq) ≡ 17
unfolding record_key
length-record_key id seq =
    ap suc (length-append (be64 id) (be64 seq)) ∙ omega (arith, length-be64 id, length-be64 seq)

seq_of_key :
    (id last : ℕ) (k : Bytes) (n : IsNumbered id k)
    → (if ltb (length k) 17 then last else number_at 9 k) ≡ n.seq
seq_of_key id last k n =
    let size : length k ≡ 17 = ap length n.key ∙ length-record_key id n.seq in
    let num : number_at 9 k ≡ n.seq =
      ap (number_at 9) n.key ∙ number_at-record_key id n.seq (let b = n.bound in omega arith) in
    rw size num

-- The number that a chunk's scan ends with is that of one of its records.
pub last_seq_of-elem :
    (id last : ℕ) (k : Bytes) (ks : List Bytes)
    → ((j : Bytes) → elem j (k ∷ ks) ≡ true → IsNumbered id j)
    → (elem (record_key id (last_seq_of last (k ∷ ks))) (k ∷ ks) ≡ true)
      × (last_seq_of last (k ∷ ks) + 1 < 2 ^ 64)
unfolding last_seq_of elem
last_seq_of-elem id last k [] num =
    let first = num k (rw (bytes_eq_self k) refl) in
    let e = seq_of_key id last k first in
    (rw (e, ← first.key, bytes_eq_self k) refl, rw e first.bound)
last_seq_of-elem id last k (k2 ∷ ks) num =
    let rest =
      last_seq_of-elem id (if ltb (length k) 17 then last else number_at 9 k) k2 ks
        (λ j e. num j (ground arith)) in
    (ground arith, rest.1)

-- Every record of the stream in the store has a number that has a successor in 64 bits.
unfoldable pub AreNumbered : ℕ → View → Type 0
AreNumbered id view =
    (k : Bytes)
    → in_range (record_prefix id) (record_prefix_end id) k ≡ true
    → (view k ≡ none) ⊎ IsNumbered id k

pub in_range-prefix :
    (id cursor : ℕ) (k : Bytes)
    → in_range (record_key id cursor) (record_prefix_end id) k ≡ true
    → in_range (record_prefix id) (record_prefix_end id) k ≡ true
unfolding in_range record_key record_prefix
in_range-prefix id cursor k h = ground (arith, lex_lt-longer k (record_prefix id) (be64 cursor))

when_some :
    (t : Bool) {o : Option Bytes} {w : Bytes}
    → (if t then o else none) ≡ some w
    → (t ≡ true) × (o ≡ some w)
when_some true e = (refl, e)
when_some false e = cc

module _ (store : Storage) where
  open store use {Db, view, commit, scan, scan-view, scan-ascending, commit-ok}

  pub scanned-IsNumbered :
      (id cursor : ℕ) (db : Db) (rows : List (Bytes × Bytes)) (j : Bytes) {w : Bytes}
      → scan db (record_key id cursor) (record_prefix_end id) ≡ ok rows
      → row_value j rows ≡ some w
      → AreNumbered id (view db)
      → IsNumbered id j
  unfolding AreNumbered
  scanned-IsNumbered id cursor db rows j {w} found row num =
      let met = sym (scan-view db (record_key id cursor) (record_prefix_end id) j found) ∙ row in
      let (inside, present) =
        when_some (in_range (record_key id cursor) (record_prefix_end id) j) met in
      elim (num j (in_range-prefix id cursor j inside)) [
        | inl gone ↦ absurd (let e : some w ≡ none = sym present ∙ gone in cc)
        | inr n ↦ n
      ]

  -- The last record of a chunk is in it.
  pub chunk-last :
      (id cursor limit : ℕ) (db : Db) (rows : List (Bytes × Bytes)) (k : Bytes) (ks : List Bytes)
      → scan db (record_key id cursor) (record_prefix_end id) ≡ ok rows
      → take limit (keys_of rows) ≡ k ∷ ks
      → AreNumbered id (view db)
      → (elem (record_key id (last_seq_of 0 (k ∷ ks))) (k ∷ ks) ≡ true)
        × (last_seq_of 0 (k ∷ ks) + 1 < 2 ^ 64)
  chunk-last id cursor limit db rows k ks found chunk num = last_seq_of-elem id 0 k ks (λ j b.
      scanned-IsNumbered id cursor db rows j found (elem-row limit rows j (rw chunk b)).1 num)

  -- A record that the scan from `cursor` meets is deleted with the chunk, or is behind it.
  pub chunk-covers :
      (id cursor limit : ℕ) (db : Db) (rows : List (Bytes × Bytes)) (k : Bytes) (ks : List Bytes)
      (s : ℕ) (o : Option Bytes)
      → view db (record_key id s) ≡ o
      → id < 2 ^ 64
      → cursor < 2 ^ 64
      → s < 2 ^ 64
      → scan db (record_key id cursor) (record_prefix_end id) ≡ ok rows
      → take limit (keys_of rows) ≡ k ∷ ks
      → AreNumbered id (view db)
      → cursor ≤ s
      → s ≤ last_seq_of 0 (k ∷ ks)
      → (o ≡ none) ⊎ (elem (record_key id s) (k ∷ ks) ≡ true)
  chunk-covers id cursor limit db rows k ks s none e hid hc hs found chunk num ge le = inl refl
  chunk-covers id cursor limit db rows k ks s (some v) e hid hc hs found chunk num ge le =
      let row : row_value (record_key id s) rows ≡ some v =
        scan-view db (record_key id cursor) (record_prefix_end id) (record_key id s) found
        ∙ rw (in_range-record_key id cursor id s hid hc hid hs, e) (ground arith) in
      let last = chunk-last id cursor limit db rows k ks found chunk num in
      elim (take-or_above limit rows (record_key id s) (scan-ascending db _ _ found) row) [
        | inl taken ↦ inr (rw chunk at taken)
        | inr past ↦
            let above : lex_lt (record_key id (last_seq_of 0 (k ∷ ks))) (record_key id s) ≡ true =
              past (record_key id (last_seq_of 0 (k ∷ ks))) (rw chunk last.0) in
            absurd (
              ground (
                arith,
                lex_lt-record_key id (last_seq_of 0 (k ∷ ks)) id s hid (omega (arith, last.1)) hid
                    hs,
              ))
      ]
