-- ===== src/Server/Background/Among.antt =====
-- The keys of a stream's records and producers that a store holds, and what a batch of deletions
-- leaves of them: internal/ds/deleter.go.
use yasdb.Prelude.{
  err, Err, ◌⊎◌, inl, inr, ℕ, ◌<◌, ◌≤◌, ◌≡◌, refl, sym, ap, ◌∙◌, Bool, true, false, ◌||◌, ◌==◌,
  if-elim, Option, none, some, List, [], ◌∷◌, ◌++◌, length, map, if◌then◌else◌, arith, ok,
  if◌then◌else◌,
}
use yasdb.Prelude.Bytes.{Bytes, bytes_eq, bytes_eq_iff, lex_lt, bytes_eq_self}
use yasdb.Wire.{be64}
use yasdb.Keys.{
  record_key, record_prefix, record_prefix_end, producer_prefix, producer_prefix_end, prefix_end,
  prefix_end_at, delete_pending_key,
}
use yasdb.Keys.Order.{in_range, below}
use yasdb.Storage.{View, apply_op, apply_ops, put, delete, Storage, Op}
use yasdb.Storage.View.{apply_ops-append}

unfoldable pub elem : Bytes → List Bytes → Bool
elem j [] = false
elem j (k ∷ ks) = let rest = elem j ks in (bytes_eq k j || rest)

pub without : Bytes → List Bytes → List Bytes
without j [] = []
without j (k ∷ ks) = let rest = without j ks in if bytes_eq k j then rest else k ∷ rest

length-without_le : (j : Bytes) (ks : List Bytes) → length (without j ks) ≤ length ks
unfolding without
length-without_le j [] = omega arith
length-without_le j (k ∷ ks) = ground (arith, length-without_le j ks)

pub length-without :
    (j : Bytes) (ks : List Bytes) → elem j ks ≡ true → length (without j ks) < length ks
unfolding without elem
length-without j [] h = cc
length-without j (k ∷ ks) h = ground (arith, length-without_le j ks, length-without j ks)

pub elem-without :
    (j i : Bytes) (ks : List Bytes)
    → bytes_eq i j ≡ false
    → elem j ks ≡ true
    → elem j (without i ks) ≡ true
unfolding without elem
elem-without j i [] n h = cc
elem-without j i (k ∷ ks) n h =
    ground (arith, bytes_eq_iff k j, bytes_eq_iff k i, bytes_eq_iff i j, elem-without j i ks)

pub apply_ops-deletes :
    (j : Bytes) (ks : List Bytes) (view : View)
    → apply_ops (map delete ks) view j ≡ (if elem j ks then none else view j)
unfolding apply_ops elem
apply_ops-deletes j [] view = refl
apply_ops-deletes j (k ∷ ks) view =
    ground (arith, apply_ops-deletes j ks (apply_op (delete k) view))

-- No record's key and no key of a producer is that of the pending deletion.
pending_above :
    (id c : ℕ) (o : Option Bytes)
    → c < 7
    → below (delete_pending_key id) (prefix_end_at c o) ≡ false
unfolding below prefix_end_at delete_pending_key lex_lt
pending_above id c (some e) h = ground arith
pending_above id c none h =
    if-elim (λ (o : Option Bytes). below (delete_pending_key id) o ≡ false) (c == 255) _ _
      (λ yes. absurd (ground arith)) (λ no. ground arith)

pub lex_lt-longer : (a b c : Bytes) → lex_lt a b ≡ true → lex_lt a (b ++ c) ≡ true
unfolding lex_lt
lex_lt-longer [] [] c h = cc
lex_lt-longer [] (y ∷ b) c h = refl
lex_lt-longer (x ∷ a) [] c h = cc
lex_lt-longer (x ∷ a) (y ∷ b) c h = ground (arith, lex_lt-longer a b c)

-- The keys of a stream's records and producers.
unfoldable pub is_owned : ℕ → Bytes → Bool
is_owned id k =
    in_range (record_prefix id) (record_prefix_end id) k
    || in_range (producer_prefix id) (producer_prefix_end id) k

is_owned-pending : (id : ℕ) → is_owned id (delete_pending_key id) ≡ false
unfolding is_owned in_range record_prefix_end producer_prefix_end record_prefix producer_prefix
    prefix_end
is_owned-pending id = ground (
  arith,
  pending_above id 4 (prefix_end (be64 id)) (omega arith),
  pending_above id 5 (prefix_end (be64 id)) (omega arith),
)

-- Nothing of the stream is touched by the note of how far the deletion is.
pub pending-other :
    (id : ℕ) (v : Bytes) (j : Bytes) (w : View)
    → is_owned id j ≡ true
    → apply_ops (put (delete_pending_key id) v ∷ []) w j ≡ w j
unfolding apply_ops
pending-other id v j w o =
    if-elim (λ (x : Option Bytes). x ≡ w j) (bytes_eq (delete_pending_key id) j) _ _
      (λ same. absurd (
        let e : delete_pending_key id ≡ j = (bytes_eq_iff (delete_pending_key id) j).0 same in
        let none_own : false ≡ true = sym (is_owned-pending id) ∙ ap (is_owned id) e ∙ o in cc))
      (λ other. refl)

pub is_owned-record :
    (id cursor : ℕ) (k : Bytes)
    → in_range (record_key id cursor) (record_prefix_end id) k ≡ true
    → is_owned id k ≡ true
unfolding is_owned in_range record_key record_prefix
is_owned-record id cursor k h = ground (arith, lex_lt-longer k (record_prefix id) (be64 cursor))

pub is_owned-producer :
    (id : ℕ) (k : Bytes)
    → in_range (producer_prefix id) (producer_prefix_end id) k ≡ true
    → is_owned id k ≡ true
unfolding is_owned
is_owned-producer id k h = ground arith

-- Every key of the stream that the store holds is one of ks.
unfoldable pub IsAmong : ℕ → View → List Bytes → Type 0
IsAmong id view ks = (k : Bytes) → is_owned id k ≡ true → (view k ≡ none) ⊎ (elem k ks ≡ true)

pub chosen :
    (j : Bytes) {o old : Option Bytes} (names : List Bytes) (k : Bytes) (ks : List Bytes)
    → o ≡ (if elem j (k ∷ ks) then none else old)
    → (old ≡ none) ⊎ (elem j names ≡ true)
    → (bytes_eq k j ≡ false → elem j names ≡ true → elem j (without k names) ≡ true)
    → (o ≡ none) ⊎ (elem j (without k names) ≡ true)
unfolding elem
chosen j {o} {old} names k ks after (inl gone) keep = inl (
    after
    ∙ if-elim (λ (x : Option Bytes). x ≡ none) (elem j (k ∷ ks)) none old (λ t. refl) (λ f. gone))
chosen j {o} {old} names k ks after (inr named) keep = ground arith

-- A key behind a batch that deletes some.
deletes-value :
    (w : View) (ks : List Bytes) (rest : List Op) (j : Bytes)
    → ((u : View) → apply_ops rest u j ≡ u j)
    → apply_ops (map delete ks ++ rest) w j ≡ (if elem j ks then none else w j)
deletes-value w ks rest j other =
    ap (λ (u : View). u j) (apply_ops-append (map delete ks) rest w)
    ∙ other (apply_ops (map delete ks) w)
    ∙ apply_ops-deletes j ks w

module _ (store : Storage) where
  open store use {Db, view, commit, scan, scan-view, commit-ok, commit-err}

  pub scan-first :
      (db : Db) (start : Bytes) (end : Option Bytes) {k v : Bytes} {rows : List (Bytes × Bytes)}
      → scan db start end ≡ ok ((k, v) ∷ rows)
      → (in_range start end k ≡ true) × (view db k ≡ some v)
  scan-first db start end {k} {v} {rows} found =
      ground (arith, scan-view db start end k found, bytes_eq_self k)

  -- A batch that fails brings no key of the stream back.
  pub failed-none :
      (db : Db) (ks : List Bytes) (rest : List Op) (j : Bytes) {e : Err}
      → ((w : View) → apply_ops rest w j ≡ w j)
      → (commit db (map delete ks ++ rest) true).0 ≡ err e
      → view db j ≡ none
      → view (commit db (map delete ks ++ rest) true).1 j ≡ none
  failed-none db ks rest j other c h = elim (commit-err db (map delete ks ++ rest) true c) [
    | inl nothing ↦ nothing j ∙ h
    | inr all ↦
        all j
        ∙ deletes-value (view db) ks rest j other
        ∙ if-elim (λ (x : Option Bytes). x ≡ none) (elem j ks) none (view db j) (λ t. refl) (λ f. h)
  ]

  pub commit-deletes :
      (db : Db) (ks : List Bytes) (rest : List Op) (j : Bytes)
      → ((w : View) → apply_ops rest w j ≡ w j)
      → (commit db (map delete ks ++ rest) true).0 ≡ ok tt
      → view (commit db (map delete ks ++ rest) true).1 j ≡ (if elem j ks then none else view db j)
  commit-deletes db ks rest j other c =
      commit-ok db (map delete ks ++ rest) true j c ∙ deletes-value (view db) ks rest j other

  commit-left :
      (id : ℕ) (db : Db) (k : Bytes) (ks : List Bytes) (rest : List Op) (names : List Bytes)
      → ((j : Bytes) (w : View) → is_owned id j ≡ true → apply_ops rest w j ≡ w j)
      → IsAmong id (view db) names
      → (commit db (map delete (k ∷ ks) ++ rest) true).0 ≡ ok tt
      → (j : Bytes) → is_owned id j ≡ true
      → (view (commit db (map delete (k ∷ ks) ++ rest) true).1 j ≡ none)
        ⊎ (elem j (without k names) ≡ true)
  unfolding IsAmong
  commit-left id db k ks rest names other h c j o =
      chosen j names k ks (commit-deletes db (k ∷ ks) rest j (λ w. other j w o) c) (h j o)
        (elem-without j k names)

  -- A batch that deletes what a scan found leaves fewer keys, whatever else it writes.
  pub commit-IsAmong :
      (id : ℕ) (db : Db) (k : Bytes) (ks : List Bytes) (rest : List Op) (names : List Bytes)
      → is_owned id k ≡ true
      → {v : Bytes} → view db k ≡ some v
      → ((j : Bytes) (w : View) → is_owned id j ≡ true → apply_ops rest w j ≡ w j)
      → IsAmong id (view db) names
      → (commit db (map delete (k ∷ ks) ++ rest) true).0 ≡ ok tt
      → IsAmong id (view (commit db (map delete (k ∷ ks) ++ rest) true).1) (without k names)
        × (length (without k names) < length names)
  unfolding IsAmong
  commit-IsAmong id db k ks rest names o present other h c = (
    commit-left id db k ks rest names other h c,
    elim (h k o) [ inl gone ↦ absurd (cc) | inr named ↦ length-without k names named ],
  )
