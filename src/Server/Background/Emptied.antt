-- ===== src/Server/Background/Emptied.antt =====
-- What a background deletion leaves: internal/ds/deleter.go.
use yasdb.Prelude.{
  inl, inr, ℕ, zero, suc, ◌+◌, ◌<◌, ◌≤◌, ◌≡◌, refl, ap, ◌∙◌, Bool, true, false, ltb, ◌^◌, ◌%◌,
  Option, none, some, List, [], ◌∷◌, ◌++◌, map, take, if◌then◌else◌, Result, ok, err, arith,
  Bool-cases, subst,
}
use yasdb.Prelude.Bytes.{Bytes}
use yasdb.Wire.{u64_value}
use yasdb.Keys.{delete_pending_key, record_key, record_prefix, record_prefix_end}
use yasdb.Keys.Order.{in_range, in_range-record_key}
use yasdb.Storage.{put, delete, View, Storage}
use yasdb.Server.Background.{
  collected, collect_keys, record_chunk, record_round, next_round, delete_records, keys_of,
  last_seq_of,
}
use yasdb.Server.Background.Among.{elem, commit-deletes, pending-other, is_owned, is_owned-record}
use yasdb.Server.Background.Chunk.{AreNumbered, chunk-last, chunk-covers}

-- No record from `from` on and below `to` is left.
unfoldable pub Gone : ℕ → ℕ → ℕ → View → Type 0
Gone id from to view = (s : ℕ) → from ≤ s → s < to → s < 2 ^ 64 → view (record_key id s) ≡ none

take-empty :
    (limit : ℕ) (rows : List (Bytes × Bytes)) → take (suc limit) (keys_of rows) ≡ [] → rows ≡ []
take-empty limit [] h = refl
take-empty limit (row ∷ rows) h = cc

pub stays_none :
    (t : Bool) {o old : Option Bytes} → o ≡ (if t then none else old) → old ≡ none → o ≡ none
stays_none true e h = e
stays_none false e h = e ∙ h

is_owned-in_range :
    (id : ℕ) (k : Bytes)
    → in_range (record_prefix id) (record_prefix_end id) k ≡ true
    → is_owned id k ≡ true
unfolding is_owned
is_owned-in_range id k h = ground arith

is_owned-key : (id s : ℕ) → id < 2 ^ 64 → s < 2 ^ 64 → is_owned id (record_key id s) ≡ true
is_owned-key id s hid hs =
    is_owned-record id s (record_key id s)
      (ground (arith, in_range-record_key id s id s hid hs hid hs))

module _ (store : Storage) where
  open store use {Db, view, commit, scan, scan-view, commit-ok, commit-err}

  -- What the records' loop keeps: those behind the cursor are gone, the others have numbers.
  pub record Kept (id from cursor : ℕ) (db : Db) : Type 0 where
    pub numbered : AreNumbered id (view db)
    pub gone : Gone id from cursor (view db)
    pub bound : cursor < 2 ^ 64

  -- An empty chunk: no record is left.
  empty_chunk :
      (id from cursor : ℕ) (db : Db)
      → id < 2 ^ 64
      → Kept id from cursor db
      → scan db (record_key id cursor) (record_prefix_end id) ≡ ok []
      → Gone id from (2 ^ 64) (view db)
  unfolding Gone
  empty_chunk id from cursor db hid h found s ge lt hs = elim (Bool-cases (ltb s cursor)) [
    | inl behind ↦ h.gone s ge (ground arith) hs
    | inr ahead ↦
        let e =
          scan-view db (record_key id cursor) (record_prefix_end id) (record_key id s) found in
        ground (arith, e, in_range-record_key id cursor id s hid h.bound hid hs)
  ]

  -- The state behind a chunk, once its batch is durable.
  chunk-Kept :
      (id from cursor : ℕ) (db : Db) (rows : List (Bytes × Bytes)) (k : Bytes) (ks : List Bytes)
      → id < 2 ^ 64
      → Kept id from cursor db
      → scan db (record_key id cursor) (record_prefix_end id) ≡ ok rows
      → take 1000 (keys_of rows) ≡ k ∷ ks
      → (v : Bytes)
      → (commit db (map delete (k ∷ ks) ++ (put (delete_pending_key id) v ∷ [])) true).0 ≡ ok tt
      → Kept id from
          ((last_seq_of 0 (k ∷ ks) + 1) % 2 ^ 64)
          (commit db (map delete (k ∷ ks) ++ (put (delete_pending_key id) v ∷ [])) true).1
  unfolding Gone AreNumbered
  chunk-Kept id from cursor db rows k ks hid h found chunk v c =
      let rest = put (delete_pending_key id) v ∷ [] in
      let after = λ (j : Bytes) (o : is_owned id j ≡ true).
        commit-deletes store db (k ∷ ks) rest j (λ w. pending-other id v j w o) c in
      let last = chunk-last store id cursor 1000 db rows k ks found chunk h.numbered in
      record {
        numbered = λ j inside. elim (h.numbered j inside) [
          | inl none_left ↦
              inl (stays_none (elem j (k ∷ ks)) (after j (is_owned-in_range id j inside)) none_left)
          | inr n ↦ inr n
        ];
        gone = λ s ge lt hs.
            let gone = after (record_key id s) (is_owned-key id s hid hs) in
            elim (Bool-cases (ltb s cursor)) [
              | inl behind ↦
                  stays_none (elem (record_key id s) (k ∷ ks)) gone (h.gone s ge (ground arith) hs)
              | inr ahead ↦
                  elim (chunk-covers store id cursor 1000 db rows k ks s _ refl hid h.bound hs found
                    chunk h.numbered (ground arith) (omega (arith, last.1))) [
                      | inl none_left ↦ stays_none (elem (record_key id s) (k ∷ ks)) gone none_left
                      | inr deleted ↦ rw deleted at gone
                    ]
            ];
        bound = omega arith;
      }

  record_round-Gone :
      (id from cursor : ℕ) (db db1 : Db) (again : ℕ → Db → Option (Bool × Db))
      → id < 2 ^ 64
      → Kept id from cursor db
      → ((next : ℕ) (db2 : Db)
          → Kept id from next db2
          → again next db2 ≡ some (true, db1)
          → Gone id from (2 ^ 64) (view db1))
      → (r : Result (List (Bytes × Bytes)))
      → scan db (record_key id cursor) (record_prefix_end id) ≡ r
      → record_round store again id db (collected 1000 r) ≡ some (true, db1)
      → Gone id from (2 ^ 64) (view db1)
  unfolding record_round record_chunk collected next_round
  record_round-Gone id from cursor db db1 again hid h step (err e) found run = cc
  record_round-Gone id from cursor db db1 again hid h step (ok rows) found run =
      chunked (take 1000 (keys_of rows)) refl run
    where
      committed :
          (k : Bytes) (ks : List Bytes) (out : Result (Unit {0}) × Db)
          → take 1000 (keys_of rows) ≡ k ∷ ks
          → commit db (record_chunk store id (k ∷ ks) ((last_seq_of 0 (k ∷ ks) + 1) % 2 ^ 64)) true
            ≡ out
          → next_round store (again ((last_seq_of 0 (k ∷ ks) + 1) % 2 ^ 64)) out ≡ some (true, db1)
          → Gone id from (2 ^ 64) (view db1)
      committed k ks (err x, db2) chunk c e =
          (let no : next_round store (again ((last_seq_of 0 (k ∷ ks) + 1) % 2 ^ 64)) (err x, db2)
                ≡ some (false, db2) =
              refl in
            cc)
      committed k ks (ok u, db2) chunk c e =
          step ((last_seq_of 0 (k ∷ ks) + 1) % 2 ^ 64) db2
            (subst (λ (d : Db). Kept id from ((last_seq_of 0 (k ∷ ks) + 1) % 2 ^ 64) d)
              (ap (λ (out : Result (Unit {0}) × Db). out.1) c)
              (chunk-Kept id from cursor db rows k ks hid h found chunk
                (u64_value ((last_seq_of 0 (k ∷ ks) + 1) % 2 ^ 64))
                (ap (λ (out : Result (Unit {0}) × Db). out.0) c)))
            e

      chunked :
          (ks : List Bytes)
          → take 1000 (keys_of rows) ≡ ks
          → record_round store again id db (ok (ks, last_seq_of 0 ks)) ≡ some (true, db1)
          → Gone id from (2 ^ 64) (view db1)
      chunked [] chunk e =
          let same : db ≡ db1 = cc in
          let found_none : scan db (record_key id cursor) (record_prefix_end id) ≡ ok [] =
            found ∙ ap ok (take-empty 999 rows chunk) in
          subst (λ (d : Db). Gone id from (2 ^ 64) (view d)) same
            (empty_chunk id from cursor db hid h found_none)
      chunked (k ∷ ks) chunk e = committed k ks _ chunk refl e

  pub delete_records-Gone :
      (fuel id from cursor : ℕ) (db db1 : Db)
      → id < 2 ^ 64
      → Kept id from cursor db
      → delete_records store fuel id cursor db ≡ some (true, db1)
      → Gone id from (2 ^ 64) (view db1)
  unfolding delete_records collect_keys
  delete_records-Gone zero id from cursor db db1 hid h run = cc
  delete_records-Gone (suc fuel) id from cursor db db1 hid h run =
      record_round-Gone id from cursor db db1 (delete_records store fuel id) hid h
        (λ next db2 kept again. delete_records-Gone fuel id from next db2 db1 hid kept again)
        (scan db (record_key id cursor) (record_prefix_end id)) refl run
