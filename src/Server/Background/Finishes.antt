-- ===== src/Server/Background/Finishes.antt =====
-- The loops of a background deletion end: internal/ds/deleter.go.
use yasdb.Prelude.{
  inl, inr, ℕ, zero, suc, ◌+◌, ◌<◌, ◌≤◌, ◌≡◌, refl, subst, ◌%◌, ◌^◌, append-nil, Bool, true, false,
  Option, none, some, List, [], ◌∷◌, ◌++◌, length, map, Result, ok, err, arith,
}
use yasdb.Prelude.Bytes.{Bytes}
use yasdb.Wire.{u64_value}
use yasdb.Keys.{
  record_key, record_prefix_end, producer_prefix, producer_prefix_end, delete_pending_key,
}
use yasdb.Storage.{Storage, View, Op, apply_ops, put, delete}
use yasdb.Server.Background.{
  collected, collect_keys, record_chunk, next_round, record_round, delete_records, producer_round,
  delete_producers, then_next, clear_pending, background_delete, cursor_of,
}
use yasdb.Server.Background.Among.{
  scan-first, failed-none, commit-IsAmong, without, is_owned, pending-other, is_owned-record,
  is_owned-producer, IsAmong,
}

collected-first :
    (limit : ℕ) (r : Result (List (Bytes × Bytes))) {k : Bytes} {ks : List Bytes} {last : ℕ}
    → collected limit r ≡ ok (k ∷ ks, last)
    → (v : Bytes) × (rows : List (Bytes × Bytes)) × (r ≡ ok ((k, v) ∷ rows))
unfolding collected
collected-first limit (err e) h = cc
collected-first zero (ok rows) h = cc
collected-first (suc limit) (ok []) h = cc
collected-first (suc limit) (ok ((j, v) ∷ rows)) h = (v, rows, cc)

module _ (store : Storage) where
  open store use {Db, view, commit, scan, scan-view, commit-ok, commit-err}

  -- How a loop ends: with a store that holds no more of the stream than before.
  record Ended (id n : ℕ) (run : Option (Bool × Db)) : Type 0 where
    out : Bool × Db
    ends : run ≡ some out
    left : List Bytes
    among : IsAmong id (view out.1) left
    fewer : length left ≤ n

  stays :
      (id n : ℕ) (went : Bool) (db : Db) (ks : List Bytes)
      → IsAmong id (view db) ks
      → length ks ≤ n
      → Ended id n (some (went, db))
  stays id n went db ks h g = record {
    out = (went, db);
    ends = refl;
    left = ks;
    among = h;
    fewer = g;
  }

  -- What a round needs of the rounds after it, which have fewer keys to delete.
  abbrev Rest : ℕ → ℕ → List Bytes → (Db → Option (Bool × Db)) → Type 0
  Rest id n names again =
      (db1 : Db) (names1 : List Bytes)
      → IsAmong id (view db1) names1
      → length names1 < length names
      → Ended id n (again db1)

  -- A round of a loop: its commit, and what the loop does after that.
  next_round-Ended :
      (id n : ℕ) (db : Db) (k : Bytes) (ks : List Bytes) (rest : List Op) (names : List Bytes)
      (again : Db → Option (Bool × Db))
      → is_owned id k ≡ true
      → {v : Bytes} → view db k ≡ some v
      → ((j : Bytes) (w : View) → is_owned id j ≡ true → apply_ops rest w j ≡ w j)
      → IsAmong id (view db) names
      → length names ≤ n
      → Rest id n names again
      → Ended id n (next_round store again (commit db (map delete (k ∷ ks) ++ rest) true))
  unfolding next_round IsAmong
  next_round-Ended id n db k ks rest names again o present other h g step =
      go (commit db (map delete (k ∷ ks) ++ rest) true) refl
    where
      go :
          (out : Result (Unit {0}) × Db)
          → commit db (map delete (k ∷ ks) ++ rest) true ≡ out
          → Ended id n (next_round store again out)
      go (ok u, db1) e =
          let fine : (commit db (map delete (k ∷ ks) ++ rest) true).0 ≡ ok tt = rw e in
          let left = commit-IsAmong store id db k ks rest names o present other h fine in
          step db1 (without k names) (rw e at left.0) left.1
      go (err x, db1) e =
          stays id n false db1 names
            (λ j own. elim (h j own) [
              | inl gone ↦ inl (
                  rw e at
                    (failed-none store db (k ∷ ks) rest j {e = x} (λ w. other j w own) (rw e) gone))
              | inr named ↦ inr named
            ])
            g

  record_round-Ended :
      (id cursor n : ℕ) (db : Db) (names : List Bytes) (again : ℕ → Db → Option (Bool × Db))
      → IsAmong id (view db) names
      → length names ≤ n
      → ((next : ℕ) → Rest id n names (again next))
      → (c : Result (List Bytes × ℕ))
      → collected 1000 (scan db (record_key id cursor) (record_prefix_end id)) ≡ c
      → Ended id n (record_round store again id db c)
  unfolding record_round record_chunk
  record_round-Ended id cursor n db names again h g step (err e) p = stays id n false db names h g
  record_round-Ended id cursor n db names again h g step (ok ([], last)) p =
      stays id n true db names h g
  record_round-Ended id cursor n db names again h g step (ok (k ∷ ks, last)) p =
      let (v, rows, found) =
        collected-first 1000 (scan db (record_key id cursor) (record_prefix_end id)) p in
      let first = scan-first store db (record_key id cursor) (record_prefix_end id) found in
      let next = (last + 1) % 2 ^ 64 in
      next_round-Ended id n db k ks (put (delete_pending_key id) (u64_value next) ∷ []) names
        (again next) (is_owned-record id cursor k first.0) first.1 (pending-other id _) h g
        (step next)

  delete_records-Ended :
      (fuel id cursor n : ℕ) (db : Db) (names : List Bytes)
      → IsAmong id (view db) names
      → length names < fuel
      → length names ≤ n
      → Ended id n (delete_records store fuel id cursor db)
  unfolding delete_records collect_keys
  delete_records-Ended zero id cursor n db names h f g = absurd (omega arith)
  delete_records-Ended (suc fuel) id cursor n db names h f g =
      record_round-Ended id cursor n db names (delete_records store fuel id) h g
        (λ next db1 names1 among less.
          delete_records-Ended fuel id next n db1 names1 among (omega arith) (omega arith))
        _ refl

  producer_round-Ended :
      (id n : ℕ) (db : Db) (names : List Bytes) (again : Db → Option (Bool × Db))
      → IsAmong id (view db) names
      → length names ≤ n
      → Rest id n names again
      → (c : Result (List Bytes × ℕ))
      → collected 1000 (scan db (producer_prefix id) (producer_prefix_end id)) ≡ c
      → Ended id n (producer_round store again db c)
  unfolding producer_round apply_ops
  producer_round-Ended id n db names again h g step (err e) p = stays id n true db names h g
  producer_round-Ended id n db names again h g step (ok ([], last)) p = stays id n true db names h g
  producer_round-Ended id n db names again h g step (ok (k ∷ ks, last)) p =
      let (v, rows, found) =
        collected-first 1000 (scan db (producer_prefix id) (producer_prefix_end id)) p in
      let first = scan-first store db (producer_prefix id) (producer_prefix_end id) found in
      rw (append-nil (map delete ks)) at (
        next_round-Ended id n db k ks [] names again (is_owned-producer id k first.0) first.1
          (λ j w o. refl) h g step)

  delete_producers-Ended :
      (fuel id n : ℕ) (db : Db) (names : List Bytes)
      → IsAmong id (view db) names
      → length names < fuel
      → length names ≤ n
      → Ended id n (delete_producers store fuel id db)
  unfolding delete_producers collect_keys
  delete_producers-Ended zero id n db names h f g = absurd (omega arith)
  delete_producers-Ended (suc fuel) id n db names h f g =
      producer_round-Ended id n db names (delete_producers store fuel id) h g
        (λ db1 names1 among less.
          delete_producers-Ended fuel id n db1 names1 among (omega arith) (omega arith))
        _ refl

  -- The deletion of a stream returns, whatever the store answers, if `fuel` is above the number of keys
  -- of the stream's records and producers.
  pub background_delete-finishes :
      (fuel id : ℕ) (db : Db) (names : List Bytes)
      → IsAmong id (view db) names
      → length names < fuel
      → (out : Bool × Db) × (background_delete store fuel id db ≡ some out)
  unfolding background_delete then_next clear_pending
  background_delete-finishes fuel id db names h f =
      records (delete_records store fuel id (cursor_of (store.get db (delete_pending_key id))) db) (
        delete_records-Ended fuel id (cursor_of (store.get db (delete_pending_key id)))
          (length names) db names h f (omega arith))
    where
      producers :
          (run : Option (Bool × Db))
          → Ended id (length names) run
          → (out : Bool × Db) × (then_next store run (clear_pending store id) ≡ some out)
      producers none e = let h = e.ends in cc
      producers (some (false, db1)) e = ((false, db1), refl)
      producers (some (true, db1)) e =
          ((true, (commit db1 (delete (delete_pending_key id) ∷ []) true).1), refl)

      records :
          (run : Option (Bool × Db))
          → Ended id (length names) run
          → (out : Bool × Db) × (then_next store run (λ db1.
                then_next store (delete_producers store fuel id db1) (clear_pending store id))
              ≡ some out)
      records none e = let h = e.ends in cc
      records (some (false, db1)) e = ((false, db1), refl)
      records (some (true, db1)) e =
          let same : e.out ≡ (true, db1) = let p = e.ends in cc in
          producers (delete_producers store fuel id db1) (
            delete_producers-Ended fuel id (length names) db1 e.left
              (subst (λ (o : Bool × Db). IsAmong id (view o.1) e.left) same e.among)
              (let g = e.fewer in omega arith) e.fewer)
