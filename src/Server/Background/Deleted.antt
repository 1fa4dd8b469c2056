-- ===== src/Server/Background/Deleted.antt =====
-- A background deletion as a whole: internal/ds/deleter.go.
use yasdb.Prelude.{
  inl, inr, ℕ, zero, suc, ◌<◌, ◌≡◌, refl, ap, ◌∙◌, Bool, true, false, ◌^◌, Option, none, some, List,
  [], ◌∷◌, map, Result, ok, err,
}
use yasdb.Prelude.Bytes.{Bytes}
use yasdb.Wire.{u64_value}
use yasdb.Wire.Laws.{parse_u64_value-u64_value}
use yasdb.Keys.{delete_pending_key, record_key}
use yasdb.Storage.{delete, Storage}
use yasdb.Server.Background.{
  next_round, delete_records, producer_round, delete_producers, then_next, clear_pending,
  background_delete, cursor_of,
}
use yasdb.Server.Background.Among.{elem, apply_ops-deletes}
use yasdb.Server.Background.Chunk.{AreNumbered}
use yasdb.Server.Background.Emptied.{Gone, stays_none, Kept, delete_records-Gone}

cursor_of-some : (c : ℕ) → c < 2 ^ 64 → cursor_of (ok (some (u64_value c))) ≡ c
unfolding cursor_of
cursor_of-some c h =
    ap (λ (r : Result ℕ). elim r [ ok n ↦ n | err e ↦ 0 ]) (parse_u64_value-u64_value c h)

module _ (store : Storage) where
  open store use {Db, view, commit, scan, commit-ok, commit-err}

  -- A batch that only deletes brings no key back, whether or not it succeeds.
  deletes-none :
      (db : Db) (ks : List Bytes) (j : Bytes)
      → view db j ≡ none
      → view (commit db (map delete ks) true).1 j ≡ none
  deletes-none db ks j h = go (commit db (map delete ks) true).0 refl
    where
      go :
          (r : Result (Unit {0}))
          → (commit db (map delete ks) true).0 ≡ r
          → view (commit db (map delete ks) true).1 j ≡ none
      go (ok u) e =
          stays_none (elem j ks)
            (commit-ok db (map delete ks) true j e ∙ apply_ops-deletes j ks (view db)) h
      go (err x) e = elim (commit-err db (map delete ks) true e) [
        | inl nothing ↦ nothing j ∙ h
        | inr all ↦ stays_none (elem j ks) (all j ∙ apply_ops-deletes j ks (view db)) h
      ]

  producer_round-none :
      (db db1 : Db) (again : Db → Option (Bool × Db)) (went : Bool) (j : Bytes)
      → view db j ≡ none
      → ((db2 : Db) → view db2 j ≡ none → again db2 ≡ some (went, db1) → view db1 j ≡ none)
      → (c : Result (List Bytes × ℕ)) → producer_round store again db c ≡ some (went, db1)
      → view db1 j ≡ none
  unfolding producer_round next_round
  producer_round-none db db1 again went j h step (err e) run =
      let same : db ≡ db1 = cc in rw (← same) h
  producer_round-none db db1 again went j h step (ok ([], last)) run =
      let same : db ≡ db1 = cc in rw (← same) h
  producer_round-none db db1 again went j h step (ok (k ∷ ks, last)) run =
      go (commit db (map delete (k ∷ ks)) true) (deletes-none db (k ∷ ks) j h) run
    where
      go :
          (out : Result (Unit {0}) × Db)
          → view out.1 j ≡ none
          → next_round store again out ≡ some (went, db1)
          → view db1 j ≡ none
      go (ok u, db2) left e = step db2 left e
      go (err x, db2) left e = let same : db2 ≡ db1 = cc in rw (← same) left

  delete_producers-none :
      (fuel id : ℕ) (db db1 : Db) (went : Bool) (j : Bytes)
      → view db j ≡ none
      → delete_producers store fuel id db ≡ some (went, db1)
      → view db1 j ≡ none
  unfolding delete_producers
  delete_producers-none zero id db db1 went j h run = cc
  delete_producers-none (suc fuel) id db db1 went j h run =
      producer_round-none db db1 (delete_producers store fuel id) went j h
        (λ db2 left e. delete_producers-none fuel id db2 db1 went j left e) _ run

  -- A deletion that gets past the records leaves none of the stream's records in the store, whatever
  -- becomes of the producers after that: if the pending entry holds a cursor before which none was left,
  -- and the stream's records have numbers that have a successor in 64 bits.
  pub background_delete-Gone :
      (fuel id cursor : ℕ) (db db1 : Db)
      → id < 2 ^ 64
      → cursor < 2 ^ 64
      → store.get db (delete_pending_key id) ≡ ok (some (u64_value cursor))
      → AreNumbered id (view db)
      → Gone id 0 cursor (view db)
      → background_delete store fuel id db ≡ some (true, db1)
      → Gone id 0 (2 ^ 64) (view db1)
  unfolding background_delete then_next clear_pending Gone
  background_delete-Gone fuel id cursor db db1 hid hc pending num gone run s ge lt hs =
      records (delete_records store fuel id (cursor_of (store.get db (delete_pending_key id))) db)
        refl run
    where
      from : cursor_of (store.get db (delete_pending_key id)) ≡ cursor
      from = ap cursor_of pending ∙ cursor_of-some cursor hc

      producers :
          (r : Option (Bool × Db))
          → ((went : Bool) (db3 : Db) → r ≡ some (went, db3) → view db3 (record_key id s) ≡ none)
          → then_next store r (clear_pending store id) ≡ some (true, db1)
          → view db1 (record_key id s) ≡ none
      producers none left e = cc
      producers (some (false, db3)) left e = cc
      producers (some (true, db3)) left e =
          let same : (commit db3 (delete (delete_pending_key id) ∷ []) true).1 ≡ db1 = cc in
          rw (← same)
            (deletes-none db3 (delete_pending_key id ∷ []) (record_key id s) (left true db3 refl))

      records :
          (r : Option (Bool × Db))
          → delete_records store fuel id (cursor_of (store.get db (delete_pending_key id))) db ≡ r
          → then_next store r
              (λ db2. then_next store (delete_producers store fuel id db2) (clear_pending store id))
            ≡ some (true, db1)
          → view db1 (record_key id s) ≡ none
      records none d e = cc
      records (some (false, db2)) d e = cc
      records (some (true, db2)) d e =
          let start : Kept store id 0 cursor db = record {
            numbered = num;
            gone = gone;
            bound = hc;
          } in
          let left =
            delete_records-Gone store fuel id 0 cursor db db2 hid start (rw from at d) s ge lt hs in
          producers (delete_producers store fuel id db2)
            (λ went db3 p. delete_producers-none fuel id db2 db3 went (record_key id s) left p) e
