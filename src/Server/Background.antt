-- ===== src/Server/Background.antt =====
-- The deletion of a stream's records in the background: internal/ds/deleter.go. Its loops are bounded by
-- `fuel`; the result is `none` where that is too small. Logging is left out.
pub mod Among
pub mod Finishes
pub mod Chunk
pub mod Emptied
pub mod Deleted
mod Tests
use yasdb.Prelude.{
  ℕ, zero, suc, ◌+◌, ◌%◌, ◌^◌, Bool, true, false, Option, none, some, List, [], ◌∷◌, ◌++◌, ltb,
  if◌then◌else◌, length, take, map, Result, ok, err,
}
use yasdb.Prelude.Bytes.{Bytes}
use yasdb.Wire.{u64_value, parse_u64_value}
use yasdb.Keys.{
  kt_delete_pending, prefix_end, record_key, record_prefix_end, producer_prefix,
  producer_prefix_end, delete_pending_key,
}
use yasdb.Storage.{Op, Storage, put, delete}
use yasdb.Server.{Server}
use yasdb.Server.Expiry.{number_at}

abbrev pub delete_chunk : ℕ
delete_chunk = 1000

-- The record number of the last key that is long enough to have one.
unfoldable pub last_seq_of : ℕ → List Bytes → ℕ
last_seq_of last [] = last
last_seq_of last (k ∷ ks) = last_seq_of (if ltb (length k) 17 then last else number_at 9 k) ks

abbrev keys_of : List (Bytes × Bytes) → List Bytes
keys_of = map (λ (row : Bytes × Bytes). row.0)

collected : ℕ → Result (List (Bytes × Bytes)) → Result (List Bytes × ℕ)
unfolding last_seq_of
collected limit (err e) = err e
collected limit (ok rows) = let ks = take limit (keys_of rows) in ok (ks, last_seq_of 0 ks)

cursor_of : Result (Option Bytes) → ℕ
cursor_of (err e) = 0
cursor_of (ok none) = 0
cursor_of (ok (some v)) = elim (parse_u64_value v) [ ok n ↦ n | err e ↦ 0 ]

-- The ids of the pending deletions that a scan finds.
pending_ids : List (Bytes × Bytes) → List ℕ
pending_ids [] = []
pending_ids ((k, v) ∷ rows) =
    let rest = pending_ids rows in if ltb (length k) 9 then rest else number_at 1 k ∷ rest

pending_of : Result (List (Bytes × Bytes)) → List ℕ
unfolding pending_ids
pending_of (err e) = []
pending_of (ok rows) = pending_ids rows

module _ (store : Storage) where
  open store use {Db, get, commit, scan}

  -- A stage of the deletion: whether it went on to the next one, and the store.
  abbrev pub Run : Type 0
  Run = Option (Bool × Db)

  unfoldable pub collect_keys : Db → Bytes → Option Bytes → ℕ → Result (List Bytes × ℕ)
  unfolding collected
  collect_keys db start end limit = collected limit (scan db start end)

  unfoldable pub record_chunk : ℕ → List Bytes → ℕ → List Op
  record_chunk id keys cursor =
      map delete keys ++ (put (delete_pending_key id) (u64_value cursor) ∷ [])

  -- What a loop does after a commit: on an error it returns.
  next_round : (Db → Run) → Result (Unit {0}) × Db → Run
  next_round again (ok u, db) = again db
  next_round again (err e, db) = some (false, db)

  record_round : (ℕ → Db → Run) → ℕ → Db → Result (List Bytes × ℕ) → Run
  unfolding next_round
  record_round again id db (err e) = some (false, db)
  record_round again id db (ok ([], last)) = some (true, db)
  record_round again id db (ok (k ∷ ks, last)) =
      let cursor = (last + 1) % 2 ^ 64 in
      next_round (again cursor) (commit db (record_chunk id (k ∷ ks) cursor) true)

  unfoldable pub delete_records : ℕ → ℕ → ℕ → Db → Run
  unfolding record_round
  delete_records zero id cursor db = none
  delete_records (suc fuel) id cursor db =
      record_round (delete_records fuel id) id db
        (collect_keys db (record_key id cursor) (record_prefix_end id) delete_chunk)

  -- An error of the scan ends this loop, but not the deletion.
  producer_round : (Db → Run) → Db → Result (List Bytes × ℕ) → Run
  unfolding next_round
  producer_round again db (err e) = some (true, db)
  producer_round again db (ok ([], last)) = some (true, db)
  producer_round again db (ok (k ∷ ks, last)) =
      next_round again (commit db (map delete (k ∷ ks)) true)

  unfoldable pub delete_producers : ℕ → ℕ → Db → Run
  unfolding producer_round
  delete_producers zero id db = none
  delete_producers (suc fuel) id db =
      producer_round (delete_producers fuel id) db
        (collect_keys db (producer_prefix id) (producer_prefix_end id) delete_chunk)

  then_next : Run → (Db → Run) → Run
  then_next none next = none
  then_next (some (false, db)) next = some (false, db)
  then_next (some (true, db)) next = next db

  clear_pending : ℕ → Db → Run
  clear_pending id db = some (true, (commit db (delete (delete_pending_key id) ∷ []) true).1)

  unfoldable pub background_delete : ℕ → ℕ → Db → Run
  unfolding then_next clear_pending cursor_of
  background_delete fuel id db =
      then_next (delete_records fuel id (cursor_of (get db (delete_pending_key id))) db)
        (λ db1. then_next (delete_producers fuel id db1) (clear_pending id))

  -- At the start, the deletions that a crash interrupted are started again.
  unfoldable pub resume_deletions : Server store → Server store
  unfolding pending_of
  resume_deletions s =
      let prefix = kt_delete_pending ∷ [] in
      record s { deletions = s.deletions ++ pending_of (scan s.db prefix (prefix_end prefix)) }
