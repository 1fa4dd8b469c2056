-- ===== src/Server/Delete.antt =====
-- Deleting a stream: `deleteStream` of internal/ds/handlers.go, and `deleteStreamLocked`,
-- `softDeleteLocked`, `removeStreamerLocked` and `dropForkRef` of internal/ds/expiry.go. The release of
-- a source is the last step of a deletion and its errors are dropped, so the recursion along the chain
-- of forks is a loop over the stream to delete next; it is bounded by `fuel`, and the
-- Boolean of a result tells whether that was enough.

pub mod Removed
use yasdb.Prelude.{
  ℕ, zero, suc, ◌-◌, Bool, true, false, Option, none, some, List, [], ◌∷◌, ◌++◌, ltb, ◌==◌,
  if◌then◌else◌, Result, ok, err, gone, not_found,
}
use yasdb.Prelude.Bytes.{Bytes}
use yasdb.Prelude.Map.{remove}
use yasdb.Wire.{be64, u64_value}
use yasdb.Keys.{
  meta_key, id_mapping_key, tail_key, writer_seq_key, ref_count_key, tombstone_key,
  delete_pending_key, expiry_key,
}
use yasdb.Meta.{StreamMeta}
use yasdb.Storage.{Op, Storage, put, delete}
use yasdb.Server.{
  Server, tomb_soft_delete, load_meta, load_meta_by_id, load_tombstone, load_ref_count,
}

unfoldable pub tombstone_value : ℕ → ℕ → Bytes
tombstone_value reason id = reason ∷ be64 id

deadline_delete : StreamMeta → List Op
deadline_delete m = if ltb 0 m.deadline then delete (expiry_key m.deadline m.stream_id) ∷ [] else []

unfoldable pub delete_ops : Bytes → StreamMeta → List Op
unfolding deadline_delete
delete_ops path m =
    delete (meta_key path)
    ∷ delete (id_mapping_key m.stream_id)
    ∷ delete (tail_key m.stream_id)
    ∷ delete (writer_seq_key m.stream_id)
    ∷ delete (ref_count_key m.stream_id)
    ∷ delete (tombstone_key path)
    ∷ put (delete_pending_key m.stream_id) (u64_value 0)
    ∷ deadline_delete m

-- The next stream of a cascade, with its metadata.
abbrev pub Next : Type 0
Next = Option (Bytes × StreamMeta)

-- A source is deleted next if it was found and has a tombstone.
released : Result (Option (StreamMeta × Bytes)) → (Bytes → Result (Option (ℕ × ℕ))) → Next
released (err e) tombstone = none
released (ok none) tombstone = none
released (ok (some (m, path))) tombstone = elim (tombstone path) [
  | ok t ↦ elim t [ some found ↦ some (path, m) | none ↦ none ]
  | err e ↦ none
]

module _ (store : Storage) where
  open store use {Db, commit}

  unfoldable pub remove_streamer : Bytes → Server store → Server store
  remove_streamer path s = record s { resident = remove path s.resident }

  unfoldable pub remove_streamer_locked :
      Bytes → List Op → Server store → Result (Unit {0}) × Server store
  unfolding remove_streamer
  remove_streamer_locked path ops s =
      let c = commit s.db ops true in (c.0, record (remove_streamer path s) { db = c.1 })

  unfoldable pub soft_delete_locked :
      Bytes → StreamMeta → Server store → Result (Unit {0}) × Server store
  soft_delete_locked path m s =
      remove_streamer_locked path
        (put (tombstone_key path) (tombstone_value tomb_soft_delete m.stream_id) ∷ []) s

  -- Up to the cascade: the source's count is stored whether or not the commit succeeds.
  unfoldable pub drop_fork_ref : ℕ → Server store → Next × Server store
  unfolding released
  drop_fork_ref source s =
      let count = load_ref_count store s.db source - 1 in
      let db = (commit s.db (put (ref_count_key source) (u64_value count) ∷ []) true).1 in
      let t = record s { db = db } in
      if ltb 0 count
      then (none, t)
      else (released (load_meta_by_id store db source) (load_tombstone store db), t)

  after_removal :
      StreamMeta → Result (Unit {0}) × Server store → Result (Unit {0}) × Next × Server store
  unfolding drop_fork_ref
  after_removal m (err e, s) = (err e, none, s)
  after_removal m (ok u, s) =
      let t = record s { deletions = s.deletions ++ (m.stream_id ∷ []) } in
      if m.forked_from == 0
      then (ok tt, none, t)
      else (let d = drop_fork_ref m.forked_from t in (ok tt, d.0, d.1))

  -- One stream of a cascade.
  unfoldable pub delete_one :
      Bytes → StreamMeta → Server store → Result (Unit {0}) × Next × Server store
  unfolding after_removal remove_streamer_locked
  delete_one path m s = after_removal m (remove_streamer_locked path (delete_ops path m) s)

  -- The rest of a cascade, and whether the fuel was enough for it.
  unfoldable pub cascade : ℕ → Next → Server store → Bool × Server store
  cascade fuel none s = (true, s)
  cascade zero (some next) s = (false, s)
  cascade (suc fuel) (some (path, m)) s = let r = delete_one path m s in cascade fuel r.1 r.2

  unfoldable pub delete_stream_locked :
      ℕ → Bytes → StreamMeta → Server store → Result (Unit {0}) × Bool × Server store
  delete_stream_locked fuel path m s =
      let r = delete_one path m s in let c = cascade fuel r.1 r.2 in (r.0, c.0, c.1)

  abbrev soft_deleted : Option (ℕ × ℕ) → Bool
  soft_deleted none = false
  soft_deleted (some (reason, id)) = reason == tomb_soft_delete

  delete_found :
      ℕ → Bytes → Server store → Option StreamMeta → Result (Unit {0}) × Bool × Server store
  unfolding soft_delete_locked delete_stream_locked
  delete_found fuel path s none = (err not_found, true, s)
  delete_found fuel path s (some m) =
      if ltb 0 (load_ref_count store s.db m.stream_id)
      then (let r = soft_delete_locked path m s in (r.0, true, r.1))
      else delete_stream_locked fuel path m s

  delete_checked :
      ℕ → Bytes → Server store → Result (Option (ℕ × ℕ)) → Result (Unit {0}) × Bool × Server store
  unfolding delete_found
  delete_checked fuel path s (err e) = (err e, true, s)
  delete_checked fuel path s (ok t) =
      if soft_deleted t then (err gone, true, s) else elim (load_meta store s.db path) [
        | ok m ↦ delete_found fuel path s m
        | err e ↦ (err e, true, s)
      ]

  unfoldable pub delete_stream : ℕ → Bytes → Server store → Result (Unit {0}) × Bool × Server store
  unfolding delete_checked
  delete_stream fuel path s = delete_checked fuel path s (load_tombstone store s.db path)
