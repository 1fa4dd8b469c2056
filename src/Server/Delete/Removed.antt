-- ===== src/Server/Delete/Removed.antt =====
-- What a deletion leaves behind.
use yasdb.Prelude.{
  ℕ, ◌^◌, ◌<◌, ◌⊎◌, inl, inr, false, Bool-cases, ◌-◌, ◌≡◌, ◌≢◌, refl, ap, ◌∙◌, true, Option, none,
  some, List, [], ◌∷◌, ◌++◌, ltb, ◌==◌, Result, ok, err, arith, if-elim,
}
use yasdb.Prelude.Bytes.{Bytes, bytes_eq, bytes_eq_self}
use yasdb.Prelude.Map.{lookup, lookup-remove}
use yasdb.Wire.{be64, u64_value}
use yasdb.Keys.{
  meta_key, id_mapping_key, tail_key, writer_seq_key, ref_count_key, tombstone_key,
  delete_pending_key, expiry_key,
}
use yasdb.Keys.Order.{bytes_eq-be64}
use yasdb.Meta.{StreamMeta}
use yasdb.Storage.{Op, View, Storage, apply_ops, put, delete}
use yasdb.Storage.View.{Untouched, apply_ops-Untouched, AllOrNothing-Untouched}
use yasdb.Server.{Server, load_ref_count}
use yasdb.Server.Delete.{
  delete_ops, deadline_delete, remove_streamer, remove_streamer_locked, drop_fork_ref,
  after_removal, delete_one,
}

-- The entries of the deleted stream are gone, and its records are marked for deletion.
pub record IsRemoved (path : Bytes) (m : StreamMeta) (view : View) : Type 0 where
  pub meta : view (meta_key path) ≡ none
  pub id_mapping : view (id_mapping_key m.stream_id) ≡ none
  pub tail : view (tail_key m.stream_id) ≡ none
  pub writer_seq : view (writer_seq_key m.stream_id) ≡ none
  pub tombstone : view (tombstone_key path) ≡ none
  pub ref_count : view (ref_count_key m.stream_id) ≡ none
  pub deadline : (m.deadline ≡ 0) ⊎ (view (expiry_key m.deadline m.stream_id) ≡ none)
  pub pending : view (delete_pending_key m.stream_id) ≡ some (u64_value 0)

deadline_delete-Untouched :
    (m : StreamMeta) (c : ℕ) (k : Bytes) → c ≢ 7 → Untouched (c ∷ k) (deadline_delete m)
unfolding deadline_delete expiry_key bytes_eq
deadline_delete-Untouched m c k h =
    if-elim (Untouched (c ∷ k)) (ltb 0 m.deadline) _ _ (λ timed. (ground arith, tt)) (λ untimed. tt)

-- The batch of a deletion, under a key that is not of the index of deadlines.
entries : Bytes → StreamMeta → List Op
entries path m =
    delete (meta_key path)
    ∷ delete (id_mapping_key m.stream_id)
    ∷ delete (tail_key m.stream_id)
    ∷ delete (writer_seq_key m.stream_id)
    ∷ delete (ref_count_key m.stream_id)
    ∷ delete (tombstone_key path)
    ∷ put (delete_pending_key m.stream_id) (u64_value 0)
    ∷ []

delete_ops-entries :
    (path : Bytes) (m : StreamMeta) (view : View) (c : ℕ) (k : Bytes)
    → c ≢ 7
    → apply_ops (delete_ops path m) view (c ∷ k) ≡ apply_ops (entries path m) view (c ∷ k)
unfolding delete_ops entries apply_ops
delete_ops-entries path m view c k h =
    apply_ops-Untouched (c ∷ k) (deadline_delete m) _ (deadline_delete-Untouched m c k h)

-- The entry of the deadline is the last that the batch deletes, if there is one.
deadline_delete-gone :
    (m : StreamMeta) (view : View)
    → (m.deadline ≡ 0)
      ⊎ (apply_ops (deadline_delete m) view (expiry_key m.deadline m.stream_id) ≡ none)
unfolding deadline_delete apply_ops
deadline_delete-gone m view = elim (Bool-cases (ltb 0 m.deadline)) [
  | inl timed ↦ inr (rw (timed, bytes_eq_self (expiry_key m.deadline m.stream_id)))
  | inr untimed ↦ inl (ground arith)
]

delete_ops-deadline :
    (path : Bytes) (m : StreamMeta) (view : View)
    → (m.deadline ≡ 0)
      ⊎ (apply_ops (delete_ops path m) view (expiry_key m.deadline m.stream_id) ≡ none)
unfolding delete_ops apply_ops
delete_ops-deadline path m view = deadline_delete-gone m _

-- A key that the release of a source does not touch.
abbrev IsFree : ℕ → Bytes → Type 0
IsFree source k = bytes_eq (ref_count_key source) k ≡ false

IsFree-ordinal : (source c : ℕ) (k : Bytes) → c ≢ 10 → IsFree source (c ∷ k)
unfolding ref_count_key bytes_eq
IsFree-ordinal source c k h = ground arith

IsFree-ref_count :
    (source id : ℕ) → source < 2 ^ 64 → id < 2 ^ 64 → source ≢ id → IsFree source (ref_count_key id)
unfolding ref_count_key bytes_eq
IsFree-ref_count source id hs hid h = ground (arith, bytes_eq-be64 source id hs hid, h)

IsFree-expiry_key : (source deadline id : ℕ) → IsFree source (expiry_key deadline id)
unfolding expiry_key
IsFree-expiry_key source deadline id = IsFree-ordinal source 7 (be64 deadline ++ be64 id) (λ h. cc)

delete_ops-IsRemoved :
    (path : Bytes) (m : StreamMeta) (view after : View)
    → m.stream_id < 2 ^ 64
    → m.forked_from < 2 ^ 64
    → m.forked_from ≢ m.stream_id
    → ((k : Bytes) → IsFree m.forked_from k → after k ≡ apply_ops (delete_ops path m) view k)
    → IsRemoved path m after
unfolding entries apply_ops meta_key id_mapping_key tail_key writer_seq_key ref_count_key
    tombstone_key delete_pending_key bytes_eq
delete_ops-IsRemoved path m view after hid hf apart e =
    let entry = λ (c : ℕ) (k : Bytes) (f : IsFree m.forked_from (c ∷ k)) (g : c ≢ 7).
      e (c ∷ k) f ∙ delete_ops-entries path m view c k g in
    let id = be64 m.stream_id in
    let same = bytes_eq_self id in
    let free = λ (c : ℕ) (k : Bytes) (h : c ≢ 10). IsFree-ordinal m.forked_from c k h in
    record {
      meta = entry 1 path (free 1 path (λ h. cc)) (λ h. cc) ∙ rw (bytes_eq_self path);
      id_mapping = entry 2 id (free 2 id (λ h. cc)) (λ h. cc) ∙ rw same;
      tail = entry 3 id (free 3 id (λ h. cc)) (λ h. cc) ∙ rw same;
      writer_seq = entry 6 id (free 6 id (λ h. cc)) (λ h. cc) ∙ rw same;
      tombstone = entry 9 path (free 9 path (λ h. cc)) (λ h. cc) ∙ rw (bytes_eq_self path);
      ref_count =
          entry 10 id (IsFree-ref_count m.forked_from m.stream_id hf hid apart) (λ h. cc) ∙ rw same;
      deadline = elim (delete_ops-deadline path m view) [
        | inl never ↦ inl never
        | inr gone ↦ inr (
            e (expiry_key m.deadline m.stream_id)
              (IsFree-expiry_key m.forked_from m.deadline m.stream_id)
            ∙ gone)
      ];
      pending = entry 8 id (free 8 id (λ h. cc)) (λ h. cc) ∙ rw same;
    }

module _ (store : Storage) where
  open store use {Db, view, commit, commit-ok, commit-err}

  -- A commit leaves a key alone that its batch does not touch, if it succeeds or not.
  commit-Untouched :
      (db : Db) (ops : List Op) (k : Bytes) (r : Result (Unit {0}))
      → (commit db ops true).0 ≡ r
      → Untouched k ops
      → view (commit db ops true).1 k ≡ view db k
  commit-Untouched db ops k (ok u) e h =
      commit-ok db ops true k e ∙ apply_ops-Untouched k ops (view db) h
  commit-Untouched db ops k (err f) e h =
      AllOrNothing-Untouched k ops (view db) _ (commit-err db ops true e) h

  -- The release of a source touches its reference count only.
  drop_fork_ref-kept :
      (source : ℕ) (s : Server store) (k : Bytes)
      → IsFree source k
      → let t = (drop_fork_ref store source s).1 in
        (view t.db k ≡ view s.db k) × (t.resident ≡ s.resident) × (t.deletions ≡ s.deletions)
  unfolding drop_fork_ref
  drop_fork_ref-kept source s k h =
      let n = load_ref_count store s.db source - 1 in
      let ops = put (ref_count_key source) (u64_value n) ∷ [] in
      if-elim
        (λ (r : Option (Bytes × StreamMeta) × Server store).
          (view r.1.db k ≡ view s.db k)
          × (r.1.resident ≡ s.resident)
          × (r.1.deletions ≡ s.deletions))
        (ltb 0 n) _ _ (λ used. (commit-Untouched s.db ops k _ refl (h, tt), refl, refl))
        (λ unused. (commit-Untouched s.db ops k _ refl (h, tt), refl, refl))

  -- Behind the commit of the batch.
  after_removal-kept :
      (m : StreamMeta) (s : Server store) (k : Bytes)
      → IsFree m.forked_from k
      → let t = (after_removal store m (ok tt, s)).2 in
        (view t.db k ≡ view s.db k)
        × (t.resident ≡ s.resident)
        × (t.deletions ≡ s.deletions ++ (m.stream_id ∷ []))
  unfolding after_removal
  after_removal-kept m s k h =
      if-elim
        (λ (r : Result (Unit {0}) × Option (Bytes × StreamMeta) × Server store).
          (view r.2.db k ≡ view s.db k)
          × (r.2.resident ≡ s.resident)
          × (r.2.deletions ≡ s.deletions ++ (m.stream_id ∷ [])))
        (m.forked_from == 0) _ _ (λ plain. (refl, refl, refl))
        (λ fork.
          drop_fork_ref-kept m.forked_from
            (record s { deletions = s.deletions ++ (m.stream_id ∷ []) }) k h)

  committed_removal :
      (m : StreamMeta) (x : Result (Unit {0}) × Server store)
      → (after_removal store m x).0 ≡ ok tt
      → (x.0 ≡ ok tt) × (after_removal store m x ≡ after_removal store m (ok tt, x.1))
  unfolding after_removal
  committed_removal m (ok u, s) e = (refl, refl)
  committed_removal m (err f, s) e = cc

  -- A hard deletion that succeeds, of a fork or not, and whatever becomes of its source: the stream's
  -- metadata, id, tail, Stream-Seq, reference count and tombstone are gone from the store, and the
  -- entry of its deadline from the index if it has one, its streamer is gone from memory, and the
  -- deletion of its records is pending from the first one on, in the store, and was started. The
  -- stream is not its own source, and both have ids below 2 ^ 64.
  pub delete_one-IsRemoved :
      (path : Bytes) (m : StreamMeta) (s : Server store)
      → m.stream_id < 2 ^ 64
      → m.forked_from < 2 ^ 64
      → m.forked_from ≢ m.stream_id
      → (delete_one store path m s).0 ≡ ok tt
      → let t = (delete_one store path m s).2 in
        IsRemoved path m (view t.db)
        × (lookup path t.resident ≡ none)
        × (t.deletions ≡ s.deletions ++ (m.stream_id ∷ []))
  unfolding delete_one remove_streamer_locked remove_streamer
  delete_one-IsRemoved path m s hid hf apart e =
      let x = remove_streamer_locked store path (delete_ops path m) s in
      let (done, same) = committed_removal m x e in
      let kept = λ (k : Bytes) (h : IsFree m.forked_from k). after_removal-kept m x.1 k h in
      let plain = kept (0 ∷ []) (IsFree-ordinal m.forked_from 0 [] (λ h. cc)) in
      rw same (
        delete_ops-IsRemoved path m (view s.db) _ hid hf apart
            (λ k h. (kept k h).0 ∙ commit-ok s.db (delete_ops path m) true k done),
        ap (lookup path) plain.1 ∙ (lookup-remove path path s.resident ∙ rw (bytes_eq_self path)),
        plain.2,
      )
