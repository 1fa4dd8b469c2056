-- ===== src/Server/Expiry/Due.antt =====
-- What the sweep does with an entry of the deadline index.
use yasdb.Prelude.{
  ℕ, ◌≡◌, refl, ◌∙◌, ◌⊎◌, inl, inr, Bool, true, false, ◌||◌, not, Option, none, some, [], ◌∷◌, ◌==◌,
  Result, ok, err, arith, if-elim,
}
use yasdb.Prelude.Bytes.{Bytes, bytes_eq}
use yasdb.Keys.{id_mapping_key}
use yasdb.Meta.{StreamMeta}
use yasdb.Storage.{Storage, delete}
use yasdb.Storage.View.{apply_ops-Untouched, AllOrNothing-Untouched}
use yasdb.Server.{Server, load_meta}
use yasdb.Server.Delete.{delete_stream_locked}
use yasdb.Server.Expiry.{
  DueEntry, in_future, expire_if_due, expire_path, expire_found, drop_stale_expiry,
}

module _ (store : Storage) where
  open store use {Db, get, view, commit, commit-ok, commit-err}

  -- The entry is the current deadline of a stream, that is due, and the stream was deleted.
  pub record IsExpired (fuel : ℕ) (d : DueEntry) (now : ℕ) (s : Server store)
      (r : Bool × Server store) : Type 0 where
    pub path : Bytes
    pub meta : StreamMeta
    pub found : get s.db (id_mapping_key d.id) ≡ ok (some path)
    pub loaded : load_meta store s.db path ≡ ok (some meta)
    pub same_id : meta.stream_id ≡ d.id
    pub same_deadline : meta.deadline ≡ d.deadline
    pub due : in_future d.deadline now ≡ false
    pub deleted : r.1 ≡ (delete_stream_locked store fuel path meta s).2

  -- Nothing has changed, but for the entry itself.
  pub IsKept : Bytes → Server store → Bool × Server store → Type 0
  IsKept k s r =
      (view r.1.db k ≡ view s.db k) × (r.1.resident ≡ s.resident) × (r.1.deletions ≡ s.deletions)

  commit_delete-kept :
      (db : Db) (key k : Bytes) (r : Result (Unit {0}))
      → bytes_eq key k ≡ false
      → (commit db (delete key ∷ []) false).0 ≡ r
      → view (commit db (delete key ∷ []) false).1 k ≡ view db k
  commit_delete-kept db key k (ok u) h e =
      commit-ok db (delete key ∷ []) false k e
      ∙ apply_ops-Untouched k (delete key ∷ []) (view db) (h, tt)
  commit_delete-kept db key k (err f) h e =
      AllOrNothing-Untouched k (delete key ∷ []) (view db) _
        (commit-err db (delete key ∷ []) false e) (h, tt)

  stale-IsKept :
      (key k : Bytes) (s : Server store)
      → bytes_eq key k ≡ false
      → IsKept k s (true, drop_stale_expiry store key s)
  unfolding IsKept drop_stale_expiry
  stale-IsKept key k s h = (commit_delete-kept s.db key k _ h refl, refl, refl)

  expire_found-cases :
      (fuel : ℕ) (d : DueEntry) (now : ℕ) (path k : Bytes) (o : Result (Option StreamMeta))
      (s : Server store)
      → bytes_eq d.key k ≡ false
      → get s.db (id_mapping_key d.id) ≡ ok (some path)
      → load_meta store s.db path ≡ o
      → IsExpired fuel d now s (expire_found store fuel d now path o s)
        ⊎ IsKept k s (expire_found store fuel d now path o s)
  unfolding expire_found IsKept
  expire_found-cases fuel d now path k (err e) s h f l = inr (refl, refl, refl)
  expire_found-cases fuel d now path k (ok none) s h f l = inr (stale-IsKept d.key k s h)
  expire_found-cases fuel d now path k (ok (some m)) s h f l =
      if-elim (λ r. IsExpired fuel d now s r ⊎ IsKept k s r)
        (not (m.stream_id == d.id) || not (m.deadline == d.deadline)) _ _
        (λ other. inr (stale-IsKept d.key k s h))
        (λ current.
          if-elim (λ r. IsExpired fuel d now s r ⊎ IsKept k s r) (in_future d.deadline now) _ _
            (λ later. inr (refl, refl, refl))
            (λ due. inl (record {
              path = path;
              meta = m;
              found = f;
              loaded = l;
              same_id = ground arith;
              same_deadline = ground arith;
              due = due;
              deleted = refl;
            })))

  expire_path-cases :
      (fuel : ℕ) (d : DueEntry) (now : ℕ) (k : Bytes) (o : Result (Option Bytes)) (s : Server store)
      → bytes_eq d.key k ≡ false
      → get s.db (id_mapping_key d.id) ≡ o
      → IsExpired fuel d now s (expire_path store fuel d now o s)
        ⊎ IsKept k s (expire_path store fuel d now o s)
  unfolding expire_path IsKept
  expire_path-cases fuel d now k (err e) s h f = inr (refl, refl, refl)
  expire_path-cases fuel d now k (ok none) s h f = inr (stale-IsKept d.key k s h)
  expire_path-cases fuel d now k (ok (some path)) s h f =
      expire_found-cases fuel d now path k (load_meta store s.db path) s h f refl

  -- The sweep of one entry, on every path: either the entry is the deadline that its stream has now,
  -- that deadline is not in the future, and the stream is deleted; or no stream is touched, and in the
  -- store nothing changes but the entry itself.
  pub expire_if_due-cases :
      (fuel : ℕ) (d : DueEntry) (now : ℕ) (s : Server store) (k : Bytes)
      → bytes_eq d.key k ≡ false
      → IsExpired fuel d now s (expire_if_due store fuel d now s)
        ⊎ IsKept k s (expire_if_due store fuel d now s)
  unfolding expire_if_due
  expire_if_due-cases fuel d now s k h =
      expire_path-cases fuel d now k (get s.db (id_mapping_key d.id)) s h refl
