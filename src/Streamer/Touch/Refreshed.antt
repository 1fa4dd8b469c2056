-- ===== src/Streamer/Touch/Refreshed.antt =====
-- What a read leaves of a stream's deadline: internal/ds/streamer.go.
use yasdb.Prelude.{
  Err, ℕ, ◌^◌, ◌<◌, ◌≡◌, ◌⊎◌, inl, inr, refl, sym, ap, subst, ◌+◌, ◌≤◌, ◌∙◌, Bool, true, false,
  ◌&&◌, not, none, some, List, [], ◌∷◌, ◌++◌, ltb, ◌==◌, if◌then◌else◌, Result, ok, err, arith,
}
use yasdb.Prelude.Bytes.{Bytes, bytes_eq, bytes_eq_self, bytes_eq-append}
use yasdb.Wire.{be64, u64_value}
use yasdb.Wire.Laws.{length-be64}
use yasdb.Keys.{expiry_key, meta_key}
use yasdb.Keys.Order.{bytes_eq-be64}
use yasdb.Meta.{StreamMeta, marshal}
use yasdb.Storage.{Storage, View, Op, apply_ops, put, delete}
use yasdb.Storage.View.{apply_ops-append}
use yasdb.Streamer.{Streamer, granularity}
use yasdb.Streamer.Deadline.{IsPadded, granularity-IsPadded}
use yasdb.Streamer.Touch.{
  slid_deadline, is_due, slide_ops, ttl_refresh_ops, after_refresh, refresh_with,
  refresh_ttl_on_read,
}

bytes_eq-expiry_key :
    (a b id : ℕ) → a < 2 ^ 64 → b < 2 ^ 64 → bytes_eq (expiry_key a id) (expiry_key b id) ≡ a == b
unfolding bytes_eq expiry_key
bytes_eq-expiry_key a b id ha hb =
    rw
      (
        bytes_eq-append (be64 a) (be64 b) (be64 id) (be64 id) (length-be64 a ∙ sym (length-be64 b)),
        bytes_eq-be64 a b ha hb,
        bytes_eq_self (be64 id),
      )
      (ground arith)

-- The stream has a TTL, and its deadline is not beyond now + TTL.
pub record IsLate (now : ℕ) (m : StreamMeta) : Type 0 where
  pub has_ttl : 0 < m.ttl_seconds
  pub late : m.deadline ≤ now + m.ttl_seconds

-- The deadline of the stream is the new one, in its metadata, in the store's copy of it and in the index of
-- deadlines, where no entry of an earlier one is left.
pub record IsMoved (s : Streamer) (deadline : ℕ) (view : View) (after : Streamer) : Type 0 where
  pub streamer : after ≡ record s { meta = record s.meta { deadline = deadline } }
  pub entry : view (expiry_key deadline s.id) ≡ some (u64_value s.meta.ttl_seconds)
  pub stored : view (meta_key s.path) ≡ some (marshal after.meta)
  pub old :
      (s.meta.deadline ≡ 0)
      ⊎ ((s.meta.deadline ≡ deadline) ⊎ (view (expiry_key s.meta.deadline s.id) ≡ none))

-- A late deadline was moved past now + TTL, by the padding.
pub record IsRefreshed (now : ℕ) (s : Streamer) (view : View) (after : Streamer) : Type 0 where
  pub was : IsLate now s.meta
  pub deadline : ℕ
  pub padded : IsPadded s.meta.ttl_seconds (now + s.meta.ttl_seconds) deadline
  pub moved : IsMoved s deadline view after

meta_apart : (d id : ℕ) (path : Bytes) → bytes_eq (meta_key path) (expiry_key d id) ≡ false
unfolding bytes_eq meta_key expiry_key
meta_apart d id path = refl

-- The batch of a refresh, under each of its keys.
batch_entry :
    (id old deadline : ℕ) (v w path : Bytes) (t : Bool) (view : View)
    → old < 2 ^ 64
    → deadline < 2 ^ 64
    → (t && (old == deadline)) ≡ false
    → apply_ops
        ((put (expiry_key deadline id) v ∷ (if t then delete (expiry_key old id) ∷ [] else []))
          ++ (put (meta_key path) w ∷ []))
        view
        (expiry_key deadline id)
      ≡ some v
unfolding apply_ops
batch_entry id old deadline v w path false view ho hd apart =
    ground (arith, meta_apart deadline id path, bytes_eq_self (expiry_key deadline id))
batch_entry id old deadline v w path true view ho hd apart = ground (
  arith,
  meta_apart deadline id path,
  bytes_eq_self (expiry_key deadline id),
  bytes_eq-expiry_key old deadline id ho hd,
)

batch_meta :
    (ops : List Op) (path w : Bytes) (view : View)
    → apply_ops (ops ++ (put (meta_key path) w ∷ [])) view (meta_key path) ≡ some w
unfolding apply_ops
batch_meta ops path w view =
    ap (λ (v : View). v (meta_key path)) (apply_ops-append ops (put (meta_key path) w ∷ []) view)
    ∙ rw (bytes_eq_self (meta_key path))

batch_old :
    (id old deadline : ℕ) (v w path : Bytes) (view : View)
    → apply_ops
        ((put (expiry_key deadline id) v ∷ delete (expiry_key old id) ∷ [])
          ++ (put (meta_key path) w ∷ []))
        view
        (expiry_key old id)
      ≡ none
unfolding apply_ops
batch_old id old deadline v w path view =
    ground (arith, meta_apart old id path, bytes_eq_self (expiry_key old id))

-- The old entry is deleted where there is one and it is not the new one.
old_gone :
    (id old deadline : ℕ) (v w path : Bytes) (t : Bool) (view : View)
    → (ltb 0 old && not (old == deadline)) ≡ t
    → (old ≡ 0)
      ⊎ ((old ≡ deadline)
          ⊎ (apply_ops
                ((put (expiry_key deadline id) v
                    ∷ (if t then delete (expiry_key old id) ∷ [] else []))
                  ++ (put (meta_key path) w ∷ []))
                view
                (expiry_key old id)
              ≡ none))
old_gone id old deadline v w path true view e = inr (inr (batch_old id old deadline v w path view))
old_gone id old deadline v w path false view e = ground arith

not_both : (a x : Bool) → ((a && not x) && x) ≡ false
not_both a x = ground arith

slid-IsPadded :
    (now : ℕ) (m : StreamMeta)
    → now + m.ttl_seconds + 600 < 2 ^ 64
    → IsPadded m.ttl_seconds (now + m.ttl_seconds) (slid_deadline now m)
unfolding slid_deadline
slid-IsPadded now m small =
    let p = granularity-IsPadded m.ttl_seconds (now + m.ttl_seconds) in
    let capped = p.capped in
    let same : now + m.ttl_seconds + granularity m.ttl_seconds ≡ slid_deadline now m =
      omega arith in
    subst (IsPadded m.ttl_seconds (now + m.ttl_seconds)) same p

is_due-cases :
    (now : ℕ) (m : StreamMeta)
    → now + m.ttl_seconds + 600 < 2 ^ 64
    → ((is_due now m ≡ true) × (0 < m.ttl_seconds) × (m.deadline ≤ now + m.ttl_seconds))
      ⊎ ((is_due now m ≡ false) × ((m.ttl_seconds ≡ 0) ⊎ (now + m.ttl_seconds < m.deadline)))
unfolding is_due
is_due-cases now m small = ground arith

module _ (store : Storage) where
  open store use {Db, view, commit, commit-ok}

  refreshed :
      (db : Db) (s : Streamer) (deadline : ℕ)
      → s.meta.deadline < 2 ^ 64
      → deadline < 2 ^ 64
      → let m = record s.meta { deadline = deadline } in
        let ops = slide_ops s.id s.meta deadline ++ (put (meta_key s.path) (marshal m) ∷ []) in
        (commit db ops false).0 ≡ ok tt
        → IsMoved s deadline (view (commit db ops false).1) (record s { meta = m })
  unfolding slide_ops
  refreshed db s deadline ho hd done =
      let m = record s.meta { deadline = deadline } in
      let t = ltb 0 s.meta.deadline && not (s.meta.deadline == deadline) in
      let ops = slide_ops s.id s.meta deadline ++ (put (meta_key s.path) (marshal m) ∷ []) in
      let after = λ (k : Bytes). commit-ok db ops false k done in
      let v = u64_value s.meta.ttl_seconds in
      record {
        streamer = refl;
        entry =
            after (expiry_key deadline s.id)
            ∙ batch_entry s.id s.meta.deadline deadline v (marshal m) s.path t (view db) ho hd
                (not_both (ltb 0 s.meta.deadline) (s.meta.deadline == deadline));
        stored =
            after (meta_key s.path)
            ∙ batch_meta (slide_ops s.id s.meta deadline) s.path (marshal m) (view db);
        old = elim (old_gone s.id s.meta.deadline deadline v (marshal m) s.path t (view db) refl) [
          | inl never ↦ inl never
          | inr (inl same) ↦ inr (inl same)
          | inr (inr gone) ↦ inr (inr (after (expiry_key s.meta.deadline s.id) ∙ gone))
        ];
      }

  -- Nothing was done: the stream has no TTL, or its deadline is still beyond now + TTL.
  pub record IsIdle (now : ℕ) (db : Db) (s : Streamer) (r : Db × Streamer) : Type 0 where
    pub why : (s.meta.ttl_seconds ≡ 0) ⊎ (now + s.meta.ttl_seconds < s.meta.deadline)
    pub same : r ≡ (db, s)

  -- The deadline was late, but the store refused the batch: the streamer keeps the deadline that it had.
  pub record IsRefused (now : ℕ) (db : Db) (s : Streamer) (r : Db × Streamer) : Type 0 where
    pub was : IsLate now s.meta
    pub batch : List Op
    pub why : Err
    pub refused : (commit db batch false).0 ≡ err why
    pub kept : r.1 ≡ s

  refresh_batch : ℕ → Streamer → List Op
  refresh_batch deadline s =
      slide_ops s.id s.meta deadline
      ++ (put (meta_key s.path) (marshal (record s.meta { deadline = deadline })) ∷ [])

  committed :
      (now : ℕ) (db : Db) (s : Streamer) (deadline : ℕ) (out : Result (Unit {0}) × Db)
      → IsLate now s.meta
      → IsPadded s.meta.ttl_seconds (now + s.meta.ttl_seconds) deadline
      → s.meta.deadline < 2 ^ 64
      → deadline < 2 ^ 64
      → commit db (refresh_batch deadline s) false ≡ out
      → let r = after_refresh store s (record s.meta { deadline = deadline }) out in
        IsRefused now db s r ⊎ IsRefreshed now s (view r.0) r.1
  unfolding after_refresh refresh_batch
  committed now db s deadline (ok u, db1) late pad ho hd e = inr (record {
    was = late;
    deadline = deadline;
    padded = pad;
    moved = rw e at (refreshed db s deadline ho hd (rw e));
  })
  committed now db s deadline (err x, db1) late pad ho hd e = inl (record {
    was = late;
    batch = refresh_batch deadline s;
    why = x;
    refused = rw e refl;
    kept = refl;
  })

  -- What a read does to the deadline of its stream. If the stream has a TTL and its deadline is at or before
  -- now + TTL, it is moved past that, by a quarter of the TTL, rounded down, but by 1 second at least and by
  -- 600 at most: the streamer, the stored metadata and the index of deadlines have the new one, and no
  -- entry of the old one is left; or the store refuses the batch, and the streamer keeps its deadline.
  -- Otherwise nothing is done. The deadline and the times are below 2 ^ 64.
  pub refresh_ttl_on_read-cases :
      (db : Db) (now : ℕ) (s : Streamer)
      → s.meta.deadline < 2 ^ 64
      → now + s.meta.ttl_seconds + 600 < 2 ^ 64
      → let r = refresh_ttl_on_read store db now s in
        IsIdle now db s r ⊎ (IsRefused now db s r ⊎ IsRefreshed now s (view r.0) r.1)
  unfolding refresh_ttl_on_read refresh_with ttl_refresh_ops refresh_batch
  refresh_ttl_on_read-cases db now s ho small = elim (is_due-cases now s.meta small) [
    | inl (due, has_ttl, late) ↦
        let pad = slid-IsPadded now s.meta small in
        let capped = pad.capped in
        let was : IsLate now s.meta = record { has_ttl = has_ttl; late = late } in
        inr (
          subst Shown (sym due)
            (committed now db s (slid_deadline now s.meta) _ was pad ho (omega arith) refl))
    | inr (idle, why) ↦ inl (subst Idle (sym idle) (record { why = why; same = refl }))
  ]
    where
      run : Bool → Db × Streamer
      run due = refresh_with store db s (
          if due
          then some (
            slide_ops s.id s.meta (slid_deadline now s.meta),
            record s.meta { deadline = slid_deadline now s.meta },
          )
          else none)

      Shown : Bool → Type 0
      Shown due = IsRefused now db s (run due) ⊎ IsRefreshed now s (view (run due).0) (run due).1

      Idle : Bool → Type 0
      Idle due = IsIdle now db s (run due)
