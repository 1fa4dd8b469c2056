-- ===== src/Server/Expiry.antt =====
-- The sweep of due deadlines, `sweepOnce` and `expireIfDue` of internal/ds/expiry.go, and the deletion of
-- a stream's records in the background, internal/ds/deleter.go. A loop of the background deletion is
-- bounded by `fuel`; its result is `none` where that is too small.

pub mod Due
use yasdb.Prelude.{
  ℕ, ◌^◌, Bool, true, false, ◌||◌, not, Option, none, some, List, [], ◌∷◌, ltb, ◌==◌, if◌then◌else◌,
  length, take, drop, Result, ok, err,
}
use yasdb.Prelude.Bytes.{Bytes}
use yasdb.Wire.{be64_decode}
use yasdb.Keys.{id_mapping_key, kt_expiry_deadline, expiry_scan_end}
use yasdb.Meta.{StreamMeta}
use yasdb.Storage.{Storage, delete}
use yasdb.Server.{Server, load_meta}
use yasdb.Server.Delete.{delete_stream_locked}

-- One due entry, as its key tells it.
pub record DueEntry : Type 0 where
  pub deadline : ℕ
  pub id : ℕ
  pub key : Bytes

-- `d[lo:lo+8]` as a number.
abbrev pub number_at : ℕ → Bytes → ℕ
number_at lo k = be64_decode (take 8 (drop lo k))

unfoldable pub dues_of : List (Bytes × Bytes) → List DueEntry
dues_of [] = []
dues_of ((k, v) ∷ rows) =
    let rest = dues_of rows in
    if ltb (length k) 17
    then rest
    else record { deadline = number_at 1 k; id = number_at 9 k; key = k } ∷ rest

-- `int64(deadline) > now`, of a deadline that is below 2 ^ 63 if it is not negative.
unfoldable pub in_future : ℕ → ℕ → Bool
in_future deadline now = if ltb deadline (2 ^ 63) then ltb now deadline else false

module _ (store : Storage) where
  open store use {Db, get, commit, scan}

  unfoldable pub drop_stale_expiry : Bytes → Server store → Server store
  drop_stale_expiry key s = record s { db = (commit s.db (delete key ∷ []) false).1 }

  -- The stream at the path of the entry's id.
  expire_found :
      ℕ → DueEntry → ℕ → Bytes → Result (Option StreamMeta) → Server store → Bool × Server store
  unfolding drop_stale_expiry
  expire_found fuel d now path (err e) s = (true, s)
  expire_found fuel d now path (ok none) s = (true, drop_stale_expiry d.key s)
  expire_found fuel d now path (ok (some m)) s =
      if not (m.stream_id == d.id) || not (m.deadline == d.deadline)
      then (true, drop_stale_expiry d.key s)
      else (if in_future d.deadline now
          then (true, s)
          else (let r = delete_stream_locked store fuel path m s in (r.1, r.2)))

  expire_path : ℕ → DueEntry → ℕ → Result (Option Bytes) → Server store → Bool × Server store
  unfolding expire_found
  expire_path fuel d now (err e) s = (true, s)
  expire_path fuel d now (ok none) s = (true, drop_stale_expiry d.key s)
  expire_path fuel d now (ok (some path)) s =
      expire_found fuel d now path (load_meta store s.db path) s

  unfoldable pub expire_if_due : ℕ → DueEntry → ℕ → Server store → Bool × Server store
  unfolding expire_path
  expire_if_due fuel d now s = expire_path fuel d now (get s.db (id_mapping_key d.id)) s

  expire_all : ℕ → ℕ → List DueEntry → Server store → Bool × Server store
  expire_all fuel now [] s = (true, s)
  expire_all fuel now (d ∷ ds) s =
      let r = expire_if_due fuel d now s in
      let t = expire_all fuel now ds r.1 in (if r.0 then t.0 else false, t.1)

  expire_rows : ℕ → ℕ → Result (List (Bytes × Bytes)) → Server store → Bool × Server store
  unfolding expire_all dues_of
  expire_rows fuel now (err e) s = (true, s)
  expire_rows fuel now (ok rows) s = expire_all fuel now (dues_of rows) s

  unfoldable pub sweep_once : ℕ → ℕ → Server store → Bool × Server store
  unfolding expire_rows
  sweep_once fuel now s =
      expire_rows fuel now (scan s.db (kt_expiry_deadline ∷ []) (some (expiry_scan_end now))) s
