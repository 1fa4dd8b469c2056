-- ===== src/Pwal/Store.antt =====
-- The store over the shards: `pwalStore` of internal/ds/pwalstore.go. The B-tree that indexes it is
-- not part of the repository: it is a parameter, with what its interface documents as laws. The shards
-- are a function of their number below `shard_count`. The counter of `nextShard` stays below 2 ^ 63.
pub mod Btree
pub mod Located
pub mod Index
pub mod Refines
pub mod Recovery
pub mod Numbers
use yasdb.Prelude.{
  ℕ, zero, suc, ◌+◌, ◌-◌, ◌/◌, ◌%◌, ◌^◌, Bool, true, false, ◌&&◌, not, Option, none, some, List, [],
  ◌∷◌, ◌++◌, ltb, leb, ◌==◌, if◌then◌else◌, length, take, drop, Result, ok, err, Err, engine, ◌>>=◌,
}
use yasdb.Prelude.Bytes.{Bytes, bytes_eq}
use yasdb.Storage.{Op}
use yasdb.Watermark.{Watermark, mark}
use yasdb.Watermark
use yasdb.Pwal.Decode.{Entry, Record, decode_pwal_shard}
use yasdb.Pwal.Shard.{Shard, ValueLoc, open_shard, stage, finish_sync}
use yasdb.Pwal.Store.Btree.{Tree}

-- `pwalEntry`, without its key.
pub record Place : Type 0 where
  pub shard_idx : ℕ
  pub file_off : ℕ
  pub n : ℕ

pub record Store (T : Type 0) : Type 0 where
  pub shard_count : ℕ
  pub shards : ℕ → Shard
  pub next_shard : ℕ
  pub tree : T
  pub failure : Option Err
  pub wm : Watermark

-- `readValue`: `ReadAt` fails when the file ends before the buffer is full.
unfoldable pub read_at : Bytes → ℕ → ℕ → Result Bytes
read_at file off n =
    if n == 0
    then ok []
    else (if leb (off + n) (length file) then ok (take n (drop off file)) else err (engine 0))

-- `byKey`: the last location of a key, and Go's zero value where there is none.
unfoldable pub loc_from : Bytes → List ValueLoc → ValueLoc → ValueLoc
loc_from k [] found = found
loc_from k (l ∷ locs) found = loc_from k locs (if bytes_eq l.key k then l else found)

abbrev pub no_loc : ValueLoc
no_loc = record { key = []; file_off = 0; n = 0 }

abbrev pub by_key : List ValueLoc → Bytes → ValueLoc
by_key locs k = loc_from k locs no_loc

abbrev pub place_of : ℕ → ValueLoc → Place
place_of i l = record { shard_idx = i; file_off = l.file_off; n = l.n }

-- The first error stays.
abbrev pub first_err : Option Err → Option Err → Option Err
first_err (some e) new = some e
first_err none new = new

abbrev pub set_shard : ℕ → Shard → (ℕ → Shard) → ℕ → Shard
set_shard i sh shards j = if j == i then sh else shards j

module _ (M : Tree Place) where
  unfoldable pub read_value : Store M.T → Place → Result Bytes
  read_value s e = read_at (s.shards e.shard_idx).file e.file_off e.n

  unfoldable pub get_found : Store M.T → Option Place → Result (Option Bytes)
  get_found s none = ok none
  get_found s (some e) = elim (read_value s e) [ ok v ↦ ok (some v) | err e1 ↦ err e1 ]

  unfoldable pub get : Bytes → Store M.T → Result (Option Bytes)
  get key s = get_found s (M.find key s.tree)

  -- The index after a batch, from the locations of its values.
  unfoldable pub index_ops : ℕ → (Bytes → ValueLoc) → List Op → M.T → M.T
  index_ops i locs [] tree = tree
  index_ops i locs (op ∷ ops) tree =
      index_ops i locs ops
        (if op.del then M.delete op.key tree else M.insert op.key (place_of i (locs op.key)) tree)

  -- The store behind a stage in one of its shards.
  unfoldable pub staged : Option ℕ → ℕ → List Op → Store M.T → Result ℕ × Store M.T
  staged failed i ops s =
      let r = stage failed ops (s.shards i) in
      (
        ok r.0,
        record s {
          next_shard = (s.next_shard + 1) % 2 ^ 64;
          shards = set_shard i r.2 s.shards;
          tree = index_ops i (by_key r.1) ops s.tree;
          failure = elim failed [
            | none ↦ s.failure
            | some k ↦ first_err s.failure (some (engine 1))
          ];
        },
      )

  unfoldable pub commit_unless : Option Err → Option ℕ → List Op → Store M.T → Result ℕ × Store M.T
  commit_unless (some e) failed ops s = (err e, s)
  commit_unless none failed ops s = staged failed (s.next_shard % s.shard_count) ops s

  -- `CommitAsync`; the argument says whether the write to the file fails, and after how many bytes.
  unfoldable pub commit_async : Option ℕ → List Op → Store M.T → Result ℕ × Store M.T
  commit_async failed ops s = commit_unless s.failure failed ops s

  -- A `Sync` of a shard ends: `onDurable`, or `onErr`.
  unfoldable pub synced : Bool → ℕ → Store M.T → Store M.T
  synced success i s =
      let r = finish_sync success (s.shards i) in
      record s {
        shards = set_shard i r.1 s.shards;
        wm = if success then mark r.0 s.wm else s.wm;
        failure = if success then s.failure else first_err s.failure (some (engine 2));
      }

  unfoldable pub durable_seq : Store M.T → Result ℕ
  durable_seq s = elim s.failure [ some e ↦ err e | none ↦ ok s.wm.value ]

  -- `OpenPWALStore` on an empty directory.
  unfoldable pub empty_store : ℕ → Store M.T
  empty_store count =
      let shard_count = if ltb count 1 then 1 else count in
      record {
        shard_count = shard_count;
        shards = λ i. open_shard i shard_count [];
        next_shard = 0;
        tree = M.empty;
        failure = none;
        wm = Watermark.new;
      }

  -- Commits one after another, none of which fails.
  unfoldable pub commit_all : List (List Op) → Store M.T → Store M.T
  commit_all [] s = s
  commit_all (ops ∷ opss) s = commit_all opss (commit_async none ops s).1
