-- ===== src/Pwal/Store/Recovery.antt =====
-- `OpenPWALStore` of internal/ds/pwalstore.go on the files that it finds, one for each shard; a file
-- that does not exist is empty. `sort.Slice` is a library's: the numbers of records differ, so that the
-- order of its result is determined.
use yasdb.Prelude.{
  ℕ, zero, suc, ◌+◌, ◌-◌, ◌/◌, ◌%◌, ◌^◌, none, List, [], ◌∷◌, ◌++◌, ltb, if◌then◌else◌, map,
}
use yasdb.Prelude.Bytes.{Bytes}
use yasdb.Watermark.{Watermark, mark}
use yasdb.Watermark
use yasdb.Pwal.Decode.{Entry, Record, decode_pwal_shard}
use yasdb.Pwal.Shard.{Shard, open_shard}
use yasdb.Pwal.Store.{Place, Store}
use yasdb.Pwal.Store.Btree.{Tree}

-- The shard's next local number, after its last record.
unfoldable pub local_after : ℕ → ℕ → List Record → ℕ
local_after count i [] = 0
local_after count i (r ∷ []) = ((r.seq + 2 ^ 64 - i - 1) % 2 ^ 64 / count + 1) % 2 ^ 64
local_after count i (r ∷ q ∷ rs) = local_after count i (q ∷ rs)

unfoldable pub reopened_shard : ℕ → ℕ → Bytes → Shard
reopened_shard count i file = record (open_shard i count file) {
  local_seq = local_after count i (decode_pwal_shard file);
}

abbrev pub file_at : List Bytes → ℕ → Bytes
file_at [] i = []
file_at (f ∷ fs) zero = f
file_at (f ∷ fs) (suc i) = file_at fs i

abbrev pub all_records : List Bytes → List Record
all_records [] = []
all_records (f ∷ fs) = decode_pwal_shard f ++ all_records fs

unfoldable pub insert_record : Record → List Record → List Record
insert_record r [] = r ∷ []
insert_record r (q ∷ qs) =
    let rest = insert_record r qs in if ltb r.seq q.seq then r ∷ q ∷ qs else q ∷ rest

unfoldable pub sort_records : List Record → List Record
sort_records [] = []
sort_records (r ∷ rs) = insert_record r (sort_records rs)

module _ (M : Tree Place) where
  unfoldable pub replay_entries : ℕ → List Entry → M.T → M.T
  replay_entries i [] tree = tree
  replay_entries i (e ∷ es) tree = replay_entries i es (
      if e.del
      then M.delete e.key tree
      else M.insert e.key (record { shard_idx = i; file_off = e.file_off; n = e.n }) tree)

  -- The shard of a record, from its number.
  unfoldable pub replay : ℕ → List Record → M.T → M.T
  replay count [] tree = tree
  replay count (r ∷ rs) tree =
      replay count rs (replay_entries ((r.seq + 2 ^ 64 - 1) % 2 ^ 64 % count) r.entries tree)

  unfoldable pub open_pwal_store : List Bytes → ℕ → Store M.T
  open_pwal_store files shards =
      let count = if ltb shards 1 then 1 else shards in
      let records = all_records files in
      record {
        shard_count = count;
        shards = λ i. reopened_shard count i (file_at files i);
        next_shard = 0;
        tree = replay count (sort_records records) M.empty;
        failure = none;
        wm = mark (map (λ (r : Record). r.seq) records) Watermark.new;
      }
