-- ===== src/Pwal/Shard.antt =====
-- A shard of the log: `pwalShard` of internal/ds/pwalstore.go, with its file. The goroutine of
-- `runFlush` is `flushing`: the numbers whose `Sync` is under way, which `finish_sync` answers.
pub mod File
pub mod Values
pub mod Recovered
use yasdb.Prelude.{
  ℕ, zero, suc, ◌+◌, ◌-◌, ◌*◌, ◌%◌, ◌^◌, Bool, true, false, Option, none, some, List, [], ◌∷◌, ◌++◌,
  ltb, if◌then◌else◌, length, take,
}
use yasdb.Prelude.Bytes.{Bytes}
use yasdb.Storage.{Op}
use yasdb.Pwal.{encode_pwal_record}

pub record Shard : Type 0 where
  pub idx : ℕ
  pub num_shards : ℕ
  pub file : Bytes
  pub local_seq : ℕ
  pub write_offset : ℕ
  pub pending : List ℕ
  pub in_flight : Bool
  pub flushing : List ℕ

-- `pwalValueLoc`.
pub record ValueLoc : Type 0 where
  pub key : Bytes
  pub file_off : ℕ
  pub n : ℕ

-- A shard over a file, as `OpenPWALStore` makes it before it looks at the records.
abbrev pub open_shard : ℕ → ℕ → Bytes → Shard
open_shard i count file = record {
  idx = i;
  num_shards = count;
  file = file;
  local_seq = 0;
  write_offset = length file;
  pending = [];
  in_flight = false;
  flushing = [];
}

-- `int64(x)` of an `int32`, both as the bits that they have.
unfoldable pub int64_of_int32 : ℕ → ℕ
int64_of_int32 x = if ltb x (2 ^ 31) then x else x + (2 ^ 64 - 2 ^ 32)

-- The locations of the values, by the places in the record; a delete has none.
unfoldable pub locate : ℕ → List Op → List (ℕ × ℕ) → List ValueLoc
locate base [] places = []
locate base (op ∷ ops) [] = []
locate base (op ∷ ops) (place ∷ places) =
    let rest = locate base ops places in
    if op.del
    then rest
    else record { key = op.key; file_off = (base + int64_of_int32 place.0) % 2 ^ 64; n = place.1 }
      ∷ rest

abbrev pub next_seq : Shard → ℕ
next_seq sh = (sh.local_seq * sh.num_shards + sh.idx + 1) % 2 ^ 64

-- What `Write` leaves in the file: the record, or what was written of it before an error.
abbrev pub written : Option ℕ → Bytes → Bytes
written none rec = rec
written (some k) rec = take k rec

-- `stage`, up to the flush.
unfoldable pub write_record : Option ℕ → List Op → Shard → Shard
write_record failed ops sh =
    let rec = (encode_pwal_record (next_seq sh) ops).0 in
    record sh {
      local_seq = (sh.local_seq + 1) % 2 ^ 64;
      file = sh.file ++ written failed rec;
      write_offset = sh.write_offset + length rec;
      pending = sh.pending ++ (next_seq sh ∷ []);
    }

unfoldable pub start_flush : Shard → Shard
start_flush sh =
    if sh.in_flight then sh else record sh { in_flight = true; flushing = sh.pending; pending = [] }

-- The number, the locations, and the shard behind it. A failed write is told to `onErr` and no more;
-- its number of bytes is the argument.
unfoldable pub stage : Option ℕ → List Op → Shard → ℕ × List ValueLoc × Shard
stage failed ops sh = (
  next_seq sh,
  locate sh.write_offset ops (encode_pwal_record (next_seq sh) ops).1,
  start_flush (write_record failed ops sh),
)

-- A round of `runFlush` ends: what became durable, and the next round.
unfoldable pub next_sync : List ℕ → Shard → Shard
next_sync [] sh = record sh { in_flight = false; flushing = [] }
next_sync (q ∷ qs) sh = record sh { flushing = sh.pending; pending = [] }

unfoldable pub finish_sync : Bool → Shard → List ℕ × Shard
finish_sync synced sh = (if synced then sh.flushing else [], next_sync sh.pending sh)

-- Stages that do not fail, one after another: what they return, and the shard behind them.
unfoldable pub stage_all : List (List Op) → Shard → List (ℕ × List ValueLoc) × Shard
stage_all [] sh = ([], sh)
stage_all (ops ∷ rest) sh =
    let r = stage none ops sh in let more = stage_all rest r.2 in ((r.0, r.1) ∷ more.0, more.1)
