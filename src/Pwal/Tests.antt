-- ===== src/Pwal/Tests.antt =====
-- Two commits on the second of two shards, and the first bytes of a third.
use yasdb.Prelude.{
  ℕ, Option, ok, ◌≡◌, refl, List, [], ◌∷◌, ◌++◌, length, map, arith, none, some, drop, take,
}
use yasdb.Prelude.Bytes.{Bytes, bytes_eq}
use yasdb.Storage.{Op, put, delete}
use yasdb.Wire.{be, be_uint, be_uint_from}
use yasdb.Pwal.{
  checksum, crc_from, crc_bits, op_head, op_bytes, value_place, encode_ops, frame,
  encode_pwal_record,
}
use yasdb.Pwal.Decode.{
  decode_pwal_shard, decode_records, decode_record, decode_body, rd_u32, rd_bytes, rd_byte,
  rd_entry, rd_value, decode_op, decode_ops,
}
use yasdb.Pwal.Shard.{
  open_shard, stage_all, stage, write_record, start_flush, locate, int64_of_int32,
}
use yasdb.Pwal.Shard.File.{IsTorn, record_bytes}
use yasdb.Pwal.Shard.Values.{mutation, mutations_in}
use yasdb.Pwal.Store
use yasdb.Pwal.Store.{
  Place, Store, get, get_found, read_value, read_at, commit_all, commit_async, commit_unless,
  empty_store, index_ops, loc_from,
}
use yasdb.Pwal.Store.Btree.{function_tree}
use yasdb.Pwal.Store.Refines.{apply_batches, get-commit_all}
use yasdb.Pwal.Store.Numbers.{commit_results, count_from, commit_results-count_from}
use yasdb.Pwal.Store.Recovery.{
  open_pwal_store, replay, replay_entries, sort_records, insert_record, reopened_shard, local_after,
}
use yasdb.Pwal.Shard.Recovered.{summary, decode_pwal_shard-stage_all}

-- The check value of CRC-32C, of the string 123456789.
check_value : checksum (49 ∷ 50 ∷ 51 ∷ 52 ∷ 53 ∷ 54 ∷ 55 ∷ 56 ∷ 57 ∷ []) ≡ 3808858755
unfolding checksum crc_from crc_bits
check_value = refl

abbrev staged : List (List Op)
staged = (put (1 ∷ 2 ∷ []) (7 ∷ 8 ∷ 9 ∷ []) ∷ []) ∷ (delete (1 ∷ []) ∷ put (4 ∷ []) [] ∷ []) ∷ []

abbrev third : ℕ × List Op
third = (6, put (5 ∷ []) (6 ∷ []) ∷ [])

take-IsTorn : IsTorn third (take 11 (record_bytes third))
unfolding encode_pwal_record frame be encode_ops op_bytes op_head checksum crc_from crc_bits
take-IsTorn = record { missing = drop 11 (record_bytes third); whole = refl; lacks = omega arith }

decode_pwal_shard-stage_all_example :
    let r = stage_all staged (open_shard 1 2 []) in
    let file = r.1.file ++ take 11 (record_bytes third) in
    (map summary (decode_pwal_shard file) ≡ r.0)
    × (map (mutations_in file) (decode_pwal_shard file) ≡ map (map mutation) staged)
unfolding stage_all stage write_record start_flush encode_pwal_record frame be encode_ops op_bytes
    op_head
decode_pwal_shard-stage_all_example =
    decode_pwal_shard-stage_all 1 2 staged third (take 11 (record_bytes third))
      (
        (omega arith, omega arith, ((omega arith, omega arith), tt), omega arith),
        (
          (
            omega arith,
            omega arith,
            ((omega arith, omega arith), ((omega arith, omega arith), tt)),
            omega arith,
          ),
          tt,
        ),
      )
      (omega arith, omega arith, ((omega arith, omega arith), tt), omega arith) take-IsTorn
      (omega arith)

-- A shard that is opened over a torn record appends behind it, and then nothing of it is read.
behind_torn :
    decode_pwal_shard (stage_all staged (open_shard 1 2 (take 11 (record_bytes third)))).1.file ≡ []
unfolding stage_all stage write_record start_flush encode_pwal_record frame be encode_ops op_bytes
    op_head checksum crc_from crc_bits decode_pwal_shard decode_records decode_record decode_body
    rd_u32 rd_bytes be_uint be_uint_from
behind_torn = refl

get-commit_all_example :
    get
      (function_tree Place)
      (4 ∷ [])
      (commit_all (function_tree Place) staged (empty_store (function_tree Place) 2))
    ≡ ok (apply_batches (function_tree Place) staged (λ k. none) (4 ∷ []))
unfolding commit_all commit_async commit_unless Store.staged empty_store stage write_record
    start_flush encode_pwal_record frame be encode_ops op_bytes op_head
get-commit_all_example =
    get-commit_all (function_tree Place) 2 staged (4 ∷ [])
      (omega arith, omega arith, (omega arith, omega arith, tt))

-- A store of two shards takes one batch and is opened again. The next batches get the numbers 3 and 2,
-- so that after another opening the first of them wins over the second.
abbrev files : Store (Bytes → Option Place) → List Bytes
files s = (s.shards 0).file ∷ (s.shards 1).file ∷ []

abbrev set_key : ℕ → List Op
set_key v = put (1 ∷ []) (v ∷ []) ∷ []

abbrev first_life : Store (Bytes → Option Place)
first_life =
    commit_all (function_tree Place) (set_key 10 ∷ []) (empty_store (function_tree Place) 2)

abbrev second_life : Store (Bytes → Option Place)
second_life =
    commit_all (function_tree Place) (set_key 20 ∷ set_key 30 ∷ [])
      (open_pwal_store (function_tree Place) (files first_life) 2)

abbrev third_life : Store (Bytes → Option Place)
third_life = open_pwal_store (function_tree Place) (files second_life) 2

lost_update :
    (get (function_tree Place) (1 ∷ []) second_life ≡ ok (some (30 ∷ [])))
    × (get (function_tree Place) (1 ∷ []) third_life ≡ ok (some (20 ∷ [])))
unfolding get get_found read_value read_at commit_all commit_async commit_unless Store.staged
    empty_store index_ops loc_from stage locate int64_of_int32 value_place write_record start_flush
    encode_pwal_record frame be encode_ops op_bytes op_head checksum crc_from crc_bits
    decode_pwal_shard decode_records decode_record decode_body decode_ops decode_op rd_entry
    rd_value rd_byte rd_u32 rd_bytes be_uint be_uint_from open_pwal_store replay replay_entries
    sort_records insert_record reopened_shard local_after bytes_eq
lost_update = (refl, refl)

commit_results-count_from_example :
    commit_results (function_tree Place) staged (empty_store (function_tree Place) 2)
    ≡ count_from 1 (length staged)
commit_results-count_from_example =
    commit_results-count_from (function_tree Place) 2 staged (omega arith) (omega arith)
