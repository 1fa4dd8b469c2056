-- ===== src/Pwal.antt =====
-- The partitioned log, the second implementation of the storage interface: internal/ds/pwalstore.go.
-- Here are its records as they are written; the children read them back (Decode), follow a shard
-- (Shard), and the store over its shards. A file is the list of its bytes, and an offset in it is a
-- plain number, since a file is shorter than 2 ^ 63 bytes; an `int32` is its low 32 bits.
pub mod Decode
pub mod RoundTrip
pub mod Shard
pub mod Store
mod Tests
use Prim.Native.Nat.{bit_xor}
use yasdb.Prelude.{
  ℕ, zero, suc, ◌+◌, ◌/◌, ◌%◌, ◌^◌, Bool, true, false, List, [], ◌∷◌, ◌++◌, ◌==◌, if◌then◌else◌,
  length,
}
use yasdb.Prelude.Bytes.{Bytes}
use yasdb.Storage.{Op}
use yasdb.Wire.{be}

-- `crc32.Checksum` with the Castagnoli table: one bit, a byte, a string of them.
abbrev castagnoli : ℕ
castagnoli = 2197175160

unfoldable pub crc_bits : ℕ → ℕ → ℕ
crc_bits zero c = c
crc_bits (suc n) c = crc_bits n (if c % 2 == 1 then bit_xor (c / 2) castagnoli else c / 2)

unfoldable pub crc_from : ℕ → Bytes → ℕ
crc_from c [] = c
crc_from c (b ∷ bs) = crc_from (crc_bits 8 (bit_xor c b)) bs

unfoldable pub checksum : Bytes → ℕ
checksum b = bit_xor (crc_from 4294967295 b) 4294967295 % 2 ^ 32

-- An op up to its value: `[del u8][keyLen u32][key]`.
unfoldable pub op_head : Op → Bytes
op_head op = (if op.del then 1 else 0) ∷ be 4 (length op.key) ++ op.key

unfoldable pub op_bytes : Op → Bytes
op_bytes op = op_head op ++ (if op.del then [] else be 4 (length op.val) ++ op.val)

-- `relOff[i]` and `relLen[i]`, for an op that starts at a place of the record.
unfoldable pub value_place : ℕ → Op → ℕ × ℕ
value_place pos op =
    if op.del then (0, 0) else ((pos + length (op_head op) + 4) % 2 ^ 32, length op.val % 2 ^ 32)

-- The loop over the ops, from a place of the record on.
unfoldable pub encode_ops : ℕ → List Op → Bytes × List (ℕ × ℕ)
encode_ops pos [] = ([], [])
encode_ops pos (op ∷ ops) =
    let rest = encode_ops (pos + length (op_bytes op)) ops in
    (op_bytes op ++ rest.0, value_place pos op ∷ rest.1)

abbrev pub header_len : ℕ
header_len = 4 + 8 + 4

unfoldable pub frame : ℕ → Bytes → Bytes
frame seq payload =
    be 4 (8 + 4 + length payload) ++ (be 8 seq ++ (be 4 (checksum payload) ++ payload))

-- The record, and the places of the values in it.
unfoldable pub encode_pwal_record : ℕ → List Op → Bytes × List (ℕ × ℕ)
encode_pwal_record seq ops =
    let body = encode_ops (header_len + 4) ops in (frame seq (be 4 (length ops) ++ body.0), body.1)
