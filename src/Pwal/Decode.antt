-- ===== src/Pwal/Decode.antt =====
-- `decodePWALShard` of internal/ds/pwalstore.go. A reader takes what is left of the payload, from
-- `cur` on, with the place of that byte in the file; `none` is a break.
use yasdb.Prelude.{
  ℕ, zero, suc, ◌+◌, ◌%◌, ◌^◌, Bool, true, false, not, Option, none, some, List, [], ◌∷◌, ltb, ◌==◌,
  if◌then◌else◌, length, take, drop,
}
use yasdb.Prelude.Bytes.{Bytes}
use yasdb.Wire.{be_uint}
use yasdb.Pwal.{checksum}

-- `pwalRecEntry` and `pwalRecord`.
pub record Entry : Type 0 where
  pub key : Bytes
  pub del : Bool
  pub file_off : ℕ
  pub n : ℕ

pub record Record : Type 0 where
  pub seq : ℕ
  pub entries : List Entry

-- What follows a check that breaks.
infixl 5 ◌>>=◌
abbrev pub ◌>>=◌ {ℓ κ} : {A : Type ℓ} {B : Type κ} → Option A → (A → Option B) → Option B
m >>= next = elim m [ none ↦ none | some value ↦ next value ]

unfoldable pub rd_byte : Bytes → Option (ℕ × Bytes)
rd_byte [] = none
rd_byte (c ∷ cs) = some (c, cs)

unfoldable pub rd_bytes : ℕ → Bytes → Option (Bytes × Bytes)
rd_bytes n b = if ltb (length b) n then none else some (take n b, drop n b)

unfoldable pub rd_u32 : Bytes → Option (ℕ × Bytes)
rd_u32 b = if ltb (length b) 4 then none else some (be_uint (take 4 b), drop 4 b)

-- The value of an op that is not a delete, and the place behind it.
unfoldable pub rd_value : Bytes → ℕ → Bytes → Option (Entry × ℕ × Bytes)
rd_value key pos b = do
  (val_len, b1) ← rd_u32 b
  (val, b2) ← rd_bytes val_len b1
  some (
    record { key = key; del = false; file_off = pos + 4; n = val_len % 2 ^ 32 },
    pos + 4 + val_len,
    b2,
  )

unfoldable pub rd_entry : ℕ → Bytes → ℕ → Bytes → Option (Entry × ℕ × Bytes)
rd_entry flag key pos b =
    if flag == 1
    then some (record { key = key; del = true; file_off = 0; n = 0 }, pos, b)
    else rd_value key pos b

unfoldable pub decode_op : ℕ → Bytes → Option (Entry × ℕ × Bytes)
decode_op pos b = do
  (flag, b1) ← rd_byte b
  (key_len, b2) ← rd_u32 b1
  (key, b3) ← rd_bytes key_len b2
  rd_entry flag key (pos + 5 + key_len) b3

-- `opLoop`.
unfoldable pub decode_ops : ℕ → ℕ → Bytes → Option (List Entry)
decode_ops zero pos b = some []
decode_ops (suc count) pos b = do
  (e, next, b1) ← decode_op pos b
  es ← decode_ops count next b1
  some (e ∷ es)

-- A record's body, `buf`, which starts at a place of the file.
unfoldable pub decode_body : ℕ → Bytes → Option Record
decode_body start buf =
    let payload = drop 12 buf in
    if ltb (length buf) 12
    then none
    else (if not (checksum payload == be_uint (take 4 (drop 8 buf))) then none else do
      (op_count, rest) ← rd_u32 payload
      entries ← decode_ops op_count (start + 12 + 4) rest
      some (record { seq = be_uint (take 8 buf); entries = entries }))

-- A record at a place of the file: it, the place behind it, and the bytes from there on.
unfoldable pub decode_record : ℕ → Bytes → Option (Record × ℕ × Bytes)
decode_record pos b = do
  (n, b1) ← rd_u32 b
  (buf, b2) ← rd_bytes n b1
  r ← decode_body (pos + 4) buf
  some (r, pos + 4 + n, b2)

-- The loop, which reads at least one byte in each round.
unfoldable pub decode_records : ℕ → ℕ → Bytes → List Record
decode_records zero pos b = []
decode_records (suc fuel) pos b = elim (decode_record pos b) [
  | none ↦ []
  | some found ↦ found.0 ∷ decode_records fuel found.1 found.2
]

unfoldable pub decode_pwal_shard : Bytes → List Record
decode_pwal_shard file = decode_records (length file) 0 file
