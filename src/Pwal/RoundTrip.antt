-- ===== src/Pwal/RoundTrip.antt =====
-- What is written to the log is read back, up to a record that was torn off.
use yasdb.Prelude.{
  ℕ, ◌+◌, ◌%◌, ◌^◌, ◌<◌, ◌≡◌, refl, ap, sym, ◌∙◌, subst, true, false, some, List, [], ◌∷◌, ◌++◌,
  ltb, ◌==◌, if◌then◌else◌, length, take, drop, length-append, take-append, drop-append,
  append_assoc, append-nil, Bool-cases, inl, inr, All, arith,
}
use yasdb.Prelude.Bytes.{Bytes}
use yasdb.Storage.{Op}
use yasdb.Wire.{be}
use yasdb.Wire.Laws.{length-be, be_uint-be}
use yasdb.Pwal.{checksum, op_head, op_bytes, encode_ops, frame}
use yasdb.Pwal.Decode.{
  Entry, rd_byte, rd_bytes, rd_u32, rd_value, rd_entry, decode_op, decode_ops, decode_body,
  decode_record,
}

-- Lengths that fit their fields.
abbrev pub OpFits : Op → Type 0
OpFits op = (length op.key < 2 ^ 32) × (length op.val < 2 ^ 32)

pub take_at : (n : ℕ) (a rest : Bytes) → length a ≡ n → take n (a ++ rest) ≡ a
take_at n a rest e = subst (λ m. take m (a ++ rest) ≡ a) e (take-append a rest)

pub drop_at : (n : ℕ) (a rest : Bytes) → length a ≡ n → drop n (a ++ rest) ≡ rest
drop_at n a rest e = subst (λ m. drop m (a ++ rest) ≡ rest) e (drop-append a rest)

rd_bytes-append : (n : ℕ) (a rest : Bytes) → length a ≡ n → rd_bytes n (a ++ rest) ≡ some (a, rest)
unfolding rd_bytes
rd_bytes-append n a rest e =
    rw (take_at n a rest e, drop_at n a rest e) (ground (arith, length-append {0} a rest))

rd_u32-be : (v : ℕ) (rest : Bytes) → v < 2 ^ 32 → rd_u32 (be 4 v ++ rest) ≡ some (v, rest)
unfolding rd_u32
rd_u32-be v rest h =
    rw
      (
        take_at 4 (be 4 v) rest (length-be 4 v),
        drop_at 4 (be 4 v) rest (length-be 4 v),
        be_uint-be 4 v h,
      )
      (ground (arith, length-append {0} (be 4 v) rest, length-be 4 v))

-- The entry that an op becomes when it stands at a place of a file.
abbrev pub entry_at : ℕ → Op → Entry
entry_at pos op =
    if op.del
    then record { key = op.key; del = true; file_off = 0; n = 0 }
    else record { key = op.key; del = false; file_off = pos + 9 + length op.key; n = length op.val }

abbrev pub entries_at : ℕ → List Op → List Entry
entries_at pos [] = []
entries_at pos (op ∷ ops) = entry_at pos op ∷ entries_at (pos + length (op_bytes op)) ops

rd_value_lem :
    (key : Bytes) (pos : ℕ) (val rest : Bytes)
    → length val < 2 ^ 32
    → rd_value key pos ((be 4 (length val) ++ val) ++ rest)
      ≡ some (
        record { key = key; del = false; file_off = pos + 4; n = length val },
        pos + 4 + length val,
        rest,
      )
unfolding rd_value
rd_value_lem key pos val rest h =
    let same : length val % 2 ^ 32 ≡ length val = omega arith in
    rw
      (
        append_assoc (be 4 (length val)) val rest,
        rd_u32-be (length val) (val ++ rest) h,
        rd_bytes-append (length val) val rest refl,
        same,
      )
      refl

decode_op_head :
    (pos flag : ℕ) (key tail : Bytes)
    → length key < 2 ^ 32
    → decode_op pos ((flag ∷ be 4 (length key) ++ key) ++ tail)
      ≡ rd_entry flag key (pos + 5 + length key) tail
unfolding decode_op rd_byte
decode_op_head pos flag key tail h =
    rw
      (
        append_assoc (be 4 (length key)) key tail,
        rd_u32-be (length key) (key ++ tail) h,
        rd_bytes-append (length key) key tail refl,
      )
      refl

pub length-op_head : (op : Op) → length (op_head op) ≡ 5 + length op.key
unfolding op_head
length-op_head op =
    omega (arith, length-append {0} (be 4 (length op.key)) op.key, length-be 4 (length op.key))

op_bytes-append :
    (op : Op) (rest : Bytes)
    → op_bytes op ++ rest
      ≡ ((if op.del then 1 else 0) ∷ be 4 (length op.key) ++ op.key)
        ++ ((if op.del then [] else be 4 (length op.val) ++ op.val) ++ rest)
unfolding op_bytes op_head
op_bytes-append op rest =
    append_assoc ((if op.del then 1 else 0) ∷ be 4 (length op.key) ++ op.key)
      (if op.del then [] else be 4 (length op.val) ++ op.val) rest

pub length-op_bytes :
    (op : Op)
    → length (op_bytes op)
      ≡ 5 + length op.key + length (if op.del then [] else be 4 (length op.val) ++ op.val)
unfolding op_bytes
length-op_bytes op = omega (
  arith,
  length-append {0} (op_head op) (if op.del then [] else be 4 (length op.val) ++ op.val),
  length-op_head op,
)

rd_entry_lem :
    (pos : ℕ) (op : Op) (rest : Bytes)
    → OpFits op
    → rd_entry
        (if op.del then 1 else 0)
        op.key
        (pos + 5 + length op.key)
        ((if op.del then [] else be 4 (length op.val) ++ op.val) ++ rest)
      ≡ some (entry_at pos op, pos + length (op_bytes op), rest)
unfolding rd_entry
rd_entry_lem pos op rest (k, v) = rw (length-op_bytes op) (elim (Bool-cases op.del) [
  | inl del ↦
      let size : pos + 5 + length op.key ≡ pos + (5 + length op.key + 0) = omega arith in
      rw (del, size) refl
  | inr keep ↦
      let off : pos + 5 + length op.key + 4 ≡ pos + 9 + length op.key = omega arith in
      let size : pos + 9 + length op.key + length op.val
          ≡ pos + (5 + length op.key + length (be 4 (length op.val) ++ op.val)) =
        omega
          (arith, length-append {0} (be 4 (length op.val)) op.val, length-be 4 (length op.val)) in
      rw (keep, rd_value_lem op.key (pos + 5 + length op.key) op.val rest v, off, size) refl
])

decode_op-op_bytes :
    (pos : ℕ) (op : Op) (rest : Bytes)
    → OpFits op
    → decode_op pos (op_bytes op ++ rest) ≡ some (entry_at pos op, pos + length (op_bytes op), rest)
decode_op-op_bytes pos op rest fits =
    ap (decode_op pos) (op_bytes-append op rest)
    ∙ decode_op_head pos _ op.key _ fits.0
    ∙ rd_entry_lem pos op rest fits

pub decode_ops-encode_ops :
    (at pos : ℕ) (ops : List Op) (rest : Bytes)
    → All OpFits ops
    → decode_ops (length ops) pos ((encode_ops at ops).0 ++ rest) ≡ some (entries_at pos ops)
unfolding decode_ops encode_ops
decode_ops-encode_ops at pos [] rest fits = refl
decode_ops-encode_ops at pos (op ∷ ops) rest (fit, fits) =
    let next = at + length (op_bytes op) in
    rw
      (
        append_assoc (op_bytes op) (encode_ops next ops).0 rest,
        decode_op-op_bytes pos op ((encode_ops next ops).0 ++ rest) fit,
        decode_ops-encode_ops next (pos + length (op_bytes op)) ops rest fits,
      )
      refl

checksum_bound : (b : Bytes) → checksum b < 2 ^ 32
unfolding checksum
checksum_bound b = omega arith

decode_body_lem :
    (start seq at : ℕ) (ops : List Op)
    → seq < 2 ^ 64
    → length ops < 2 ^ 32
    → All OpFits ops
    → let payload = be 4 (length ops) ++ (encode_ops at ops).0 in
      decode_body start (be 8 seq ++ (be 4 (checksum payload) ++ payload))
      ≡ some (record { seq = seq; entries = entries_at (start + 16) ops })
unfolding decode_body
decode_body_lem start seq at ops hs hl fits =
    let payload = be 4 (length ops) ++ (encode_ops at ops).0 in
    let crc = be 4 (checksum payload) in
    let long : ltb (length (be 8 seq ++ (crc ++ payload))) 12 ≡ false = ground (
      arith,
      length-append {0} (be 8 seq) (crc ++ payload),
      length-be 8 seq,
      length-append {0} crc payload,
      length-be 4 (checksum payload),
    ) in
    let behind : drop 12 (be 8 seq ++ (crc ++ payload)) ≡ payload =
      ap (λ (b : Bytes). drop 12 b) (sym (append_assoc (be 8 seq) crc payload))
      ∙ drop_at 12 (be 8 seq ++ crc) payload (
          omega (
            arith,
            length-append {0} (be 8 seq) crc,
            length-be 8 seq,
            length-be 4 (checksum payload),
          )) in
    let same : (checksum payload == checksum payload) ≡ true = ground arith in
    let all_read : decode_ops (length ops) (start + 16) (encode_ops at ops).0
        ≡ some (entries_at (start + 16) ops) =
      subst (λ b. decode_ops (length ops) (start + 16) b ≡ some (entries_at (start + 16) ops))
        (append-nil (encode_ops at ops).0) (decode_ops-encode_ops at (start + 16) ops [] fits) in
    let next : start + 12 + 4 ≡ start + 16 = omega arith in
    rw
      (
        long,
        behind,
        drop_at 8 (be 8 seq) (crc ++ payload) (length-be 8 seq),
        take_at 8 (be 8 seq) (crc ++ payload) (length-be 8 seq),
        take_at 4 crc payload (length-be 4 (checksum payload)),
        be_uint-be 4 (checksum payload) (checksum_bound payload),
        be_uint-be 8 seq hs,
        same,
        rd_u32-be (length ops) (encode_ops at ops).0 hl,
        next,
        all_read,
      )
      refl

pub decode_record-frame :
    (pos seq at : ℕ) (ops : List Op) (rest : Bytes)
    → seq < 2 ^ 64
    → length ops < 2 ^ 32
    → All OpFits ops
    → let payload = be 4 (length ops) ++ (encode_ops at ops).0 in
      12 + length payload < 2 ^ 32
      → decode_record pos (frame seq payload ++ rest)
        ≡ some (
          record { seq = seq; entries = entries_at (pos + 20) ops },
          pos + length (frame seq payload),
          rest,
        )
unfolding decode_record frame
decode_record-frame pos seq at ops rest hs hl fits small =
    let payload = be 4 (length ops) ++ (encode_ops at ops).0 in
    let crc = be 4 (checksum payload) in
    let buf = be 8 seq ++ (crc ++ payload) in
    let size : length buf ≡ 12 + length payload = omega (
      arith,
      length-append {0} (be 8 seq) (crc ++ payload),
      length-be 8 seq,
      length-append {0} crc payload,
      length-be 4 (checksum payload),
    ) in
    let whole : length (be 4 (12 + length payload) ++ buf) ≡ 4 + (12 + length payload) = omega (
      arith,
      length-append {0} (be 4 (12 + length payload)) buf,
      length-be 4 (12 + length payload),
      size,
    ) in
    let next : pos + 4 + 16 ≡ pos + 20 = omega arith in
    let end : pos + 4 + (12 + length payload) ≡ pos + (4 + (12 + length payload)) = omega arith in
    rw
      (
        append_assoc (be 4 (12 + length payload)) buf rest,
        rd_u32-be (12 + length payload) (buf ++ rest) small,
        rd_bytes-append (12 + length payload) buf rest size,
        decode_body_lem (pos + 4) seq at ops hs hl fits,
        whole,
        next,
        end,
      )
      refl
