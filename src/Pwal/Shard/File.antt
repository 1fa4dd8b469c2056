-- ===== src/Pwal/Shard/File.antt =====
-- A file of records, the last of them perhaps torn off, is read as the whole records.
use yasdb.Prelude.{
  ℕ, zero, suc, ◌+◌, ◌^◌, ◌≤◌, ◌<◌, ◌≡◌, refl, ap, sym, ◌∙◌, false, none, some, List, [], ◌∷◌, ◌++◌,
  ltb, length, take, drop, length-append, length-drop, append_assoc, Bool-cases, inl, inr, All,
  arith,
}
use yasdb.Prelude.Bytes.{Bytes}
use yasdb.Storage.{Op}
use yasdb.Wire.{be}
use yasdb.Wire.Laws.{length-be, be_uint-be}
use yasdb.Pwal.{checksum, encode_ops, frame, encode_pwal_record}
use yasdb.Pwal.Decode.{Record, rd_u32, rd_bytes, decode_record, decode_records, decode_pwal_shard}
use yasdb.Pwal.RoundTrip.{OpFits, entries_at, decode_record-frame, take_at}

-- A number and its ops, as they are staged.
abbrev pub Commit : Type 0
Commit = ℕ × List Op

abbrev pub record_bytes : Commit → Bytes
record_bytes c = (encode_pwal_record c.0 c.1).0

-- Numbers and lengths within their fields; the whole record is shorter than 2 ^ 31 bytes.
abbrev pub CommitFits : Commit → Type 0
CommitFits c =
    (c.0 < 2 ^ 64) × (length c.1 < 2 ^ 32) × All OpFits c.1 × (length (record_bytes c) < 2 ^ 31)

abbrev pub file_of : List Commit → Bytes
file_of [] = []
file_of (c ∷ cs) = record_bytes c ++ file_of cs

abbrev pub record_at : ℕ → Commit → Record
record_at pos c = record { seq = c.0; entries = entries_at (pos + 20) c.1 }

abbrev pub records_at : ℕ → List Commit → List Record
records_at pos [] = []
records_at pos (c ∷ cs) = record_at pos c ∷ records_at (pos + length (record_bytes c)) cs

pub length-frame : (seq : ℕ) (payload : Bytes) → length (frame seq payload) ≡ 16 + length payload
unfolding frame
length-frame seq payload =
    let crc = be 4 (checksum payload) in
    let buf = be 8 seq ++ (crc ++ payload) in
    omega (
      arith,
      length-append {0} (be 4 (12 + length payload)) buf,
      length-be 4 (12 + length payload),
      length-append {0} (be 8 seq) (crc ++ payload),
      length-be 8 seq,
      length-append {0} crc payload,
      length-be 4 (checksum payload),
    )

decode_record-record_bytes :
    (pos : ℕ) (c : Commit) (rest : Bytes)
    → CommitFits c
    → decode_record pos (record_bytes c ++ rest)
      ≡ some (record_at pos c, pos + length (record_bytes c), rest)
unfolding encode_pwal_record
decode_record-record_bytes pos (seq, ops) rest (s, l, fits, small) =
    let payload = be 4 (length ops) ++ (encode_ops 20 ops).0 in
    decode_record-frame pos seq 20 ops rest s l fits
      (omega (arith, small, length-frame seq payload))

length-record_bytes : (c : Commit) → 16 ≤ length (record_bytes c)
unfolding encode_pwal_record
length-record_bytes (seq, ops) =
    omega (arith, length-frame seq (be 4 (length ops) ++ (encode_ops 20 ops).0))

-- What is left of a record that was torn off.
pub record IsTorn (c : Commit) (torn : Bytes) : Type 0 where
  pub missing : Bytes
  pub whole : torn ++ missing ≡ record_bytes c
  pub lacks : 0 < length missing

take-front : (n : ℕ) (a b : Bytes) → n ≤ length a → take n (a ++ b) ≡ take n a
take-front zero a b h = refl
take-front (suc n) [] b h = absurd (omega arith)
take-front (suc n) (x ∷ a) b h = ap (λ r. x ∷ r) (take-front n a b (omega arith))

rd_u32-torn : (torn : Bytes) → length torn < 4 → rd_u32 torn ≡ none
unfolding rd_u32
rd_u32-torn torn h = ground arith

rd_bytes-torn : (n : ℕ) (b : Bytes) → length b < n → rd_bytes n b ≡ none
unfolding rd_bytes
rd_bytes-torn n b h = ground arith

rd_u32-front :
    (n : ℕ) (b : Bytes)
    → take 4 b ≡ be 4 n
    → n < 2 ^ 32
    → 4 ≤ length b
    → rd_u32 b ≡ some (n, drop 4 b)
unfolding rd_u32
rd_u32-front n b front small long =
    let enough : ltb (length b) 4 ≡ false = ground arith in
    rw (enough, front, be_uint-be 4 n small) refl

decode_record-torn :
    (pos n : ℕ) (buf torn missing : Bytes)
    → torn ++ missing ≡ be 4 n ++ buf
    → length buf ≡ n
    → n < 2 ^ 32
    → 0 < length missing
    → decode_record pos torn ≡ none
unfolding decode_record
decode_record-torn pos n buf torn missing whole size small lacks =
    elim (Bool-cases (ltb (length torn) 4)) [
      | inl short ↦ rw (rd_u32-torn torn (ground arith)) refl
      | inr long ↦
          let four : 4 ≤ length torn = ground arith in
          let front : take 4 torn ≡ be 4 n =
            sym (take-front 4 torn missing four)
            ∙ ap (λ (b : Bytes). take 4 b) whole
            ∙ take_at 4 (be 4 n) buf (length-be 4 n) in
          let less : length (drop 4 torn) < n = omega (
            arith,
            length-drop {0} 4 torn,
            length-append {0} torn missing,
            ap (λ (b : Bytes). length b) whole,
            length-append {0} (be 4 n) buf,
            length-be 4 n,
          ) in
          rw (rd_u32-front n torn front small four, rd_bytes-torn n (drop 4 torn) less) refl
    ]

frame_torn :
    (pos seq : ℕ) (payload torn missing : Bytes)
    → torn ++ missing ≡ frame seq payload
    → length (frame seq payload) < 2 ^ 31
    → 0 < length missing
    → decode_record pos torn ≡ none
unfolding frame
frame_torn pos seq payload torn missing whole small lacks =
    let crc = be 4 (checksum payload) in
    let buf = be 8 seq ++ (crc ++ payload) in
    let size : length buf ≡ 12 + length payload = omega (
      arith,
      length-append {0} (be 8 seq) (crc ++ payload),
      length-be 8 seq,
      length-append {0} crc payload,
      length-be 4 (checksum payload),
    ) in
    decode_record-torn pos (12 + length payload) buf torn missing whole size
      (omega (arith, small, length-append {0} (be 4 (12 + length payload)) buf, size)) lacks

decode_record-IsTorn :
    (pos : ℕ) (c : Commit) (torn : Bytes)
    → CommitFits c
    → IsTorn c torn
    → decode_record pos torn ≡ none
unfolding encode_pwal_record
decode_record-IsTorn pos (seq, ops) torn (_, _, _, small) t =
    frame_torn pos seq (be 4 (length ops) ++ (encode_ops 20 ops).0) torn t.missing t.whole small
      t.lacks

-- The whole records, and nothing of the torn one, with fuel for each byte.
decode_records-file_of :
    (fuel pos : ℕ) (cs : List Commit) (last : Commit) (torn : Bytes)
    → length (file_of cs) ≤ fuel
    → All CommitFits cs
    → CommitFits last
    → IsTorn last torn
    → decode_records fuel pos (file_of cs ++ torn) ≡ records_at pos cs
unfolding decode_records
decode_records-file_of zero pos [] last torn h fits fl t = refl
decode_records-file_of (suc fuel) pos [] last torn h fits fl t =
    rw (decode_records, decode_record-IsTorn pos last torn fl t) refl
decode_records-file_of zero pos (c ∷ cs) last torn h fits fl t =
    absurd
      (omega (arith, h, length-append {0} (record_bytes c) (file_of cs), length-record_bytes c))
decode_records-file_of (suc fuel) pos (c ∷ cs) last torn h (fit, fits) fl t =
    rw
      (
        decode_records,
        append_assoc (record_bytes c) (file_of cs) torn,
        decode_record-record_bytes pos c (file_of cs ++ torn) fit,
        decode_records-file_of fuel (pos + length (record_bytes c)) cs last torn
            (omega
              (arith, h, length-append {0} (record_bytes c) (file_of cs), length-record_bytes c))
            fits fl t,
      )
      refl

pub decode_pwal_shard-file_of :
    (cs : List Commit) (last : Commit) (torn : Bytes)
    → All CommitFits cs
    → CommitFits last
    → IsTorn last torn
    → decode_pwal_shard (file_of cs ++ torn) ≡ records_at 0 cs
unfolding decode_pwal_shard
decode_pwal_shard-file_of cs last torn fits fl t =
    decode_records-file_of (length (file_of cs ++ torn)) 0 cs last torn
      (omega (arith, length-append {0} (file_of cs) torn)) fits fl t
