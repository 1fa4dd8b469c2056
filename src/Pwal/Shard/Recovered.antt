-- ===== src/Pwal/Shard/Recovered.antt =====
-- A shard that is opened again finds what was staged: the numbers and locations that `stage` returned,
-- and at these locations the values.
use yasdb.Prelude.{
  ℕ, ◌+◌, ◌%◌, ◌^◌, ◌<◌, ◌≡◌, refl, ap, ap₂, sym, ◌∙◌, Bool, true, false, none, List, [], ◌∷◌, ◌++◌,
  ltb, length, length-append, append_assoc, ◌⊎◌, inl, inr, Bool-cases, if-elim, if◌then◌else◌,
  append-nil, All, map, arith,
}
use yasdb.Prelude.Bytes.{Bytes}
use yasdb.Storage.{Op}
use yasdb.Wire.{be}
use yasdb.Wire.Laws.{length-be}
use yasdb.Pwal.{op_head, op_bytes, value_place, encode_ops, encode_pwal_record}
use yasdb.Pwal.Decode.{Entry, Record, decode_pwal_shard}
use yasdb.Pwal.RoundTrip.{entries_at, length-op_head, length-op_bytes}
use yasdb.Pwal.Shard.{
  Shard, ValueLoc, open_shard, int64_of_int32, locate, next_seq, write_record, start_flush, stage,
  stage_all,
}
use yasdb.Pwal.Shard.File.{
  Commit, CommitFits, IsTorn, record_bytes, file_of, records_at, decode_pwal_shard-file_of,
  length-frame,
}
use yasdb.Pwal.Shard.Values.{mutation, mutations_in, commit_mutations, mutations_in-records_at}

-- The locations that entries name.
abbrev pub locs_of : List Entry → List ValueLoc
locs_of [] = []
locs_of (e ∷ es) =
    let rest = locs_of es in
    if e.del then rest else record { key = e.key; file_off = e.file_off; n = e.n } ∷ rest

abbrev pub summary : Record → ℕ × List ValueLoc
summary r = (r.seq, locs_of r.entries)

-- What the stages of a run write, from a shard on.
abbrev pub commits_of : List (List Op) → Shard → List Commit
commits_of [] sh = []
commits_of (ops ∷ rest) sh = (next_seq sh, ops) ∷ commits_of rest (stage none ops sh).2

locate_one :
    (base at head : ℕ) (key val : Bytes) (del : Bool) (rest more : List ValueLoc)
    → head ≡ 5 + length key
    → rest ≡ more
    → at + head + 4 + length val < 2 ^ 31 ⊎ (del ≡ true)
    → base + 2 ^ 31 < 2 ^ 63
    → (let place : ℕ × ℕ =
          if◌then◌else◌ {A = ℕ × ℕ} del (0, 0) ((at + head + 4) % 2 ^ 32, length val % 2 ^ 32) in
        if del
        then rest
        else record { key = key; file_off = (base + int64_of_int32 place.0) % 2 ^ 64; n = place.1 }
          ∷ rest)
      ≡ (let e : Entry =
            if del then record { key = key; del = true; file_off = 0; n = 0 } else record {
              key = key;
              del = false;
              file_off = base + at + 9 + length key;
              n = length val;
            } in
          if e.del then more else record { key = e.key; file_off = e.file_off; n = e.n } ∷ more)
unfolding int64_of_int32
locate_one base at head key val true rest more h e (inl small) big = e
locate_one base at head key val true rest more h e (inr del) big = e
locate_one base at head key val false rest more h e (inr del) big = cc
locate_one base at head key val false rest more h e (inl small) big =
    let low : (at + head + 4) % 2 ^ 32 ≡ at + 9 + length key = omega arith in
    let sign : ltb (at + 9 + length key) (2 ^ 31) ≡ true = ground arith in
    let off : (base + (at + 9 + length key)) % 2 ^ 64 ≡ base + at + 9 + length key = omega arith in
    let size : length val % 2 ^ 32 ≡ length val = omega arith in rw (low, sign, off, size, e) refl

length-op_bytes_kept :
    (op : Op) → op.del ≡ false → length (op_bytes op) ≡ 9 + length op.key + length op.val
length-op_bytes_kept op keep = omega (
  arith,
  length-op_bytes op,
  ap (λ del. length (if del then [] else be 4 (length op.val) ++ op.val)) keep,
  length-append {0} (be 4 (length op.val)) op.val,
  length-be 4 (length op.val),
)

op_within :
    (at more : ℕ) (op : Op)
    → at + (length (op_bytes op) + more) < 2 ^ 31
    → at + length (op_head op) + 4 + length op.val < 2 ^ 31 ⊎ (op.del ≡ true)
op_within at more op small = elim (Bool-cases op.del) [
  | inl del ↦ inr del
  | inr keep ↦ inl (omega (arith, small, length-op_head op, length-op_bytes_kept op keep))
]

locate-entries_at :
    (base at : ℕ) (ops : List Op)
    → at + length (encode_ops at ops).0 < 2 ^ 31
    → base + 2 ^ 31 < 2 ^ 63
    → locate base ops (encode_ops at ops).1 ≡ locs_of (entries_at (base + at) ops)
unfolding locate encode_ops value_place
locate-entries_at base at [] small big = refl
locate-entries_at base at (op ∷ ops) small big =
    let next = at + length (op_bytes op) in
    let size = length-append {0} (op_bytes op) (encode_ops next ops).0 in
    let place : base + next ≡ base + at + length (op_bytes op) = omega arith in
    locate_one base at (length (op_head op)) op.key op.val op.del _ _ (length-op_head op)
      (locate-entries_at base next ops (omega (arith, small, size)) big
        ∙ ap (λ n. locs_of (entries_at n ops)) place)
      (op_within at (length (encode_ops next ops).0) op (omega (arith, small, size))) big

-- A shard whose offset is the length of its file.
abbrev pub IsAtEnd : Shard → Type 0
IsAtEnd sh = sh.write_offset ≡ length sh.file

start_flush-file : (sh : Shard) → (start_flush sh).file ≡ sh.file
unfolding start_flush
start_flush-file sh =
    if-elim (λ (r : Shard). r.file ≡ sh.file) sh.in_flight _ _ (λ yes. refl) (λ no. refl)

start_flush-IsAtEnd : (sh : Shard) → IsAtEnd sh → IsAtEnd (start_flush sh)
unfolding start_flush
start_flush-IsAtEnd sh h = if-elim IsAtEnd sh.in_flight _ _ (λ yes. h) (λ no. h)

pub stage-file :
    (ops : List Op) (sh : Shard)
    → (stage none ops sh).2.file ≡ sh.file ++ record_bytes (next_seq sh, ops)
unfolding stage write_record
stage-file ops sh = start_flush-file (write_record none ops sh)

pub stage-IsAtEnd : (ops : List Op) (sh : Shard) → IsAtEnd sh → IsAtEnd (stage none ops sh).2
unfolding stage write_record
stage-IsAtEnd ops sh h =
    start_flush-IsAtEnd (write_record none ops sh)
      (omega (arith, h, length-append {0} sh.file (record_bytes (next_seq sh, ops))))

stage_all-file :
    (opss : List (List Op)) (sh : Shard)
    → (stage_all opss sh).1.file ≡ sh.file ++ file_of (commits_of opss sh)
unfolding stage_all
stage_all-file [] sh = sym (append-nil sh.file)
stage_all-file (ops ∷ opss) sh =
    let next = (stage none ops sh).2 in
    stage_all-file opss next
    ∙ ap (λ b. b ++ file_of (commits_of opss next)) (stage-file ops sh)
    ∙ append_assoc sh.file (record_bytes (next_seq sh, ops)) (file_of (commits_of opss next))

pub locate-record_bytes :
    (base : ℕ) (seq : ℕ) (ops : List Op)
    → length (record_bytes (seq, ops)) < 2 ^ 31
    → base + 2 ^ 31 < 2 ^ 63
    → locate base ops (encode_pwal_record seq ops).1 ≡ locs_of (entries_at (base + 20) ops)
unfolding encode_pwal_record
locate-record_bytes base seq ops small big =
    let body = (encode_ops 20 ops).0 in
    locate-entries_at base 20 ops
      (omega (
        arith,
        small,
        length-frame seq (be 4 (length ops) ++ body),
        length-append {0} (be 4 (length ops)) body,
        length-be 4 (length ops),
      ))
      big

-- What the stages return is what the records say.
stage_all-records_at :
    (opss : List (List Op)) (sh : Shard)
    → IsAtEnd sh
    → All CommitFits (commits_of opss sh)
    → length (stage_all opss sh).1.file + 2 ^ 31 < 2 ^ 63
    → map summary (records_at (length sh.file) (commits_of opss sh)) ≡ (stage_all opss sh).0
unfolding stage_all stage
stage_all-records_at [] sh h fits big = refl
stage_all-records_at (ops ∷ opss) sh h (fit, fits) big =
    let next = (stage none ops sh).2 in
    let seq = next_seq sh in
    let (_, _, _, small) = fit in
    let within : length sh.file + 2 ^ 31 < 2 ^ 63 = omega (
      arith,
      big,
      ap (λ (b : Bytes). length b) (stage_all-file (ops ∷ opss) sh),
      length-append {0} sh.file (file_of (commits_of (ops ∷ opss) sh)),
    ) in
    let grown : length sh.file + length (record_bytes (seq, ops)) ≡ length next.file = omega (
      arith,
      ap (λ (b : Bytes). length b) (stage-file ops sh),
      length-append {0} sh.file (record_bytes (seq, ops)),
    ) in
    ap₂ (λ (s : ℕ × List ValueLoc) (ss : List (ℕ × List ValueLoc)). s ∷ ss)
      (ap (λ (l : List ValueLoc). (seq, l))
        (sym (
          ap (λ w. locate w ops (encode_pwal_record seq ops).1) h
          ∙ locate-record_bytes (length sh.file) seq ops small within)))
      (ap (λ n. map summary (records_at n (commits_of opss next))) grown
        ∙ stage_all-records_at opss next (stage-IsAtEnd ops sh h) fits big)

commit_mutations-commits_of :
    (opss : List (List Op)) (sh : Shard)
    → map commit_mutations (commits_of opss sh) ≡ map (map mutation) opss
commit_mutations-commits_of [] sh = refl
commit_mutations-commits_of (ops ∷ opss) sh =
    ap (λ ms. map mutation ops ∷ ms) (commit_mutations-commits_of opss (stage none ops sh).2)

-- Commits staged on a new shard are recovered from its file, although a further record was torn off
-- at its end, if the numbers and lengths fit their fields and the file stays 2 ^ 31 bytes below the
-- largest offset. The recovered records have the numbers and the locations that `stage` returned, in the
-- same order; and the bytes at these locations are the values, so that every record says what its
-- ops did to their keys.
pub decode_pwal_shard-stage_all :
    (i count : ℕ) (opss : List (List Op)) (last : Commit) (torn : Bytes)
    → All CommitFits (commits_of opss (open_shard i count []))
    → CommitFits last
    → IsTorn last torn
    → length (stage_all opss (open_shard i count [])).1.file + 2 ^ 31 < 2 ^ 63
    → let r = stage_all opss (open_shard i count []) in
      let file = r.1.file ++ torn in
      (map summary (decode_pwal_shard file) ≡ r.0)
      × (map (mutations_in file) (decode_pwal_shard file) ≡ map (map mutation) opss)
decode_pwal_shard-stage_all i count opss last torn fits fl t big =
    let sh = open_shard i count [] in
    let r = stage_all opss sh in
    let cs = commits_of opss sh in
    let whole : r.1.file ++ torn ≡ file_of cs ++ torn =
      ap (λ b. b ++ torn) (stage_all-file opss sh) in
    let read : decode_pwal_shard (r.1.file ++ torn) ≡ records_at 0 cs =
      ap decode_pwal_shard whole ∙ decode_pwal_shard-file_of cs last torn fits fl t in
    (
      ap (map summary) read ∙ stage_all-records_at opss sh refl fits big,
      ap₂ (λ (file : Bytes) (rs : List Record). map (mutations_in file) rs) whole read
          ∙ mutations_in-records_at 0 [] cs torn refl
          ∙ commit_mutations-commits_of opss sh,
    )
