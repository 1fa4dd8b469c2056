-- ===== src/Pwal/Shard/Values.antt =====
-- The values of a file are found at the offsets that its entries name.
use yasdb.Prelude.{
  ℕ, ◌+◌, ◌≡◌, refl, ap, ap₂, sym, ◌∙◌, Bool, true, false, Option, none, some, List, [], ◌∷◌, ◌++◌,
  if◌then◌else◌, length, take, drop, length-append, append_assoc, map, arith,
}
use yasdb.Prelude.Bytes.{Bytes}
use yasdb.Storage.{Op}
use yasdb.Wire.{be}
use yasdb.Wire.Laws.{length-be}
use yasdb.Pwal.{checksum, op_head, op_bytes, encode_ops, frame, encode_pwal_record}
use yasdb.Pwal.Decode.{Entry, Record}
use yasdb.Pwal.RoundTrip.{entry_at, entries_at, length-op_head, take_at, drop_at}
use yasdb.Pwal.Shard.File.{Commit, record_bytes, file_of, record_at, records_at}

-- What an op does to its key, and what an entry says, with the value read from the file.
abbrev pub Mutation : Type 0
Mutation = Bytes × Option Bytes

abbrev pub mutation : Op → Mutation
mutation op = (op.key, if op.del then none else some op.val)

abbrev pub mutation_in : Bytes → Entry → Mutation
mutation_in file e = (e.key, if e.del then none else some (take e.n (drop e.file_off file)))

abbrev pub mutations_in : Bytes → Record → List Mutation
mutations_in file r = map (mutation_in file) r.entries

read_at :
    (off : ℕ) (a val c : Bytes)
    → length a ≡ off
    → take (length val) (drop off (a ++ (val ++ c))) ≡ val
read_at off a val c h =
    ap (λ (b : Bytes). take (length val) b) (drop_at off a (val ++ c) h)
    ∙ take_at (length val) val c refl

-- The parts of a file around a value.
pub around_value :
    (pre head len val suf : Bytes)
    → pre ++ ((head ++ (len ++ val)) ++ suf) ≡ (pre ++ (head ++ len)) ++ (val ++ suf)
around_value pre head len val suf = simp append_assoc

stored_value :
    (pre head key val suf : Bytes) (del : Bool)
    → length head ≡ 5 + length key
    → mutation_in (pre ++ ((head ++ (if del then [] else be 4 (length val) ++ val)) ++ suf)) (
        if del then record { key = key; del = true; file_off = 0; n = 0 } else record {
          key = key;
          del = false;
          file_off = length pre + 9 + length key;
          n = length val;
        })
      ≡ (key, if del then none else some val)
stored_value pre head key val suf true h = refl
stored_value pre head key val suf false h =
    let len = be 4 (length val) in
    ap (λ (v : Bytes). (key, some v))
      (ap (λ (b : Bytes). take (length val) (drop (length pre + 9 + length key) b))
          (around_value pre head len val suf)
        ∙ read_at (length pre + 9 + length key) (pre ++ (head ++ len)) val suf (
            omega (
              arith,
              length-append {0} pre (head ++ len),
              length-append {0} head len,
              length-be 4 (length val),
            )))

mutation_in-entry_at :
    (pre : Bytes) (op : Op) (suf : Bytes)
    → mutation_in (pre ++ (op_bytes op ++ suf)) (entry_at (length pre) op) ≡ mutation op
unfolding op_bytes
mutation_in-entry_at pre op suf =
    stored_value pre (op_head op) op.key op.val suf op.del (length-op_head op)

-- The ops of a record, which start behind `pre`.
mutations_in-entries_at :
    (at pos : ℕ) (pre : Bytes) (ops : List Op) (suf : Bytes)
    → length pre ≡ pos
    → map (mutation_in (pre ++ ((encode_ops at ops).0 ++ suf))) (entries_at pos ops)
      ≡ map mutation ops
unfolding encode_ops
mutations_in-entries_at at pos pre [] suf h = refl
mutations_in-entries_at at pos pre (op ∷ ops) suf h =
    let next = at + length (op_bytes op) in
    let rest = (encode_ops next ops).0 in
    let here : pre ++ ((op_bytes op ++ rest) ++ suf) ≡ pre ++ (op_bytes op ++ (rest ++ suf)) =
      ap (λ b. pre ++ b) (append_assoc (op_bytes op) rest suf) in
    let later : pre ++ ((op_bytes op ++ rest) ++ suf) ≡ (pre ++ op_bytes op) ++ (rest ++ suf) =
      here ∙ sym (append_assoc pre (op_bytes op) (rest ++ suf)) in
    ap₂ (λ (m : Mutation) (ms : List Mutation). m ∷ ms)
      (ap (λ file. mutation_in file (entry_at pos op)) here
        ∙ ap (λ n. mutation_in (pre ++ (op_bytes op ++ (rest ++ suf))) (entry_at n op)) (sym h)
        ∙ mutation_in-entry_at pre op (rest ++ suf))
      (ap (λ file. map (mutation_in file) (entries_at (pos + length (op_bytes op)) ops)) later
        ∙ mutations_in-entries_at next (pos + length (op_bytes op)) (pre ++ op_bytes op) ops suf
            (omega (arith, h, length-append {0} pre (op_bytes op))))

mutations_in-record_at :
    (pos : ℕ) (pre : Bytes) (c : Commit) (suf : Bytes)
    → length pre ≡ pos
    → mutations_in (pre ++ (record_bytes c ++ suf)) (record_at pos c) ≡ map mutation c.1
unfolding encode_pwal_record frame
mutations_in-record_at pos pre (seq, ops) suf h =
    let body = (encode_ops 20 ops).0 in
    let count = be 4 (length ops) in
    let crc = be 4 (checksum (count ++ body)) in
    let size = be 4 (12 + length (count ++ body)) in
    let front = size ++ (be 8 seq ++ (crc ++ count)) in
    let split : pre ++ ((size ++ (be 8 seq ++ (crc ++ (count ++ body)))) ++ suf)
        ≡ (pre ++ front) ++ (body ++ suf) =
      simp append_assoc in
    ap (λ file. map (mutation_in file) (entries_at (pos + 20) ops)) split
    ∙ mutations_in-entries_at 20 (pos + 20) (pre ++ front) ops suf (
        omega (
          arith,
          h,
          length-append {0} pre front,
          length-append {0} size (be 8 seq ++ (crc ++ count)),
          length-append {0} (be 8 seq) (crc ++ count),
          length-append {0} crc count,
          length-be 8 seq,
          length-be 4 (length ops),
          length-be 4 (checksum (count ++ body)),
          length-be 4 (12 + length (count ++ body)),
        ))

abbrev pub commit_mutations : Commit → List Mutation
commit_mutations c = map mutation c.1

pub mutations_in-records_at :
    (pos : ℕ) (pre : Bytes) (cs : List Commit) (suf : Bytes)
    → length pre ≡ pos
    → map (mutations_in (pre ++ (file_of cs ++ suf))) (records_at pos cs) ≡ map commit_mutations cs
mutations_in-records_at pos pre [] suf h = refl
mutations_in-records_at pos pre (c ∷ cs) suf h =
    let here : pre ++ ((record_bytes c ++ file_of cs) ++ suf)
        ≡ pre ++ (record_bytes c ++ (file_of cs ++ suf)) =
      ap (λ b. pre ++ b) (append_assoc (record_bytes c) (file_of cs) suf) in
    let later : pre ++ ((record_bytes c ++ file_of cs) ++ suf)
        ≡ (pre ++ record_bytes c) ++ (file_of cs ++ suf) =
      here ∙ sym (append_assoc pre (record_bytes c) (file_of cs ++ suf)) in
    ap₂ (λ (m : List Mutation) (ms : List (List Mutation)). m ∷ ms)
      (ap (λ file. mutations_in file (record_at pos c)) here
        ∙ mutations_in-record_at pos pre c (file_of cs ++ suf) h)
      (ap (λ file. map (mutations_in file) (records_at (pos + length (record_bytes c)) cs)) later
        ∙ mutations_in-records_at (pos + length (record_bytes c)) (pre ++ record_bytes c) cs suf
            (omega (arith, h, length-append {0} pre (record_bytes c))))
