-- ===== src/Pwal/Store/Refines.antt =====
-- The store keeps what the interface promises of `CommitAsync` and `Get`.
use yasdb.Prelude.{
  ℕ, ◌+◌, ◌%◌, ◌^◌, ◌<◌, ◌≡◌, refl, ap, sym, ◌∙◌, subst, Bool, true, false, Option, none, some,
  List, [], ◌∷◌, ◌++◌, if◌then◌else◌, if-elim, leb, ◌==◌, length, take, drop, length-append,
  append_assoc, append-nil, Bool-cases, inl, inr, ok, Err, arith,
}
use yasdb.Prelude.Bytes.{Bytes}
use yasdb.Storage.{Op, View, apply_ops}
use yasdb.Wire.{be}
use yasdb.Wire.Laws.{length-be}
use yasdb.Pwal.{checksum, encode_ops, frame, encode_pwal_record}
use yasdb.Pwal.RoundTrip.{entries_at, take_at, drop_at}
use yasdb.Pwal.Shard.{Shard, ValueLoc, locate, next_seq, stage}
use yasdb.Pwal.Shard.File.{record_bytes}
use yasdb.Pwal.Shard.Recovered.{IsAtEnd, locs_of, locate-record_bytes, stage-file, stage-IsAtEnd}
use yasdb.Pwal.Store.{
  Place, Store, read_at, no_loc, by_key, place_of, set_shard, read_value, get_found, get, staged,
  commit_unless, commit_async, empty_store, commit_all,
}
use yasdb.Pwal.Store.Btree.{Tree}
use yasdb.Pwal.Store.Located.{IsLocated, IsLocated-grown, last_for, last_location}
use yasdb.Pwal.Store.Index.{value_after, apply_ops-last_for, place_after, find-index_ops}

-- A located value is read.
read_at-IsLocated :
    (file : Bytes) (off n : ℕ) (val : Bytes)
    → IsLocated file off n val
    → read_at file off n ≡ ok val
unfolding read_at
read_at-IsLocated file off n [] l =
    let nothing : (n == 0) ≡ true = ground (arith, l.size) in rw nothing refl
read_at-IsLocated file off n (v ∷ vs) l =
    let val = v ∷ vs in
    let something : (n == 0) ≡ false = ground (arith, l.size) in
    let inside : leb (off + n) (length file) ≡ true = ground (
      arith,
      l.size,
      l.offset,
      ap (λ (b : Bytes). length b) l.whole,
      length-append {0} l.before (val ++ l.after),
      length-append {0} val l.after,
    ) in
    let slice : take n (drop off file) ≡ val =
      ap (λ (b : Bytes). take n (drop off b)) l.whole
      ∙ ap (λ (b : Bytes). take n b) (drop_at off l.before (val ++ l.after) l.offset)
      ∙ take_at n val l.after l.size in
    rw (something, inside, slice) refl

-- A record in two parts, of which the second is its ops.
abbrev front : ℕ → List Op → Bytes
front seq ops =
    let payload = be 4 (length ops) ++ (encode_ops 20 ops).0 in
    be 4 (12 + length payload) ++ (be 8 seq ++ (be 4 (checksum payload) ++ be 4 (length ops)))

record_bytes-front :
    (file : Bytes) (seq : ℕ) (ops : List Op)
    → file ++ record_bytes (seq, ops) ≡ (file ++ front seq ops) ++ ((encode_ops 20 ops).0 ++ [])
unfolding encode_pwal_record frame
record_bytes-front file seq ops = simp (append_assoc, append-nil)

length-front : (seq : ℕ) (ops : List Op) → length (front seq ops) ≡ 20
length-front seq ops =
    let payload = be 4 (length ops) ++ (encode_ops 20 ops).0 in
    let crc = be 4 (checksum payload) in
    let count = be 4 (length ops) in
    let size = be 4 (12 + length payload) in
    omega (
      arith,
      length-append {0} size (be 8 seq ++ (crc ++ count)),
      length-append {0} (be 8 seq) (crc ++ count),
      length-append {0} crc count,
      length-be 8 seq,
      length-be 4 (length ops),
      length-be 4 (checksum payload),
      length-be 4 (12 + length payload),
    )

-- In the file that a stage leaves, the last value of a batch for a key is where `byKey` says.
staged_location :
    (k : Bytes) (ops : List Op) (sh : Shard) (op : Op)
    → IsAtEnd sh
    → length (record_bytes (next_seq sh, ops)) < 2 ^ 31
    → length sh.file + 2 ^ 31 < 2 ^ 63
    → last_for k ops ≡ some op
    → op.del ≡ false
    → let r = stage none ops sh in let l = by_key r.1 k in IsLocated r.2.file l.file_off l.n op.val
unfolding stage
staged_location k ops sh op at_end small within last keep =
    let seq = next_seq sh in
    let pos = length sh.file + 20 in
    let locs : locate sh.write_offset ops (encode_pwal_record seq ops).1
        ≡ locs_of (entries_at pos ops) =
      ap (λ w. locate w ops (encode_pwal_record seq ops).1) at_end
      ∙ locate-record_bytes (length sh.file) seq ops small within in
    let whole : (stage none ops sh).2.file
        ≡ (sh.file ++ front seq ops) ++ ((encode_ops 20 ops).0 ++ []) =
      stage-file ops sh ∙ record_bytes-front sh.file seq ops in
    subst
      (λ (ls : List ValueLoc).
        IsLocated (stage none ops sh).2.file (by_key ls k).file_off (by_key ls k).n op.val)
      (sym locs)
      (subst
        (λ (b : Bytes).
          IsLocated b (by_key (locs_of (entries_at pos ops)) k).file_off
            (by_key (locs_of (entries_at pos ops)) k).n op.val)
        (sym whole)
        (last_location k 20 pos (sh.file ++ front seq ops) ops [] no_loc op last keep
          (omega (arith, length-append {0} sh.file (front seq ops), length-front seq ops))))

set_shard-file :
    (i : ℕ) (sh : Shard) (shards : ℕ → Shard) (rec : Bytes) (j : ℕ)
    → sh.file ≡ (shards i).file ++ rec
    → (more : Bytes) × ((set_shard i sh shards j).file ≡ (shards j).file ++ more)
set_shard-file i sh shards rec j e = elim (Bool-cases (j == i)) [
  | inl same ↦
      let eq : i ≡ j = ground (arith, same) in
      (
        rec,
        ap (λ b. (if b then sh else shards j).file) same ∙ e ∙ ap (λ m. (shards m).file ++ rec) eq,
      )
  | inr other ↦
      ([], ap (λ b. (if b then sh else shards j).file) other ∙ sym (append-nil (shards j).file))
]

set_shard_self : (i : ℕ) (sh : Shard) (shards : ℕ → Shard) → set_shard i sh shards i ≡ sh
set_shard_self i sh shards = let same : (i == i) ≡ true = ground arith in rw same refl

set_shard-IsAtEnd :
    (i : ℕ) (sh : Shard) (shards : ℕ → Shard)
    → IsAtEnd sh
    → ((j : ℕ) → IsAtEnd (shards j))
    → (j : ℕ) → IsAtEnd (set_shard i sh shards j)
set_shard-IsAtEnd i sh shards h hs j =
    if-elim IsAtEnd (j == i) sh (shards j) (λ same. h) (λ other. hs j)

module _ (M : Tree Place) where
  -- The index and the files say what the view says of a key.
  abbrev Holds : (ℕ → Shard) → Option Place → Option Bytes → Type 0
  Holds shards none value = value ≡ none
  Holds shards (some p) value =
      (val : Bytes) × (value ≡ some val) × IsLocated (shards p.shard_idx).file p.file_off p.n val

  abbrev pub IsStoreOf : View → Store M.T → Type 0
  IsStoreOf view s =
      (s.failure ≡ none)
      × ((i : ℕ) → IsAtEnd (s.shards i))
      × ((k : Bytes) → Holds s.shards (M.find k s.tree) (view k))

  get_found-Holds :
      (s : Store M.T) (p : Option Place) (value : Option Bytes)
      → Holds s.shards p value
      → get_found M s p ≡ ok value
  unfolding get_found read_value
  get_found-Holds s none value h = ap ok (sym h)
  get_found-Holds s (some p) value (val, is, l) =
      rw (get_found, read_at-IsLocated (s.shards p.shard_idx).file p.file_off p.n val l)
        (ap ok (sym is))

  pub get-IsStoreOf :
      (view : View) (s : Store M.T) (k : Bytes) → IsStoreOf view s → get M k s ≡ ok (view k)
  unfolding get
  get-IsStoreOf view s k (f, e, h) = get_found-Holds s (M.find k s.tree) (view k) (h k)

  Holds-set_shard :
      (i : ℕ) (sh : Shard) (shards : ℕ → Shard) (rec : Bytes) (p : Option Place)
      (value : Option Bytes)
      → sh.file ≡ (shards i).file ++ rec
      → Holds shards p value
      → Holds (set_shard i sh shards) p value
  Holds-set_shard i sh shards rec none value e h = h
  Holds-set_shard i sh shards rec (some p) value e (val, is, l) =
      let (more, grown) = set_shard-file i sh shards rec p.shard_idx e in
      (
        val,
        is,
        subst (λ (b : Bytes). IsLocated b p.file_off p.n val) (sym grown)
            (IsLocated-grown (shards p.shard_idx).file more p.file_off p.n val l),
      )

  -- A key after the batch, by its last op.
  Holds-after :
      (k : Bytes) (i : ℕ) (ops : List Op) (shards : ℕ → Shard) (old : Option Place)
      (value : Option Bytes) (last : Option Op)
      → IsAtEnd (shards i)
      → length (record_bytes (next_seq (shards i), ops)) < 2 ^ 31
      → length (shards i).file + 2 ^ 31 < 2 ^ 63
      → last_for k ops ≡ last
      → Holds shards old value
      → let r = stage none ops (shards i) in
        Holds
          (set_shard i r.2 shards)
          (place_after M (place_of i (by_key r.1 k)) last old)
          (value_after last value)
  Holds-after k i ops shards old value none e small within is h =
      Holds-set_shard i (stage none ops (shards i)).2 shards
        (record_bytes (next_seq (shards i), ops)) old value (stage-file ops (shards i)) h
  Holds-after k i ops shards old value (some op) e small within is h =
      let r = stage none ops (shards i) in
      let p = place_of i (by_key r.1 k) in
      let Outcome = λ (del : Bool).
        Holds (set_shard i r.2 shards) (if del then none else some p)
          (if del then none else some op.val) in
      elim (Bool-cases op.del) [
        | inl del ↦ subst Outcome (sym del) refl
        | inr keep ↦ subst Outcome (sym keep) (
          op.val,
          refl,
          subst (λ (sh : Shard). IsLocated sh.file p.file_off p.n op.val)
              (sym (set_shard_self i r.2 shards))
              (staged_location k ops (shards i) op e small within is keep),
        )
      ]

  staged-IsStoreOf :
      (view : View) (i : ℕ) (ops : List Op) (s : Store M.T)
      → length (record_bytes (next_seq (s.shards i), ops)) < 2 ^ 31
      → length (s.shards i).file + 2 ^ 31 < 2 ^ 63
      → IsStoreOf view s
      → IsStoreOf (apply_ops ops view) (staged M none i ops s).1
  unfolding staged
  staged-IsStoreOf view i ops s small within (f, e, h) =
      let r = stage none ops (s.shards i) in
      (
        f,
        set_shard-IsAtEnd i r.2 s.shards (stage-IsAtEnd ops (s.shards i) (e i)) e,
        λ k.
            subst (λ p. Holds (set_shard i r.2 s.shards) p (apply_ops ops view k))
              (sym (find-index_ops M k i (by_key r.1) ops s.tree))
              (subst
                (λ v.
                  Holds (set_shard i r.2 s.shards)
                    (place_after M (place_of i (by_key r.1 k)) (last_for k ops) (M.find k s.tree))
                    v)
                (sym (apply_ops-last_for k ops view))
                (Holds-after k i ops s.shards (M.find k s.tree) (view k) (last_for k ops) (e i)
                  small within refl (h k))),
      )

  commit_unless-IsStoreOf :
      (view : View) (failure : Option Err) (ops : List Op) (s : Store M.T)
      → failure ≡ none
      → let sh = s.shards (s.next_shard % s.shard_count) in
        length (record_bytes (next_seq sh, ops)) < 2 ^ 31
        → length sh.file + 2 ^ 31 < 2 ^ 63
        → IsStoreOf view s
        → IsStoreOf (apply_ops ops view) (commit_unless M failure none ops s).1
  unfolding commit_unless
  commit_unless-IsStoreOf view none ops s e small within h =
      staged-IsStoreOf view (s.next_shard % s.shard_count) ops s small within h
  commit_unless-IsStoreOf view (some failed) ops s e small within h = cc

  -- The records and the files of a run stay within their 31 and 63 bits.
  abbrev pub RunFits : List (List Op) → Store M.T → Type 0
  RunFits [] s = Unit
  RunFits (ops ∷ opss) s =
      let sh = s.shards (s.next_shard % s.shard_count) in
      (length (record_bytes (next_seq sh, ops)) < 2 ^ 31)
      × (length sh.file + 2 ^ 31 < 2 ^ 63)
      × RunFits opss (commit_async M none ops s).1

  abbrev pub apply_batches : List (List Op) → View → View
  apply_batches [] view = view
  apply_batches (ops ∷ opss) view = apply_batches opss (apply_ops ops view)

  commit_all-IsStoreOf :
      (opss : List (List Op)) (view : View) (s : Store M.T)
      → RunFits opss s
      → IsStoreOf view s
      → IsStoreOf (apply_batches opss view) (commit_all M opss s)
  unfolding commit_all commit_async
  commit_all-IsStoreOf [] view s fits h = h
  commit_all-IsStoreOf (ops ∷ opss) view s (small, within, fits) h =
      commit_all-IsStoreOf opss (apply_ops ops view) (commit_async M none ops s).1 fits
        (commit_unless-IsStoreOf view s.failure ops s h.0 small within h)

  empty_store-IsStoreOf : (count : ℕ) → IsStoreOf (λ k. none) (empty_store M count)
  unfolding empty_store
  empty_store-IsStoreOf count = (refl, λ i. refl, λ k. rw (M.find-empty k) refl)

  -- A store that was opened on an empty directory with any number of shards, and then took any batches
  -- without a failed write, gives for every key what applying the batches in order says: the value of
  -- the last op for the key, or nothing after a delete. The value is read back from whichever shard
  -- file holds it. Records stay below 2 ^ 31 bytes and files below 2 ^ 63.
  pub get-commit_all :
      (count : ℕ) (opss : List (List Op)) (k : Bytes)
      → RunFits opss (empty_store M count)
      → get M k (commit_all M opss (empty_store M count)) ≡ ok (apply_batches opss (λ k. none) k)
  get-commit_all count opss k fits =
      get-IsStoreOf (apply_batches opss (λ k. none)) (commit_all M opss (empty_store M count)) k (
        commit_all-IsStoreOf opss (λ k. none) (empty_store M count) fits
          (empty_store-IsStoreOf count))
