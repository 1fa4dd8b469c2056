-- ===== src/Pwal/Store/Located.antt =====
-- Where a file holds a value, and that the last location of a batch for a key holds its last value.
use yasdb.Prelude.{
  ℕ, ◌+◌, ◌≡◌, refl, ap, sym, ◌∙◌, subst, Bool, true, false, Option, none, some, List, [], ◌∷◌,
  ◌++◌, if◌then◌else◌, if-elim, length, length-append, append_assoc, Bool-cases, ◌⊎◌, inl, inr,
  arith,
}
use yasdb.Prelude.Bytes.{Bytes, bytes_eq}
use yasdb.Storage.{Op}
use yasdb.Pwal.{op_bytes, op_head, encode_ops}
use yasdb.Wire.{be}
use yasdb.Wire.Laws.{length-be}
use yasdb.Pwal.Decode.{Entry}
use yasdb.Pwal.RoundTrip.{entry_at, entries_at, length-op_head}
use yasdb.Pwal.Shard.{ValueLoc}
use yasdb.Pwal.Shard.Recovered.{locs_of}
use yasdb.Pwal.Shard.Values.{around_value}
use yasdb.Pwal.Store.{loc_from}

-- A value stands in a file.
pub record IsLocated (file : Bytes) (off n : ℕ) (val : Bytes) : Type 0 where
  pub before : Bytes
  pub after : Bytes
  pub whole : file ≡ before ++ (val ++ after)
  pub offset : length before ≡ off
  pub size : length val ≡ n

-- It stays there when the file grows.
pub IsLocated-grown :
    (file more : Bytes) (off n : ℕ) (val : Bytes)
    → IsLocated file off n val
    → IsLocated (file ++ more) off n val
IsLocated-grown file more off n val l = record {
  before = l.before;
  after = l.after ++ more;
  whole =
      ap (λ b. b ++ more) l.whole
      ∙ append_assoc l.before (val ++ l.after) more
      ∙ ap (λ b. l.before ++ b) (append_assoc val l.after more);
  offset = l.offset;
  size = l.size;
}

-- The last op of a batch for a key.
abbrev pub later_or : Option Op → Option Op → Option Op
later_or (some op) earlier = some op
later_or none earlier = earlier

abbrev pub last_for : Bytes → List Op → Option Op
last_for k [] = none
last_for k (op ∷ ops) = later_or (last_for k ops) (if bytes_eq op.key k then some op else none)

later_or-none : (a b : Option Op) → later_or a b ≡ none → (a ≡ none) × (b ≡ none)
later_or-none none b h = (refl, h)
later_or-none (some op) b h = cc

-- The location of an op that is not a delete.
abbrev loc_at : ℕ → Op → ValueLoc
loc_at pos op = record { key = op.key; file_off = pos + 9 + length op.key; n = length op.val }

one_location :
    (del : Bool) (key : Bytes) (off n : ℕ) (rest : List ValueLoc)
    → (let e : Entry =
          if del
          then record { key = key; del = true; file_off = 0; n = 0 }
          else record { key = key; del = false; file_off = off; n = n } in
        if e.del then rest else record { key = e.key; file_off = e.file_off; n = e.n } ∷ rest)
      ≡ (if del then rest else record { key = key; file_off = off; n = n } ∷ rest)
one_location true key off n rest = refl
one_location false key off n rest = refl

locs_of-entry_at :
    (pos : ℕ) (op : Op) (es : List Entry)
    → locs_of (entry_at pos op ∷ es) ≡ (if op.del then locs_of es else loc_at pos op ∷ locs_of es)
locs_of-entry_at pos op es =
    one_location op.del op.key (pos + 9 + length op.key) (length op.val) (locs_of es)

-- An op for another key leaves the location that was found.
skip_op :
    (k : Bytes) (pos : ℕ) (op : Op) (es : List Entry) (found : ValueLoc)
    → bytes_eq op.key k ≡ false
    → loc_from k (locs_of (entry_at pos op ∷ es)) found ≡ loc_from k (locs_of es) found
unfolding loc_from
skip_op k pos op es found other =
    ap (λ ls. loc_from k ls found) (locs_of-entry_at pos op es)
    ∙ if-elim (λ (ls : List ValueLoc). loc_from k ls found ≡ loc_from k (locs_of es) found) op.del _
        _ (λ yes. refl)
        (λ no. ap (λ b. loc_from k (locs_of es) (if b then loc_at pos op else found)) other)

-- In any case what was found before is only a start.
some_start :
    (k : Bytes) (pos : ℕ) (op : Op) (es : List Entry) (found : ValueLoc)
    → (start : ValueLoc) × (loc_from k (locs_of (entry_at pos op ∷ es)) found
        ≡ loc_from k (locs_of es) start)
unfolding loc_from
some_start k pos op es found =
    let (start, same) : (start : ValueLoc) × (loc_from k
            (if op.del then locs_of es else loc_at pos op ∷ locs_of es) found
          ≡ loc_from k (locs_of es) start) =
      if-elim
        (λ (ls : List ValueLoc).
          (start : ValueLoc) × (loc_from k ls found ≡ loc_from k (locs_of es) start))
        op.del (locs_of es) (loc_at pos op ∷ locs_of es) (λ yes. (found, refl))
        (λ no. ((if bytes_eq op.key k then loc_at pos op else found), refl)) in
    (start, ap (λ ls. loc_from k ls found) (locs_of-entry_at pos op es) ∙ same)

take_op :
    (k : Bytes) (pos : ℕ) (op : Op) (es : List Entry) (found : ValueLoc)
    → bytes_eq op.key k ≡ true
    → op.del ≡ false
    → loc_from k (locs_of (entry_at pos op ∷ es)) found ≡ loc_from k (locs_of es) (loc_at pos op)
unfolding loc_from
take_op k pos op es found same keep =
    ap (λ ls. loc_from k ls found) (locs_of-entry_at pos op es)
    ∙ ap (λ del. loc_from k (if del then locs_of es else loc_at pos op ∷ locs_of es) found) keep
    ∙ ap (λ b. loc_from k (locs_of es) (if b then loc_at pos op else found)) same

no_key :
    (k : Bytes) (op : Op)
    → (if bytes_eq op.key k then some op else none) ≡ none
    → bytes_eq op.key k ≡ false
no_key k op h = elim (Bool-cases (bytes_eq op.key k)) [
  | inl same ↦ let e : some op ≡ none = ap (λ b. if b then some op else none) (sym same) ∙ h in cc
  | inr other ↦ other
]

this_key :
    (k : Bytes) (op o : Op)
    → (if bytes_eq op.key k then some op else none) ≡ some o
    → (bytes_eq op.key k ≡ true) × (op ≡ o)
this_key k op o h = elim (Bool-cases (bytes_eq op.key k)) [
  | inl same ↦
      let e : some op ≡ some o = ap (λ b. if b then some op else none) (sym same) ∙ h in (same, cc)
  | inr other ↦ let e : some o ≡ none = sym h ∙ ap (λ b. if b then some op else none) other in cc
]

later_or-some :
    (a b : Option Op) (o : Op) → later_or a b ≡ some o → (a ≡ some o) ⊎ ((a ≡ none) × (b ≡ some o))
later_or-some none b o h = inr (refl, h)
later_or-some (some op) b o h = inl h

-- Without an op for the key no location is for it.
no_location :
    (k : Bytes) (pos : ℕ) (ops : List Op) (found : ValueLoc)
    → last_for k ops ≡ none
    → loc_from k (locs_of (entries_at pos ops)) found ≡ found
unfolding loc_from
no_location k pos [] found h = refl
no_location k pos (op ∷ ops) found h =
    let (later, here) = later_or-none (last_for k ops) _ h in
    skip_op k pos op (entries_at (pos + length (op_bytes op)) ops) found (no_key k op here)
    ∙ no_location k (pos + length (op_bytes op)) ops found later

-- An op's own value, in a file with the op behind `pre`.
own_value :
    (pre : Bytes) (op : Op) (suf : Bytes)
    → op.del ≡ false
    → IsLocated
        (pre ++ (op_bytes op ++ suf))
        (length pre + 9 + length op.key)
        (length op.val)
        op.val
unfolding op_bytes
own_value pre op suf keep =
    let len = be 4 (length op.val) in
    record {
      before = pre ++ (op_head op ++ len);
      after = suf;
      whole =
          ap (λ del. pre ++ ((op_head op ++ (if del then [] else len ++ op.val)) ++ suf)) keep
          ∙ around_value pre (op_head op) len op.val suf;
      offset = omega (
        arith,
        length-append {0} pre (op_head op ++ len),
        length-append {0} (op_head op) len,
        length-be 4 (length op.val),
        length-op_head op,
      );
      size = refl;
    }

-- The location that a batch leaves for a key is where its last value stands.
pub last_location :
    (k : Bytes) (at pos : ℕ) (pre : Bytes) (ops : List Op) (suf : Bytes) (found : ValueLoc) (o : Op)
    → last_for k ops ≡ some o
    → o.del ≡ false
    → length pre ≡ pos
    → let l = loc_from k (locs_of (entries_at pos ops)) found in
      IsLocated (pre ++ ((encode_ops at ops).0 ++ suf)) l.file_off l.n o.val
unfolding encode_ops
last_location k at pos pre [] suf found o h keep start = cc
last_location k at pos pre (op ∷ ops) suf found o h keep start =
    let next = at + length (op_bytes op) in
    let es = entries_at (pos + length (op_bytes op)) ops in
    let rest = (encode_ops next ops).0 in
    let here : pre ++ ((op_bytes op ++ rest) ++ suf) ≡ pre ++ (op_bytes op ++ (rest ++ suf)) =
      ap (λ b. pre ++ b) (append_assoc (op_bytes op) rest suf) in
    let Found = λ (file : Bytes) (l : ValueLoc). IsLocated file l.file_off l.n o.val in
    elim (later_or-some (last_for k ops) _ o h) [
      | inl later ↦
          let (begin, same) = some_start k pos op es found in
          subst (Found (pre ++ ((op_bytes op ++ rest) ++ suf))) (sym same) (
            subst (λ file. Found file (loc_from k (locs_of es) begin))
              (sym (here ∙ sym (append_assoc pre (op_bytes op) (rest ++ suf))))
              (last_location k next (pos + length (op_bytes op)) (pre ++ op_bytes op) ops suf begin
                o later keep (omega (arith, start, length-append {0} pre (op_bytes op)))))
      | inr own ↦
          let (same, is) = this_key k op o own.1 in
          let kept : op.del ≡ false = ap (λ (p : Op). p.del) is ∙ keep in
          let loc : loc_from k (locs_of (entry_at pos op ∷ es)) found ≡ loc_at pos op =
            take_op k pos op es found same kept
            ∙ no_location k (pos + length (op_bytes op)) ops (loc_at pos op) own.0 in
          subst (Found (pre ++ ((op_bytes op ++ rest) ++ suf))) (sym loc) (
            subst
              (λ (v : Bytes).
                IsLocated (pre ++ ((op_bytes op ++ rest) ++ suf)) (pos + 9 + length op.key)
                  (length op.val) v)
              (ap (λ (p : Op). p.val) is)
              (subst (λ file. IsLocated file (pos + 9 + length op.key) (length op.val) op.val)
                (sym here)
                (subst
                  (λ n.
                    IsLocated (pre ++ (op_bytes op ++ (rest ++ suf))) (n + 9 + length op.key)
                      (length op.val) op.val)
                  start (own_value pre op (rest ++ suf) kept))))
    ]
