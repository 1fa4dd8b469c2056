-- ===== src/Server/Read/Prefix.antt =====
-- A binary read gives a prefix of the stored bytes, as long as its limit allows.
use yasdb.Prelude.{
  ℕ, zero, suc, ◌+◌, ◌-◌, ◌≤◌, ◌<◌, ◌≡◌, ◌⊎◌, inl, inr, refl, ap, sym, subst, ◌∙◌, Bool, true,
  false, List, [], ◌∷◌, ◌++◌, ltb, leb, ◌==◌, if◌then◌else◌, length, take, drop, Result, ok, err,
  ◌>>=◌, arith, if-elim, take-drop, length-take, length-append, append_assoc, append-nil,
  Bool-cases,
}
use yasdb.Prelude.Bytes.{Bytes}
use yasdb.Meta.{record_payload}
use yasdb.Offset.{Offset}
use yasdb.Storage.{Storage}
use yasdb.Server.Expiry.{number_at}
use yasdb.Server.Fork.{Segment}
use yasdb.Server.Read.{
  Progress, take_record, binary_rows, binary_segments, binary_result, read_segments_binary,
  scan_segment,
}

-- The bytes of a record from the start of a read on.
unfoldable pub bytes_of : Offset → ℕ → Bytes → Bytes
bytes_of start rec_seq payload = drop (if rec_seq == start.seq then start.byte else 0) payload

-- The bytes of the rows before a number.
unfoldable pub rows_bytes : Offset → ℕ → List (Bytes × Bytes) → Bytes
rows_bytes start end_seq [] = []
rows_bytes start end_seq ((k, v) ∷ rows) =
    let rest = rows_bytes start end_seq rows in
    if leb end_seq (number_at 9 k)
    then []
    else bytes_of start (number_at 9 k) (record_payload v) ++ rest

-- A buffer that is a prefix of all the bytes: all of them, or as many as the limit.
pub record IsPrefix (limit : ℕ) (all buf : Bytes) : Type 0 where
  pub rest : Bytes
  pub split : all ≡ buf ++ rest
  pub within : length buf ≤ limit
  pub full : (rest ≡ []) ⊎ (length buf ≡ limit)

-- What a loop has: all the bytes before the limit is met, or a prefix at the limit, where it stops.
Reached : ℕ → Bytes → Progress → Type 0
Reached limit all q =
    ((q.stopped ≡ false) × (q.buf ≡ all) × (length q.buf ≤ limit))
    ⊎ ((rest : Bytes) × (all ≡ q.buf ++ rest) × (length q.buf ≡ limit))

-- The same of one record: where it is cut, the loop stops.
Taken : ℕ → Bytes → Progress → Type 0
Taken limit all q =
    ((q.stopped ≡ false) × (q.buf ≡ all) × (length q.buf ≤ limit))
    ⊎ ((rest : Bytes) × (q.stopped ≡ true) × (all ≡ q.buf ++ rest) × (length q.buf ≡ limit))

drop_all : (n : ℕ) (xs : Bytes) → length xs ≤ n → drop n xs ≡ drop (length xs) xs
drop_all zero [] h = refl
drop_all zero (x ∷ xs) h = absurd (omega arith)
drop_all (suc n) [] h = refl
drop_all (suc n) (x ∷ xs) h = drop_all n xs (omega arith)

drop_clamped :
    (n : ℕ) (xs : Bytes) → drop (if ltb (length xs) n then length xs else n) xs ≡ drop n xs
drop_clamped n xs =
    if-elim (λ m. drop m xs ≡ drop n xs) (ltb (length xs) n) _ _
      (λ over. sym (drop_all n xs (ground arith))) (λ fits. refl)

take_record-Taken :
    (start : Offset) (limit rec_seq : ℕ) (payload : Bytes) (p : Progress)
    → length p.buf < limit
    → Taken limit
        (p.buf ++ bytes_of start rec_seq payload)
        (take_record start limit rec_seq payload p)
unfolding take_record bytes_of Taken
take_record-Taken start limit rec_seq payload p h =
    let asked = if rec_seq == start.seq then start.byte else 0 in
    let avail = drop asked payload in
    let room = limit - length p.buf in
    rw (drop_clamped asked payload) (
      if-elim (Taken limit (p.buf ++ avail)) (leb (length avail) room) _ _
        (λ fits. inl (refl, refl, ground (arith, length-append p.buf avail)))
        (λ over. inr (
          drop room avail,
          refl,
          sym (
              append_assoc p.buf (take room avail) (drop room avail)
              ∙ ap (λ b. p.buf ++ b) (take-drop room avail)),
          length-append p.buf (take room avail)
              ∙ ap (λ n. length p.buf + n) (length-take room avail (ground arith))
              ∙ omega arith,
        )))

binary_rows-Reached :
    (start : Offset) (limit end_seq : ℕ) (rows : List (Bytes × Bytes)) (p : Progress)
    → p.stopped ≡ false
    → length p.buf ≤ limit
    → Reached limit
        (p.buf ++ rows_bytes start end_seq rows)
        (binary_rows start limit end_seq rows p)
unfolding binary_rows rows_bytes Reached Taken
binary_rows-Reached start limit end_seq [] p going h = inl (going, sym (append-nil p.buf), h)
binary_rows-Reached start limit end_seq ((k, v) ∷ rows) p going h =
    let seq = number_at 9 k in
    let b = bytes_of start seq (record_payload v) in
    let more = rows_bytes start end_seq rows in
    let q = take_record start limit seq (record_payload v) p in
    elim (Bool-cases (leb limit (length p.buf))) [
      | inl at_limit ↦
          rw at_limit (inr (if leb end_seq seq then [] else b ++ more, refl, ground arith))
      | inr below ↦ elim (Bool-cases (leb end_seq seq)) [
        | inl past ↦ rw (below, past) (inl (going, sym (append-nil p.buf), h))
        | inr here ↦ elim (take_record-Taken start limit seq (record_payload v) p (ground arith)) [
          | inl (still, buf, fits) ↦
              let ih = binary_rows-Reached start limit end_seq rows q still fits in
              rw (below, here, still)
                (subst (λ all. Reached limit all (binary_rows start limit end_seq rows q))
                  (ap (λ c. c ++ more) buf ∙ append_assoc p.buf b more) ih)
          | inr (rest, halted, split, full) ↦
              rw (below, here, halted)
                (inr (
                  rest ++ more,
                  sym (append_assoc p.buf b more)
                      ∙ ap (λ c. c ++ more) split
                      ∙ append_assoc q.buf rest more,
                  full,
                ))
        ]
      ]
    ]

bind_ok {ℓ κ} :
    {Value : Type ℓ} {Next : Type κ} (m : Result Value) (f : Value → Result Next) {b : Next}
    → (m >>= f) ≡ ok b
    → (a : Value) × (m ≡ ok a) × (f a ≡ ok b)
bind_ok (ok a) f e = (a, refl, e)
bind_ok (err x) f e = cc

ok_injective {ℓ} : {Value : Type ℓ} {a b : Value} → ◌≡◌ {A = Result Value} (ok a) (ok b) → a ≡ b
ok_injective e = cc

halted_full :
    (limit : ℕ) (all : Bytes) (q : Progress)
    → Reached limit all q
    → q.stopped ≡ true
    → length q.buf ≡ limit
unfolding Reached
halted_full limit all q (inl (still, buf, fits)) h = cc
halted_full limit all q (inr (rest, split, full)) h = full

limit_full :
    (limit : ℕ) (all : Bytes) (q : Progress)
    → Reached limit all q
    → leb limit (length q.buf) ≡ true
    → length q.buf ≡ limit
unfolding Reached
limit_full limit all q (inl (still, buf, fits)) h = ground arith
limit_full limit all q (inr (rest, split, full)) h = full

below_fits : (limit : ℕ) (all : Bytes) (q : Progress) → Reached limit all q → length q.buf ≤ limit
unfolding Reached
below_fits limit all q (inl (still, buf, fits)) = fits
below_fits limit all q (inr (rest, split, full)) = omega (arith, full)

below_all :
    (limit : ℕ) (all : Bytes) (q : Progress)
    → Reached limit all q
    → leb limit (length q.buf) ≡ false
    → q.buf ≡ all
unfolding Reached
below_all limit all q (inl (still, buf, fits)) h = buf
below_all limit all q (inr (rest, split, full)) h = absurd (ground (arith, full))

-- A segment's loop that reached its end or the limit, in front of what the next segments have.
Reached-IsPrefix :
    (limit : ℕ) (start all more : Bytes) (q : Progress)
    → Reached limit (start ++ all) q
    → length q.buf ≡ limit
    → IsPrefix limit (start ++ (all ++ more)) q.buf
unfolding Reached
Reached-IsPrefix limit start all more q (inl (still, buf, fits)) full = record {
  rest = more;
  split = sym (append_assoc start all more) ∙ ap (λ b. b ++ more) (sym buf);
  within = fits;
  full = inr full;
}
Reached-IsPrefix limit start all more q (inr (rest, split, at)) full = record {
  rest = rest ++ more;
  split =
      sym (append_assoc start all more) ∙ ap (λ b. b ++ more) split ∙ append_assoc q.buf rest more;
  within = omega (arith, full);
  full = inr full;
}

module _ (store : Storage) where
  open store use {Db}

  -- The bytes that the segments have, from the start of a read on.
  unfoldable pub segments_bytes : Db → Offset → List Segment → Result Bytes
  segments_bytes db start [] = ok []
  segments_bytes db start (seg ∷ segs) = do
    rows ← scan_segment store db seg
    more ← segments_bytes db start segs
    ok (rows_bytes start seg.end_seq rows ++ more)

  abbrev After : Db → Offset → ℕ → List Segment → Bytes → Progress → Type 0
  After db start limit segs all p =
      (q : Progress) × (binary_segments store db start limit segs p ≡ ok q)
      × IsPrefix limit (p.buf ++ all) q.buf

  binary_segments-IsPrefix :
      (db : Db) (start : Offset) (limit : ℕ) (segs : List Segment) (p : Progress) (all : Bytes)
      → p.stopped ≡ false
      → length p.buf ≤ limit
      → segments_bytes db start segs ≡ ok all
      → After db start limit segs all p
  unfolding binary_segments segments_bytes
  binary_segments-IsPrefix db start limit [] p all going h e = (
    p,
    refl,
    record {
      rest = [];
      split = ap (λ b. p.buf ++ b) (sym (ok_injective e));
      within = h;
      full = inl refl;
    },
  )
  binary_segments-IsPrefix db start limit (seg ∷ segs) p all going h e =
      let (rows, scanned, e1) = bind_ok (scan_segment store db seg) _ e in
      let (more, e2, e3) = bind_ok (segments_bytes db start segs) _ e1 in
      let here = rows_bytes start seg.end_seq rows in
      let q = binary_rows start limit seg.end_seq rows p in
      let reached = binary_rows-Reached start limit seg.end_seq rows p going h in
      subst (λ b. After db start limit (seg ∷ segs) b p) (ok_injective e3)
        (elim (Bool-cases q.stopped) [
          | inl halted ↦ (
            q,
            rw (scanned, halted),
            Reached-IsPrefix limit p.buf here more q reached (halted_full limit _ q reached halted),
          )
          | inr still ↦ elim (Bool-cases (leb limit (length q.buf))) [
            | inl at_limit ↦ (
              q,
              rw (scanned, still, at_limit),
              Reached-IsPrefix limit p.buf here more q reached
                  (limit_full limit _ q reached at_limit),
            )
            | inr below ↦
                let (r, e4, pre) =
                  binary_segments-IsPrefix db start limit segs q more still
                    (below_fits limit _ q reached) e2 in
                (
                  r,
                  rw (scanned, still, below) e4,
                  subst (λ b. IsPrefix limit b r.buf)
                      (ap (λ b. b ++ more) (below_all limit _ q reached below)
                        ∙ append_assoc p.buf here more)
                      pre,
                )
          ]
        ])

  -- A binary read of segments whose scans succeed returns a prefix of the bytes that they have from the
  -- start of the read on: all of them, or else exactly as many as the limit.
  pub read_segments_binary-IsPrefix :
      (db : Db) (segs : List Segment) (start : Offset) (tail_seq limit : ℕ) (all : Bytes)
      → segments_bytes db start segs ≡ ok all
      → (r : Bytes × Offset × Bool) × (read_segments_binary store db segs start tail_seq limit
          ≡ ok r)
        × IsPrefix limit all r.0
  unfolding read_segments_binary binary_result
  read_segments_binary-IsPrefix db segs start tail_seq limit all e =
      let (q, e2, pre) =
        binary_segments-IsPrefix db start limit segs
          (record { buf = []; next = start; stopped = false }) all refl (omega arith) e in
      (binary_result tail_seq q, rw e2, pre)
