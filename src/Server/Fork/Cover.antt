-- ===== src/Server/Fork/Cover.antt =====
-- The segments of a range cover it, each part from the stream that holds it.
use yasdb.Prelude.{
  ℕ, zero, suc, ◌+◌, ◌^◌, ◌%◌, ◌≤◌, ◌<◌, ◌≡◌, ◌≢◌, refl, sym, subst, ◌∙◌, true, false, Option, some,
  List, [], ◌∷◌, ◌++◌, ltb, leb, ◌==◌, if◌then◌else◌, Result, ok, ◌>>=◌, arith, lt_cases,
  append-nil, inl, inr,
}
use yasdb.Prelude.Bytes.{Bytes}
use yasdb.Keys.{record_key}
use yasdb.Meta.{StreamMeta}
use yasdb.Storage.{Storage}
use yasdb.Server.{load_meta_by_id}
use yasdb.Server.Fork.{
  Segment, resolve_with, resolve_segments_by_id, of_loaded, own_part, behind, record_at, record_of,
  record_in, payload_of, last_segment,
}

-- The segments follow each other from start to end, without a gap, and each number of a segment is
-- held by the segment's stream.
abbrev pub Tiles : (ℕ → ℕ) → ℕ → ℕ → List Segment → Type 0
Tiles holder start end [] = start ≡ end
Tiles holder start end (s ∷ segs) =
    (s.start_seq ≡ start)
    × (start < s.end_seq)
    × ((n : ℕ) → start ≤ n → n < s.end_seq → holder n ≡ s.id)
    × Tiles holder s.end_seq end segs

Tiles-le : (h : ℕ → ℕ) (a b : ℕ) (xs : List Segment) → Tiles h a b xs → a ≤ b
Tiles-le h a b [] t = omega arith
Tiles-le h a b (s ∷ xs) t = let rest = Tiles-le h s.end_seq b xs t.3 in omega (arith, t.1, rest)

Tiles-append :
    (h : ℕ → ℕ) (a b c : ℕ) (xs ys : List Segment)
    → Tiles h a b xs
    → Tiles h b c ys
    → Tiles h a c (xs ++ ys)
Tiles-append h a b c [] ys t u = subst (λ n. Tiles h n c ys) (sym t) u
Tiles-append h a b c (s ∷ xs) ys t u = (t.0, t.1, t.2, Tiles-append h s.end_seq b c xs ys t.3 u)

Tiles-holder :
    (h g : ℕ → ℕ) (a b : ℕ) (xs : List Segment)
    → ((n : ℕ) → n < b → h n ≡ g n)
    → Tiles h a b xs
    → Tiles g a b xs
Tiles-holder h g a b [] e t = t
Tiles-holder h g a b (s ∷ xs) e t =
    let le = Tiles-le h s.end_seq b xs t.3 in
    (
      t.0,
      t.1,
      λ n lo hi. sym (e n (omega (arith, hi, le))) ∙ t.2 n lo hi,
      Tiles-holder h g s.end_seq b xs e t.3,
    )

-- Who holds a number: the fork from its divergence on, and before it whoever holds it for the source.
abbrev pub holder_with : (ℕ → ℕ) → ℕ → ℕ → ℕ → ℕ
holder_with h id fork_offset n = if ltb n fork_offset then h n else id

own_holds : (h : ℕ → ℕ) (id off n : ℕ) → off ≤ n → holder_with h id off n ≡ id
own_holds h id off n le = ground arith

inherited_holds : (h : ℕ → ℕ) (id off n : ℕ) → n < off → h n ≡ holder_with h id off n
inherited_holds h id off n lt = ground arith

resolve_with-Tiles :
    (inherited : ℕ → ℕ → ℕ → Option (Result (List Segment))) (h : ℕ → ℕ) (id src off start end : ℕ)
    → src ≢ 0
    → start ≤ end
    → ((a b : ℕ)
        → a ≤ b
        → (segs : List Segment) × (inherited src a b ≡ some (ok segs)) × Tiles h a b segs)
    → (segs : List Segment) × (resolve_with inherited id src off start end ≡ some (ok segs))
      × Tiles (holder_with h id off) start end segs
unfolding resolve_with own_part behind
resolve_with-Tiles inherited h id src off start end forked le ih = elim (lt_cases start end) [
  | inr empty ↦
      let none_left : leb end start ≡ true = ground arith in ([], rw none_left, omega arith)
  | inl lt ↦
      let some_left : leb end start ≡ false = ground arith in
      let is_fork : src == 0 ≡ false = ground arith in
      elim (lt_cases start off) [
        | inr late ↦
            let f1 : ltb off end ≡ true = ground arith in
            let f2 : ltb start off ≡ false = ground arith in
            (
              record { id = id; start_seq = start; end_seq = end } ∷ [],
              rw (some_left, is_fork, f1, f2),
              (refl, lt, (λ n lo hi. own_holds h id off n (omega arith)), refl),
            )
        | inl early ↦
            let f2 : ltb start off ≡ true = ground arith in
            elim (lt_cases off end) [
              | inr whole ↦
                  let f1 : ltb off end ≡ false = ground arith in
                  let (segs, e, t) = ih start end le in
                  (
                    segs,
                    rw (some_left, is_fork, f1, f2, e, append-nil segs),
                    Tiles-holder h (holder_with h id off) start end segs
                        (λ n lt2. inherited_holds h id off n (omega arith)) t,
                  )
              | inl both ↦
                  let f1 : ltb off end ≡ true = ground arith in
                  let (segs, e, t) = ih start off (omega arith) in
                  (
                    segs ++ (record { id = id; start_seq = off; end_seq = end } ∷ []),
                    rw (some_left, is_fork, f1, f2, e),
                    Tiles-append (holder_with h id off) start off end segs _
                        (Tiles-holder h (holder_with h id off) start off segs
                          (λ n lt2. inherited_holds h id off n lt2) t)
                        (refl, both, (λ n lo hi. own_holds h id off n lo), refl),
                  )
            ]
      ]
]

single_segment :
    (h : ℕ → ℕ) (a : ℕ) (segs : List Segment)
    → Tiles h a (a + 1) segs
    → (s : Segment) × (last_segment segs ≡ some s) × (s.id ≡ h a)
unfolding last_segment
single_segment h a [] t = absurd (omega (arith, t))
single_segment h a (s ∷ []) t = (s, refl, sym (t.2 a (omega arith) t.1))
single_segment h a (s ∷ r ∷ segs) t =
    let le = Tiles-le h r.end_seq (a + 1) segs t.3.3 in absurd (omega (arith, t.1, t.3.1, le))

module _ (store : Storage) where
  open store use {Db, get}

  -- The chain of forks under a stream, of length d: every source is there, and the last is no fork.
  abbrev pub Chain : Db → ℕ → ℕ → Type 0
  Chain db zero id =
      (m : StreamMeta) × (path : Bytes) × (load_meta_by_id store db id ≡ ok (some (m, path)))
      × (m.forked_from ≡ 0)
  Chain db (suc d) id =
      (m : StreamMeta) × (path : Bytes) × (load_meta_by_id store db id ≡ ok (some (m, path)))
      × (m.forked_from ≢ 0)
      × Chain db d m.forked_from

  -- The stream on the chain that holds the record with a number.
  unfoldable pub holder : (db : Db) (d id : ℕ) → Chain db d id → ℕ → ℕ
  holder db zero id c n = id
  holder db (suc d) id c n = holder_with (holder db d c.0.forked_from c.4) id c.0.fork_offset n

  -- A range of a stream is resolved, however long its chain of forks, with fuel for the chain: the
  -- segments cover the range in order without a gap or an overlap, and each names the stream that holds
  -- its records.
  pub resolve_segments-Tiles :
      (db : Db) (d id : ℕ) (c : Chain db d id) (start end : ℕ)
      → start ≤ end
      → (segs : List Segment) × (resolve_segments_by_id store (suc d) db id start end
          ≡ some (ok segs))
        × Tiles (holder db d id c) start end segs
  unfolding resolve_segments_by_id of_loaded resolve_with holder
  resolve_segments-Tiles db zero id (m, path, loaded, top) start end le =
      elim (lt_cases start end) [
        | inr empty ↦
            let none_left : leb end start ≡ true = ground arith in
            ([], rw (loaded, none_left), omega arith)
        | inl lt ↦
            let f1 : leb end start ≡ false = ground arith in
            let f2 : m.forked_from == 0 ≡ true = ground arith in
            (
              record { id = id; start_seq = start; end_seq = end } ∷ [],
              rw (loaded, f1, f2),
              (refl, lt, (λ n lo hi. refl), refl),
            )
      ]
  resolve_segments-Tiles db (suc d) id (m, path, loaded, forked, rest) start end le =
      let (segs, e, t) =
        resolve_with-Tiles (resolve_segments_by_id store (suc d) db)
          (holder db d m.forked_from rest) id m.forked_from m.fork_offset start end forked le
          (λ a b le2. resolve_segments-Tiles db d m.forked_from rest a b le2) in
      (segs, rw loaded e, t)

  -- A record of a stream is read from the stream on its chain that holds it, wherever that is.
  pub record_at-holder :
      (db : Db) (d id : ℕ) (c : Chain db d id) (seq : ℕ)
      → seq + 1 < 2 ^ 64
      → record_at store (suc d) db id seq
        ≡ some (get db (record_key (holder db d id c seq) seq) >>= λ v. ok (payload_of v))
  unfolding record_at record_of record_in
  record_at-holder db d id c seq h =
      let next : (seq + 1) % 2 ^ 64 ≡ seq + 1 = omega arith in
      let (segs, e, t) = resolve_segments-Tiles db d id c seq (seq + 1) (omega arith) in
      let (s, last, held) = single_segment (holder db d id c) seq segs t in rw (next, e, last, held)
