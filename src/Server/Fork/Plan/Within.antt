-- ===== src/Server/Fork/Plan/Within.antt =====
-- A fork diverges within its source.
use yasdb.Prelude.{
  ℕ, zero, suc, ◌+◌, ◌%◌, ◌^◌, ◌≤◌, ◌<◌, ◌≡◌, ◌⊎◌, inl, inr, refl, subst, false, ◌&&◌, ◌||◌, Option,
  none, some, ltb, leb, ◌==◌, length, Result, ok, err, arith, if-elim,
}
use yasdb.Prelude.Bytes.{Bytes}
use yasdb.Meta.{StreamMeta}
use yasdb.Offset.{Offset}
use yasdb.Storage.{Storage}
use yasdb.ContentType.{is_json_stream}
use yasdb.Server.{Stage, stop, go, and_then, or_500, load_tail_seq}
use yasdb.Server.Fork.{record_at}
use yasdb.Server.Fork.Plan.{
  ForkParams, ForkPlan, plan_fork, load_source, fork_content_type, fork_position, sub_offset,
  divergence, binary_divergence, json_divergence, in_payload, read_payload, within,
}

-- A stage that goes on comes from one that went on before it.
and_then_go {ℓ κ} :
    {Value : Type ℓ} {Next : Type κ} (x : Stage Value) (next : Value → Stage Next) {v : Next}
    → and_then x next ≡ go v
    → (u : Value) × (x ≡ go u) × (next u ≡ go v)
and_then_go (stop r) next e = cc
and_then_go (go u) next e = (u, refl, e)

or_500_go {ℓ} : {Value : Type ℓ} (r : Result Value) {v : Value} → or_500 r ≡ go v → r ≡ ok v
or_500_go (ok w) e = cc
or_500_go (err f) e = cc

-- A position within a source of `tail` records: at its end at most, and in a record only before it.
pub Inside : ℕ → ℕ × ℕ → Type 0
Inside tail d = (d.0 ≤ tail) × ((d.1 ≡ 0) ⊎ (d.0 < tail))

zero_or_more : (n : ℕ) → (n ≡ 0) ⊎ (0 < n)
zero_or_more zero = inl refl
zero_or_more (suc n) = inr (omega arith)

go_injective {ℓ} : {Value : Type ℓ} {u v : Value} → go u ≡ go v → u ≡ v
go_injective e = cc

after_record : (tail : ℕ) (o : Offset) → o.seq < tail → Inside tail ((o.seq + 1) % 2 ^ 64, 0)
unfolding Inside
after_record tail o h = (omega (arith, h), inl refl)

in_record : (tail : ℕ) (o : Offset) (byte : ℕ) → o.seq < tail → Inside tail (o.seq, byte)
unfolding Inside
in_record tail o byte h = (omega (arith, h), inr h)

at_start : (tail n : ℕ) → ltb tail n ≡ false → Inside tail (n, 0)
unfolding Inside
at_start tail n h = (ground arith, inl refl)

Inside-offset :
    (tail : ℕ) (o : Offset)
    → (ltb tail o.seq || (o.seq == tail && ltb 0 o.byte)) ≡ false
    → Inside tail (o.seq, o.byte)
unfolding Inside
Inside-offset tail o h = elim (zero_or_more o.byte) [
  | inl z ↦ (ground arith, inl z)
  | inr m ↦ (ground arith, inr (ground arith))
]

within-Inside : (tail : ℕ) (o q : Offset) → within tail o ≡ go q → Inside tail (q.seq, q.byte)
unfolding within
within-Inside tail o q =
    if-elim (λ (x : Stage Offset). x ≡ go q → Inside tail (q.seq, q.byte))
      (ltb tail o.seq || (o.seq == tail && ltb 0 o.byte)) _ _ (λ beyond e. cc)
      (λ inside e.
        subst (λ (r : Offset). Inside tail (r.seq, r.byte)) (go_injective e)
          (Inside-offset tail o inside))

in_payload-Inside :
    (tail : ℕ) (o : Offset) (combined : ℕ) (payload : Option Bytes) (d : ℕ × ℕ)
    → o.seq < tail
    → in_payload o combined payload ≡ go d
    → Inside tail d
unfolding in_payload
in_payload-Inside tail o combined none d h = λ e. cc
in_payload-Inside tail o combined (some payload) d h =
    if-elim (λ (x : Stage (ℕ × ℕ)). x ≡ go d → Inside tail d) (ltb (length payload) combined) _ _
      (λ over e. cc)
      (λ fits.
        if-elim (λ (x : Stage (ℕ × ℕ)). x ≡ go d → Inside tail d) (combined == length payload) _ _
          (λ whole e. subst (Inside tail) (go_injective e) (after_record tail o h))
          (λ part e. subst (Inside tail) (go_injective e) (in_record tail o combined h)))

json_divergence-Inside :
    (tail : ℕ) (o : Offset) (sub : ℕ) (d : ℕ × ℕ)
    → json_divergence tail o sub ≡ go d
    → Inside tail d
unfolding json_divergence
json_divergence-Inside tail o sub d =
    if-elim (λ (x : Stage (ℕ × ℕ)). x ≡ go d → Inside tail d) (ltb tail ((o.seq + sub) % 2 ^ 64)) _
      _ (λ over e. cc) (λ fits e. subst (Inside tail) (go_injective e) (at_start tail _ fits))

module _ (store : Storage) (parse_media_type : Bytes → Option Bytes) where
  open store use {Db}

  binary_divergence-Inside :
      (fuel : ℕ) (db : Db) (id tail : ℕ) (o : Offset) (sub : ℕ) (d : ℕ × ℕ)
      → Inside tail (o.seq, o.byte)
      → binary_divergence store parse_media_type fuel db id tail o sub ≡ go d
      → Inside tail d
  unfolding binary_divergence
  binary_divergence-Inside fuel db id tail o sub d h =
      if-elim (λ (x : Stage (ℕ × ℕ)). x ≡ go d → Inside tail d) ((o.byte + sub) % 2 ^ 64 == 0) _ _
        (λ none_left e. subst (Inside tail) (go_injective e) h)
        (λ some_left.
          if-elim (λ (x : Stage (ℕ × ℕ)). x ≡ go d → Inside tail d) (leb tail o.seq) _ _
            (λ over e. cc)
            (λ fits e.
              let (payload, e1, e2) =
                and_then_go (read_payload (record_at store fuel db id o.seq))
                  (in_payload o ((o.byte + sub) % 2 ^ 64)) e in
              in_payload-Inside tail o ((o.byte + sub) % 2 ^ 64) payload d (ground arith) e2))

  divergence-Inside :
      (fuel : ℕ) (db : Db) (src : StreamMeta) (tail : ℕ) (o : Offset) (sub : ℕ) (d : ℕ × ℕ)
      → Inside tail (o.seq, o.byte)
      → divergence store parse_media_type fuel db src tail o sub ≡ go d
      → Inside tail d
  unfolding divergence
  divergence-Inside fuel db src tail o sub d h =
      if-elim (λ (x : Stage (ℕ × ℕ)). x ≡ go d → Inside tail d)
        (is_json_stream parse_media_type src.content_type) _ _
        (λ json e. json_divergence-Inside tail o sub d e)
        (λ binary e. binary_divergence-Inside fuel db src.stream_id tail o sub d h e)

  -- A fork that is accepted diverges within its source, whatever offset, sub-offset or default the
  -- request has: at the source's stored tail at most, and inside a record only if the source has it.
  pub plan_fork-Inside :
      (fuel : ℕ) (db : Db) (p : ForkParams) (plan : ForkPlan)
      → plan_fork store parse_media_type fuel db p ≡ go plan
      → (tail : ℕ) × (load_tail_seq store db plan.source.stream_id ≡ ok tail)
        × Inside tail plan.divergence
  unfolding plan_fork fork_position
  plan_fork-Inside fuel db p plan e =
      let (src, e1, f1) = and_then_go (load_source store parse_media_type db p) _ e in
      let (tail, e2, f2) = and_then_go (or_500 (load_tail_seq store db src.stream_id)) _ f1 in
      let (content_type, e3, f3) =
        and_then_go (fork_content_type store parse_media_type src p) _ f2 in
      let (o, e4, f4) = and_then_go (fork_position tail p) _ f3 in
      let (sub, e5, f5) = and_then_go (sub_offset tail p) _ f4 in
      let (div, e6, f6) =
        and_then_go (divergence store parse_media_type fuel db src tail o sub) _ f5 in
      let (q, e7, f7) = and_then_go _ (within tail) e4 in
      let made : ForkPlan = record {
        source = src;
        content_type = content_type;
        divergence = div;
      } in
      subst
        (λ (r : ForkPlan).
          (n : ℕ) × (load_tail_seq store db r.source.stream_id ≡ ok n) × Inside n r.divergence)
        {x = made} (go_injective f6)
        (
          tail,
          or_500_go _ e2,
          divergence-Inside fuel db src tail o sub div (within-Inside tail q o f7) e6,
        )
