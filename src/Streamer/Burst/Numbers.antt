-- ===== src/Streamer/Burst/Numbers.antt =====
-- The numbers that a burst assigns, and what its batch writes under them.
use yasdb.Prelude.{
  ℕ, zero, suc, ◌+◌, ◌%◌, ◌^◌, ◌<◌, ◌≡◌, refl, ap, sym, subst, ◌∙◌, inl, inr, Bool, true, false,
  ◌&&◌, ◌||◌, Option, some, List, [], ◌∷◌, ◌++◌, if◌then◌else◌, length, get_elem?, arith,
  Bool-cases, append_assoc, append-nil, length-append,
}
use yasdb.Prelude.Bytes.{Bytes, bytes_eq_self}
use yasdb.Keys.{record_key}
use yasdb.Keys.Order.{bytes_eq-record_key}
use yasdb.Meta.{marshal_record, rec_flag_none}
use yasdb.Storage.{View, Storage, apply_ops, put}
use yasdb.Storage.View.{Untouched, apply_ops-Untouched}
use yasdb.Streamer.{AppendReq, AppendResp, Streamer, Pending, Planned, record_ops_from}
use yasdb.Streamer.Load.Core.{SameCore, SameCore-refl, SameCore-trans}
use yasdb.Streamer.Plan.{plan_append}
use yasdb.Streamer.Plan.Effects.{Effect, plan_append-Effect}
use yasdb.Streamer.Burst.{plan_batch}

-- The records of the accepted requests of a burst, in order.
unfoldable pub accepted_records : List AppendReq → List (AppendResp × Bool) → List Bytes
accepted_records [] resps = []
accepted_records (req ∷ reqs) [] = []
accepted_records (req ∷ reqs) ((resp, accepted) ∷ resps) =
    let rest = accepted_records reqs resps in if accepted then req.records ++ rest else rest

record_ops_from-append :
    (id t : ℕ) (a b : List Bytes)
    → t < 2 ^ 64
    → record_ops_from id t (a ++ b)
      ≡ record_ops_from id t a ++ record_ops_from id ((t + length a) % 2 ^ 64) b
unfolding record_ops_from
record_ops_from-append id t [] b h = ap (λ n. record_ops_from id n b) (omega arith)
record_ops_from-append id t (x ∷ a) b h =
    ap (λ r. put (record_key id t) (marshal_record rec_flag_none x) ∷ r)
      (record_ops_from-append id ((t + 1) % 2 ^ 64) a b (omega arith)
        ∙ ap (λ n. record_ops_from id ((t + 1) % 2 ^ 64) a ++ record_ops_from id n b) (omega arith))

-- What a planned batch leaves: the numbers from the view's tail on, one for each accepted record.
pub record Numbered (batch : List AppendReq) (pend : Pending) (s : Streamer)
    (p : List (AppendResp × Bool) × Bool × Pending × Streamer) : Type 0 where
  pub core : SameCore s p.3
  pub answered : length p.0 ≡ length batch
  pub same_now : p.2.now ≡ pend.now
  pub ops :
      p.2.record_ops
      ≡ pend.record_ops ++ record_ops_from s.id pend.tail (accepted_records batch p.0)
  pub tail : p.2.tail ≡ (pend.tail + length (accepted_records batch p.0)) % 2 ^ 64

cons-Numbered :
    (req : AppendReq) (batch : List AppendReq) (pend pend1 pend2 : Pending) (s s1 s2 : Streamer)
    (resp : AppendResp) (accepted closes : Bool) (resps : List (AppendResp × Bool))
    → pend.tail < 2 ^ 64
    → Effect pend req s (resp, accepted, pend1, s1)
    → Numbered batch pend1 s1 (resps, closes, pend2, s2)
    → Numbered
        (req ∷ batch)
        pend
        s
        ((resp, accepted) ∷ resps, (accepted && req.close_stream) || closes, pend2, s2)
unfolding accepted_records
cons-Numbered req batch pend pend1 pend2 s s1 s2 resp true closes resps h e n =
    let (opsE, tailE) = e.numbered refl in
    let rest = accepted_records batch resps in
    record {
      core = SameCore-trans s s1 s2 e.core n.core;
      answered = ap suc n.answered;
      same_now = n.same_now ∙ e.same_now;
      ops =
          n.ops
          ∙ rw (opsE, tailE, ← e.core.id)
              (append_assoc pend.record_ops _ _
                ∙ ap (λ r. pend.record_ops ++ r)
                    (sym (record_ops_from-append s.id pend.tail req.records rest h)));
      tail = omega (arith, n.tail, tailE, length-append {0} req.records rest);
    }
cons-Numbered req batch pend pend1 pend2 s s1 s2 resp false closes resps h e n =
    let same : pend1 ≡ pend = e.refused refl in
    record {
      core = SameCore-trans s s1 s2 e.core n.core;
      answered = ap suc n.answered;
      same_now = n.same_now ∙ e.same_now;
      ops = n.ops ∙ rw (same, ← e.core.id);
      tail = n.tail ∙ rw same;
    }

Effect-tail :
    (pend : Pending) (req : AppendReq) (s : Streamer) (p : Planned)
    → pend.tail < 2 ^ 64
    → Effect pend req s p
    → p.2.tail < 2 ^ 64
Effect-tail pend req s p h e = elim (Bool-cases p.1) [
  | inl accepted ↦ omega (arith, (e.numbered accepted).1)
  | inr refused ↦ subst (λ (q : Pending). q.tail < 2 ^ 64) (sym (e.refused refused)) h
]

module _ (store : Storage) (parse_media_type : Bytes → Option Bytes) where
  open store use {Db}

  -- The loop over a burst, whatever is in it.
  pub plan_batch-Numbered :
      (db : Db) (batch : List AppendReq) (pend : Pending) (s : Streamer)
      → pend.tail < 2 ^ 64
      → Numbered batch pend s (plan_batch store parse_media_type db batch pend s)
  unfolding plan_batch record_ops_from accepted_records
  plan_batch-Numbered db [] pend s h = record {
    core = SameCore-refl s;
    answered = refl;
    same_now = refl;
    ops = sym (append-nil pend.record_ops);
    tail = omega arith;
  }
  plan_batch-Numbered db (req ∷ batch) pend s h =
      let p : Planned = plan_append store parse_media_type db pend req s in
      let e : Effect pend req s p = plan_append-Effect store parse_media_type db pend req s in
      let q = plan_batch store parse_media_type db batch p.2 p.3 in
      cons-Numbered req batch pend p.2 q.2 s p.3 q.3 p.0 p.1 q.1 q.0 h e
        (plan_batch-Numbered db batch p.2 p.3 (Effect-tail pend req s p h e))

pub record_ops-Untouched :
    (id seq start : ℕ) (recs : List Bytes)
    → id < 2 ^ 64
    → seq < start
    → start + length recs < 2 ^ 64
    → Untouched (record_key id seq) (record_ops_from id start recs)
unfolding record_ops_from
record_ops-Untouched id seq start [] hid lt h = tt
record_ops-Untouched id seq start (r ∷ recs) hid lt h = (
  ground (arith, bytes_eq-record_key id start id seq hid (omega arith) hid (omega arith)),
  record_ops-Untouched id seq ((start + 1) % 2 ^ 64) recs hid (omega arith) (omega arith),
)

-- What the record operations put where: the i-th payload under the i-th number.
pub apply_ops-record_ops :
    (id base i : ℕ) (recs : List Bytes) (view : View) (rec : Bytes)
    → id < 2 ^ 64
    → base + length recs < 2 ^ 64
    → get_elem? recs i ≡ some rec
    → apply_ops (record_ops_from id base recs) view (record_key id (base + i))
      ≡ some (marshal_record rec_flag_none rec)
unfolding apply_ops record_ops_from
apply_ops-record_ops id base i [] view rec hid h g = cc
apply_ops-record_ops id base zero (r ∷ recs) view rec hid h g =
    let here : base + 0 ≡ base = omega arith in
    rw here (
      apply_ops-Untouched (record_key id base) (record_ops_from id ((base + 1) % 2 ^ 64) recs) _
        (record_ops-Untouched id base ((base + 1) % 2 ^ 64) recs hid (omega arith) (omega arith))
      ∙ rw (bytes_eq_self (record_key id base)) (ground arith))
apply_ops-record_ops id base (suc i) (r ∷ recs) view rec hid h g =
    let small : (base + 1) % 2 ^ 64 ≡ base + 1 = omega arith in
    let next : base + 1 + i ≡ base + suc i = omega arith in
    rw (small, ← next) (apply_ops-record_ops id (base + 1) i recs _ rec hid (omega arith) g)
