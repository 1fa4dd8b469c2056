-- ===== src/Streamer/Plan/Effects.antt =====
-- What one append does to the view of its burst, accepted or not.
use yasdb.Prelude.{
  ℕ, ◌+◌, ◌%◌, ◌^◌, ◌≡◌, refl, ap, sym, ◌∙◌, inl, inr, Bool, true, false, ◌||◌, not, Option, none,
  some, ◌++◌, length, arith, Bool-cases, if-elim,
}
use yasdb.Prelude.Bytes.{Bytes}
use yasdb.Meta.{ProducerState}
use yasdb.Offset.{tail_offset}
use yasdb.Producer.{ProducerHeaders}
use yasdb.Storage.{Storage}
use yasdb.Streamer.{
  AppendReq, AppendResp, bare, Streamer, Pending, Verdict, refuse, proceed, Planned, admit,
  record_effects, record_ops_from, slide_ttl, accepted_response,
}
use yasdb.Streamer.Load.{eff_producer}
use yasdb.Streamer.Load.Core.{
  SameCore, SameCore-refl, SameCore-trans, eff_producer-core, eff_writer_seq-core,
}
use yasdb.Streamer.Plan.{
  plan_append, plan_append_closed, check_producer, check_stream_seq, plan_checked, closed_producer,
}

-- What a planned append may have done: the streamer kept its core, and either the append was refused
-- and the view is as it was, or it was accepted on an open view and its records were numbered from
-- the view's tail on, with the response telling the new tail.
pub record Effect (pend : Pending) (req : AppendReq) (s : Streamer) (p : Planned) : Type 0 where
  pub core : SameCore s p.3
  pub refused : p.1 ≡ false → p.2 ≡ pend
  pub same_now : p.2.now ≡ pend.now
  pub open_before : p.1 ≡ true → pend.closed ≡ false
  pub numbered :
      p.1 ≡ true
      → (p.2.record_ops ≡ pend.record_ops ++ record_ops_from s.id pend.tail req.records)
        × (p.2.tail ≡ (pend.tail + length req.records) % 2 ^ 64)
  pub closes : p.1 ≡ true → p.2.closed ≡ req.close_stream
  pub responds : p.1 ≡ true → p.0.next_offset ≡ tail_offset p.2.tail

refusal-Effect :
    (resp : AppendResp) (pend : Pending) (req : AppendReq) (s t : Streamer)
    → SameCore s t
    → Effect pend req s (resp, false, pend, t)
refusal-Effect resp pend req s t c = record {
  core = c;
  refused = λ h. refl;
  same_now = refl;
  open_before = λ h. cc;
  numbered = λ h. cc;
  closes = λ h. cc;
  responds = λ h. cc;
}

pub slide_ttl-fields :
    (ttl : ℕ) (pend : Pending)
    → ((slide_ttl ttl pend).record_ops ≡ pend.record_ops)
      × ((slide_ttl ttl pend).tail ≡ pend.tail)
      × ((slide_ttl ttl pend).closed ≡ pend.closed)
      × ((slide_ttl ttl pend).producers ≡ pend.producers)
      × ((slide_ttl ttl pend).writer_seq ≡ pend.writer_seq)
      × ((slide_ttl ttl pend).now ≡ pend.now)
unfolding slide_ttl
slide_ttl-fields ttl pend = ground arith

accepted_response-offset :
    (pend : Pending) (req : AppendReq) (p : Option ProducerHeaders)
    → (accepted_response pend req p).next_offset ≡ tail_offset pend.tail
unfolding accepted_response
accepted_response-offset pend req none = refl
accepted_response-offset pend req (some h) = refl

or_false : (b : Bool) → (b || false) ≡ b
or_false b = ground arith

admit-Effect :
    (s t : Streamer) (pend : Pending) (req : AppendReq) (np : Option ProducerState)
    → SameCore s t
    → pend.closed ≡ false
    → Effect pend req s (admit t pend req np)
unfolding admit record_effects
admit-Effect s t pend req np c still_open =
    let pend1 : Pending = record_effects t pend req np in
    let f = slide_ttl-fields t.meta.ttl_seconds pend1 in
    record {
      core = c;
      refused = λ h. cc;
      same_now = f.5;
      open_before = λ h. still_open;
      numbered = λ h. (
        f.0 ∙ ap (λ i. pend.record_ops ++ record_ops_from i pend.tail req.records) (sym c.id),
        f.1,
      );
      closes = λ h. f.2 ∙ rw still_open (or_false req.close_stream);
      responds =
          λ h. accepted_response-offset (slide_ttl t.meta.ttl_seconds pend1) req req.producer;
    }

module _ (store : Storage) (parse_media_type : Bytes → Option Bytes) where
  open store use {Db}

  closed_producer-Effect :
      (db : Db) (pend : Pending) (req : AppendReq) (p : Option ProducerHeaders) (s : Streamer)
      → Effect pend req s (closed_producer store parse_media_type db pend p s)
  unfolding closed_producer
  closed_producer-Effect db pend req none s = refusal-Effect _ pend req s s (SameCore-refl s)
  closed_producer-Effect db pend req (some h) s =
      refusal-Effect _ pend req s (eff_producer store db pend h.id s).1
        (eff_producer-core store db pend h.id s)

  pub plan_append_closed-Effect :
      (db : Db) (pend : Pending) (req : AppendReq) (s : Streamer)
      → Effect pend req s (plan_append_closed store parse_media_type db pend req s)
  unfolding plan_append_closed
  plan_append_closed-Effect db pend req s =
      if-elim (Effect pend req s) (not req.has_body) _ _
        (λ empty. refusal-Effect _ pend req s s (SameCore-refl s))
        (λ body. closed_producer-Effect db pend req req.producer s)

  check_producer-core :
      (db : Db) (pend : Pending) (close : Bool) (p : Option ProducerHeaders) (s : Streamer)
      → SameCore s (check_producer store parse_media_type db pend close p s).1
  unfolding check_producer
  check_producer-core db pend close none s = SameCore-refl s
  check_producer-core db pend close (some h) s = eff_producer-core store db pend h.id s

  check_stream_seq-core :
      (db : Db) (pend : Pending) (v : Option Bytes) (s : Streamer)
      → SameCore s (check_stream_seq store parse_media_type db pend v s).1
  unfolding check_stream_seq
  check_stream_seq-core db pend none s = SameCore-refl s
  check_stream_seq-core db pend (some v) s = eff_writer_seq-core store db pend s

  plan_checked-Effect :
      (db : Db) (pend : Pending) (req : AppendReq) (v : Verdict) (s t : Streamer)
      → pend.closed ≡ false
      → SameCore s t
      → Effect pend req s (plan_checked store parse_media_type db pend req (v, t))
  unfolding plan_checked
  plan_checked-Effect db pend req (refuse resp) s t still_open c =
      refusal-Effect resp pend req s t c
  plan_checked-Effect db pend req (proceed np) s t still_open c =
      let checked = check_stream_seq store parse_media_type db pend req.stream_seq t in
      let core = SameCore-trans s t checked.1 c (check_stream_seq-core db pend req.stream_seq t) in
      elim (Bool-cases checked.0) [
        | inl increasing ↦ rw increasing (admit-Effect s checked.1 pend req np core still_open)
        | inr stale ↦ rw stale (refusal-Effect (bare 409) pend req s checked.1 core)
      ]

  open-Effect :
      (db : Db) (pend : Pending) (req : AppendReq) (s : Streamer)
      → pend.closed ≡ false
      → Effect pend req s (
          plan_checked store parse_media_type db pend req
            (check_producer store parse_media_type db pend req.close_stream req.producer s))
  open-Effect db pend req s still_open =
      let checked = check_producer store parse_media_type db pend req.close_stream req.producer s in
      plan_checked-Effect db pend req checked.0 s checked.1 still_open
        (check_producer-core db pend req.close_stream req.producer s)

  -- Planning an append, on every path, leaves the streamer's id, metadata, tails and closure as they
  -- were. If it is refused, the view of the burst is unchanged. If it is accepted, the view was open,
  -- the records are numbered from the view's tail on, which advances past them, the view is closed
  -- exactly if the request closes, and the answer names the new tail.
  pub plan_append-Effect :
      (db : Db) (pend : Pending) (req : AppendReq) (s : Streamer)
      → Effect pend req s (plan_append store parse_media_type db pend req s)
  unfolding plan_append
  plan_append-Effect db pend req s =
      if-elim (Effect pend req s) pend.closed _ _
        (λ closed. plan_append_closed-Effect db pend req s)
        (λ still_open.
          if-elim (Effect pend req s) _ _ _
            (λ mismatch. refusal-Effect (bare 409) pend req s s (SameCore-refl s))
            (λ matches. open-Effect db pend req s still_open))
