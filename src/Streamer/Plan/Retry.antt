-- ===== src/Streamer/Plan/Retry.antt =====
-- An accepted append of an idempotent producer leaves a state under which its retry is a duplicate.
use yasdb.Prelude.{
  ◌^◌, ◌≤◌, ◌<◌, ◌≡◌, refl, ap, ◌∙◌, Bool, true, false, ◌&&◌, not, Option, none, some, [],
  if◌then◌else◌, arith, if-elim,
}
use yasdb.Prelude.Bytes.{Bytes}
use yasdb.Prelude.Map.{insert, contains}
use yasdb.Meta.{ProducerState}
use yasdb.Producer.{
  ProducerHeaders, ProducerAction, accept, duplicate, stale_epoch, bad_seq_start, gap,
  validate_producer, fresh_state,
}
use yasdb.Producer.Once.{accept-next}
use yasdb.Storage.{Storage}
use yasdb.ContentType.{content_type_matches}
use yasdb.Streamer.{
  AppendReq, bare, Streamer, Pending, Planned, admit, record_effects, echo, producer_verdict,
  record_producer,
}
use yasdb.Streamer.Load.{eff_producer}
use yasdb.Streamer.Load.Known.{Knows, known_state, eff_producer-loaded, eff_writer_seq-keeps}
use yasdb.Streamer.Plan.{plan_append, check_producer, check_stream_seq, plan_checked}
use yasdb.Streamer.Plan.Effects.{plan_append_closed-Effect, slide_ttl-fields}

old_is_duplicate :
    (st : ProducerState) (h : ProducerHeaders)
    → st.epoch ≡ h.epoch
    → h.seq ≤ st.last_seq
    → validate_producer (some st) h ≡ duplicate
unfolding validate_producer
old_is_duplicate st h e l = ground arith

-- There is a body, and it is not of the stream's content type; or else it fits.
abbrev pub mismatches : (Bytes → Option Bytes) → Streamer → AppendReq → Bool
mismatches parse_media_type s req =
    req.has_body && not (content_type_matches parse_media_type s.meta.content_type req.content_type)

abbrev pub fits : (Bytes → Option Bytes) → Streamer → AppendReq → Bool
fits parse_media_type s req = not (mismatches parse_media_type s req)

true_and_false : (b : Bool) → b ≡ true → b ≡ false → ⊥
true_and_false b p q = cc

-- What an accepted append with a producer leaves behind in its burst and in the caches.
pub record Accepted (parse_media_type : Bytes → Option Bytes) (h : ProducerHeaders) (s : Streamer)
    (req : AppendReq) (p : Planned) : Type 0 where
  pub st : ProducerState
  pub producers : p.2.producers ≡ some (insert h.id st [])
  pub epoch : st.epoch ≡ h.epoch
  pub seq : st.last_seq ≡ h.seq
  pub loaded : contains h.id p.3.producer_loaded ≡ true
  pub fit : fits parse_media_type s req ≡ true

module _ (store : Storage) (parse_media_type : Bytes → Option Bytes) where
  open store use {Db}

  known_checked :
      (db : Db) (pend : Pending) (req : AppendReq) (s : Streamer) (h : ProducerHeaders)
      (st : ProducerState)
      → pend.producers ≡ none
      → req.producer ≡ some h
      → Knows s h st
      → plan_checked store parse_media_type db pend req
          (check_producer store parse_media_type db pend req.close_stream req.producer s)
        ≡ (echo pend.tail pend.closed st, false, pend, s)
  unfolding plan_checked check_producer producer_verdict
  known_checked db pend req s h st fresh has k =
      simp (has, known_state store db pend s h st fresh k, old_is_duplicate st h k.epoch k.not_new)

  -- At the start of a burst on an open stream, a request that the streamer knows as an old one is
  -- answered 204 with the highest number applied, and nothing is done.
  pub plan_append-known :
      (db : Db) (pend : Pending) (req : AppendReq) (s : Streamer) (h : ProducerHeaders)
      (st : ProducerState)
      → pend.closed ≡ false
      → pend.producers ≡ none
      → fits parse_media_type s req ≡ true
      → req.producer ≡ some h
      → Knows s h st
      → plan_append store parse_media_type db pend req s
        ≡ (echo pend.tail pend.closed st, false, pend, s)
  unfolding plan_append
  plan_append-known db pend req s h st still_open fresh fit has k =
      let Known : Planned → Type 0 = λ r. r ≡ (echo pend.tail pend.closed st, false, pend, s) in
      if-elim Known pend.closed _ _
        (λ closed. absurd (true_and_false pend.closed closed still_open))
        (λ o.
          if-elim Known (mismatches parse_media_type s req) _ _
            (λ mismatch. absurd (true_and_false _ fit (rw mismatch)))
            (λ ok. known_checked db pend req s h st fresh has k))

  stream_seq_Accepted :
      (db : Db) (pend : Pending) (req : AppendReq) (s t : Streamer) (h : ProducerHeaders)
      (st : ProducerState)
      → pend.producers ≡ none
      → req.producer ≡ some h
      → fits parse_media_type s req ≡ true
      → st.epoch ≡ h.epoch
      → st.last_seq ≡ h.seq
      → contains h.id t.producer_loaded ≡ true
      → (r : Bool × Streamer) → r.1.producer_loaded ≡ t.producer_loaded
      → (if r.0 then admit r.1 pend req (some st) else (bare 409, false, pend, r.1)).1 ≡ true
      → Accepted parse_media_type h s req
          (if r.0 then admit r.1 pend req (some st) else (bare 409, false, pend, r.1))
  unfolding admit record_effects record_producer
  stream_seq_Accepted db pend req s t h st fresh has fit ep sq loaded (false, u) same a = cc
  stream_seq_Accepted db pend req s t h st fresh has fit ep sq loaded (true, u) same a = record {
    st = st;
    producers =
        (slide_ttl-fields u.meta.ttl_seconds (record_effects u pend req (some st))).3
        ∙ simp (has, fresh);
    epoch = ep;
    seq = sq;
    loaded = rw same loaded;
    fit = fit;
  }

  check_stream_seq-loaded :
      (db : Db) (pend : Pending) (v : Option Bytes) (t : Streamer)
      → (check_stream_seq store parse_media_type db pend v t).1.producer_loaded ≡ t.producer_loaded
  unfolding check_stream_seq
  check_stream_seq-loaded db pend none t = refl
  check_stream_seq-loaded db pend (some v) t = (eff_writer_seq-keeps store db pend t).0

  verdict_Accepted :
      (db : Db) (pend : Pending) (req : AppendReq) (s t : Streamer) (h : ProducerHeaders)
      (o : Option ProducerState) (act : ProducerAction)
      → h.seq < 2 ^ 64
      → validate_producer o h ≡ act
      → pend.producers ≡ none
      → req.producer ≡ some h
      → fits parse_media_type s req ≡ true
      → contains h.id t.producer_loaded ≡ true
      → let p =
          plan_checked store parse_media_type db pend req
            (producer_verdict pend req.close_stream o act, t) in
        p.1 ≡ true → Accepted parse_media_type h s req p
  unfolding producer_verdict plan_checked
  verdict_Accepted db pend req s t h o (stale_epoch n) b e fresh has fit loaded a = cc
  verdict_Accepted db pend req s t h o bad_seq_start b e fresh has fit loaded a = cc
  verdict_Accepted db pend req s t h o (gap m n) b e fresh has fit loaded a = cc
  verdict_Accepted db pend req s t h o duplicate b e fresh has fit loaded a = cc
  verdict_Accepted db pend req s t h o (accept ns) b e fresh has fit loaded a =
      let shape : ns ≡ fresh_state h.epoch h.seq = (accept-next o h ns b e).1 in
      stream_seq_Accepted db pend req s t h (record ns { closed_by = req.close_stream }) fresh has
        fit (ap (λ (n : ProducerState). n.epoch) shape)
        (ap (λ (n : ProducerState). n.last_seq) shape) loaded
        (check_stream_seq store parse_media_type db pend req.stream_seq t)
        (check_stream_seq-loaded db pend req.stream_seq t) a

  checked_Accepted :
      (db : Db) (pend : Pending) (req : AppendReq) (s : Streamer) (h : ProducerHeaders)
      → h.seq < 2 ^ 64
      → pend.producers ≡ none
      → req.producer ≡ some h
      → fits parse_media_type s req ≡ true
      → let p =
          plan_checked store parse_media_type db pend req
            (check_producer store parse_media_type db pend req.close_stream req.producer s) in
        p.1 ≡ true → Accepted parse_media_type h s req p
  unfolding check_producer
  checked_Accepted db pend req s h b fresh has fit =
      let found = eff_producer store db pend h.id s in
      simp has (
        verdict_Accepted db pend req s found.1 h found.0 (validate_producer found.0 h) b refl fresh
          has fit (eff_producer-loaded store db pend h.id s fresh))

  -- At the start of a burst, an append with a producer is accepted only with its state recorded.
  pub plan_append-Accepted :
      (db : Db) (pend : Pending) (req : AppendReq) (s : Streamer) (h : ProducerHeaders)
      → h.seq < 2 ^ 64
      → pend.producers ≡ none
      → req.producer ≡ some h
      → (plan_append store parse_media_type db pend req s).1 ≡ true
      → Accepted parse_media_type h s req (plan_append store parse_media_type db pend req s)
  unfolding plan_append
  plan_append-Accepted db pend req s h b fresh has =
      let Goal : Planned → Type 0 = λ r. r.1 ≡ true → Accepted parse_media_type h s req r in
      if-elim Goal pend.closed _ _
        (λ closed a. absurd (
          true_and_false pend.closed closed
            ((plan_append_closed-Effect store parse_media_type db pend req s).open_before a)))
        (λ o.
          if-elim Goal (mismatches parse_media_type s req) _ _ (λ mismatch a. cc)
            (λ ok. checked_Accepted db pend req s h b fresh has (ap not ok)))
