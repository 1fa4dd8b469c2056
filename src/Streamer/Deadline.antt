-- ===== src/Streamer/Deadline.antt =====
-- The sliding deadline of a stream with a TTL, `slideTTL` of internal/ds/streamer.go.
use yasdb.Prelude.{ℕ, ◌+◌, ◌*◌, ◌^◌, ◌≤◌, ◌<◌, ◌≡◌, ◌⊎◌, inl, inr, sym, subst, arith}
use yasdb.Streamer.{Pending, granularity, slide_ttl}

-- A deadline that is padded past a time by a quarter of the TTL, rounded down, but by 1 second at least and
-- by 600 at most.
pub record IsPadded (ttl time deadline : ℕ) : Type 0 where
  pub later : time < deadline
  pub capped : deadline ≤ time + 600
  pub not_more : (deadline ≡ time + 1) ⊎ (4 * deadline ≤ 4 * time + ttl)
  pub not_less : (deadline ≡ time + 600) ⊎ (4 * time + ttl < 4 * deadline + 4)

pub granularity-IsPadded : (ttl time : ℕ) → IsPadded ttl time (time + granularity ttl)
granularity-IsPadded ttl time = record {
  later = ground arith;
  capped = ground arith;
  not_more = ground arith;
  not_less = ground arith;
}

slide_ttl-cases :
    (ttl : ℕ) (pend : Pending)
    → 0 < ttl
    → pend.now + ttl + 600 < 2 ^ 64
    → ((pend.now + ttl < pend.deadline) × ((slide_ttl ttl pend).deadline ≡ pend.deadline))
      ⊎ ((pend.deadline ≤ pend.now + ttl)
          × ((slide_ttl ttl pend).deadline ≡ pend.now + ttl + granularity ttl))
unfolding slide_ttl
slide_ttl-cases ttl pend pos small = ground arith

-- After an accepted append of a stream with a TTL the deadline lies beyond now + TTL, so the stream does
-- not expire early, and it never moved back; it moved only if it lay at or before now + TTL, and then to
-- a quarter of the TTL past that, rounded down, but by 1 second at least and by 600 at most. Times are below
-- 2 ^ 64.
pub slide_ttl_bounds :
    (ttl : ℕ) (pend : Pending)
    → 0 < ttl
    → pend.now + ttl + 600 < 2 ^ 64
    → (pend.now + ttl < (slide_ttl ttl pend).deadline)
      × (pend.deadline ≤ (slide_ttl ttl pend).deadline)
      × (((slide_ttl ttl pend).deadline ≡ pend.deadline)
          ⊎ ((pend.deadline ≤ pend.now + ttl)
              × IsPadded ttl (pend.now + ttl) (slide_ttl ttl pend).deadline))
slide_ttl_bounds ttl pend pos small = elim (slide_ttl-cases ttl pend pos small) [
  | inl (ahead, same) ↦ (omega arith, omega arith, inl same)
  | inr (due, slid) ↦
      let p = granularity-IsPadded ttl (pend.now + ttl) in
      let later = p.later in
      (omega arith, omega arith, inr (due, subst (IsPadded ttl (pend.now + ttl)) (sym slid) p))
]
