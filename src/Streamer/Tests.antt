-- ===== src/Streamer/Tests.antt =====
-- A stream in memory: an append of an idempotent producer, its retry, and a closed stream.
use yasdb.Prelude.{
  ◌^◌, ℕ, ◌+◌, ◌≤◌, ◌<◌, ◌≡◌, ◌⊎◌, refl, Bool, true, false, Option, none, some, List, [], ◌∷◌,
  length, arith, engine, get_elem?,
}
use yasdb.Prelude.Bytes.{Bytes, bytes_eq}
use yasdb.Prelude.Map.{contains}
use yasdb.Meta.{StreamMeta}
use yasdb.Producer.{ProducerHeaders, validate_producer}
use yasdb.Storage.Memory.{memory, refusing}
use yasdb.ContentType.{content_type_matches, media_type, trim_space, to_lower}
use yasdb.Keys.{record_key}
use yasdb.Streamer.{
  AppendReq, AppendResp, bare, Streamer, Pending, slide_ttl, admit, producer_verdict,
}
use yasdb.Streamer.Load.{eff_producer}
use yasdb.Streamer.Load.Core.{SameCore}
use yasdb.Streamer.Plan.{plan_append}
use yasdb.Streamer.Plan.Effects.{Effect, plan_append-Effect}
use yasdb.Streamer.Burst.{
  CommitBurst, to_commit, plan_burst, plan_batch, burst_of, start_pending, no_effect,
}
use yasdb.Streamer.Burst.Numbers.{accepted_records}
use yasdb.Streamer.Commit.{run_sync, fail_job, stage_job}
use yasdb.Streamer.Commit.Durable.{Stored, run_sync-durable, run_sync-failed}
use yasdb.Streamer.Commit.Retry.{OldAnswer, retry_after_commit, retry_after_failure}
use yasdb.Streamer.Commit.Closed.{AllRefused, run_sync-closed}
use yasdb.Streamer.Deadline.{IsPadded, slide_ttl_bounds}

-- A parser of media types that accepts none, so that types compare in lower case.
abbrev no_parser : Bytes → Option Bytes
no_parser ct = none

abbrev meta : StreamMeta
meta = record {
  stream_id = 7;
  content_type = b'a' ∷ [];
  ttl_seconds = 60;
  expires_at = 0;
  closed = false;
  created_at_ms = 5;
  is_private = false;
  deadline = 1000;
  forked_from = 0;
  fork_offset = 0;
  fork_byte = 0;
}

abbrev fresh : Streamer
fresh = record {
  path = b'/' ∷ b's' ∷ [];
  id = 7;
  meta = meta;
  producers = [];
  producer_loaded = [];
  writer_seq = [];
  writer_seq_loaded = false;
  write_tail = 3;
  pending = 0;
  tail = 3;
  closed = false;
  live_readers = 0;
  wake_requests = 0;
  cache = none;
}

abbrev headers : ProducerHeaders
headers = record { id = b'p' ∷ []; epoch = 1; seq = 0 }

abbrev request : AppendReq
request = record {
  records = (b'x' ∷ []) ∷ (b'y' ∷ b'z' ∷ []) ∷ [];
  has_body = true;
  content_type = b'A' ∷ [];
  close_stream = false;
  stream_seq = none;
  producer = some headers;
}

abbrev planned_batch : List (AppendResp × Bool) × Bool × Pending × Streamer
planned_batch = plan_batch memory no_parser [] (request ∷ []) (start_pending fresh 2000) fresh

abbrev burst : CommitBurst
burst = burst_of planned_batch.3 planned_batch.2 planned_batch.0 planned_batch.1

planned :
    plan_burst memory no_parser [] 2000 (request ∷ []) fresh ≡ (to_commit burst, planned_batch.3)
unfolding plan_burst plan_batch plan_append no_effect admit eff_producer contains producer_verdict
    validate_producer content_type_matches bytes_eq media_type trim_space to_lower
planned = refl

two_accepted :
    accepted_records (request ∷ []) burst.responses ≡ (b'x' ∷ []) ∷ (b'y' ∷ b'z' ∷ []) ∷ []
unfolding planned accepted_records burst_of
two_accepted = refl

run_sync-durable_example :
    let r = run_sync memory no_parser [] 2000 (request ∷ []) fresh in
    let recs = accepted_records (request ∷ []) burst.responses in
    (r.0 ≡ burst.responses)
    × Stored fresh 2000 recs (memory.view r.1)
    × (r.2.tail ≡ 3 + length recs)
    × (r.2.write_tail ≡ 3 + length recs)
unfolding planned accepted_records burst_of
run_sync-durable_example =
    run_sync-durable memory no_parser [] 2000 (request ∷ []) fresh burst planned_batch.3
      (omega arith) (omega arith) planned refl

abbrev closed_stream : Streamer
closed_stream = record fresh { meta = record meta { closed = true } }

run_sync-closed_example :
    let r = run_sync memory no_parser [] 2000 (request ∷ []) closed_stream in
    AllRefused r.0 × (r.1 ≡ []) × SameCore closed_stream r.2
run_sync-closed_example = run_sync-closed memory no_parser [] 2000 (request ∷ []) closed_stream refl

abbrev answer : AppendResp
answer = record (bare 200) {
  next_offset = record { seq = 5; byte = 0 };
  producer_epoch = some 1;
  producer_seq = some 0;
}

accepted_alone : burst.responses ≡ (answer, true) ∷ []
unfolding planned burst_of
accepted_alone = refl

retry_after_commit_example :
    OldAnswer memory no_parser request headers
      (run_sync memory no_parser [] 2000 (request ∷ []) fresh).2
retry_after_commit_example =
    retry_after_commit memory no_parser [] 2000 request fresh headers burst planned_batch.3 answer
      (omega arith) refl refl planned accepted_alone refl

abbrev view_of_burst : Pending
view_of_burst = start_pending fresh 2000

slide_ttl_bounds_example :
    (2060 < (slide_ttl 60 view_of_burst).deadline)
    × (1000 ≤ (slide_ttl 60 view_of_burst).deadline)
    × (((slide_ttl 60 view_of_burst).deadline ≡ 1000)
        ⊎ ((1000 ≤ 2060) × IsPadded 60 2060 (slide_ttl 60 view_of_burst).deadline))
slide_ttl_bounds_example = slide_ttl_bounds 60 view_of_burst (omega arith) (omega arith)

abbrev refused_batch : List (AppendResp × Bool) × Bool × Pending × Streamer
refused_batch = plan_batch refusing no_parser [] (request ∷ []) (start_pending fresh 2000) fresh

abbrev refused_burst : CommitBurst
refused_burst = burst_of refused_batch.3 refused_batch.2 refused_batch.0 refused_batch.1

refused_planned :
    plan_burst refusing no_parser [] 2000 (request ∷ []) fresh
    ≡ (to_commit refused_burst, refused_batch.3)
unfolding planned
refused_planned = refl

refused_alone : refused_burst.responses ≡ (answer, true) ∷ []
unfolding planned burst_of
refused_alone = refl

retry_after_failure_example :
    let failed = fail_job (engine 1) refused_burst (stage_job refused_burst refused_batch.3) in
    (failed.0 ≡ (record (bare 500) { error = some (engine 1) }, true) ∷ [])
    × OldAnswer refusing no_parser request headers failed.1
retry_after_failure_example =
    retry_after_failure refusing no_parser [] 2000 request fresh headers refused_burst
      refused_batch.3 answer (engine 1) (omega arith) refl refl refused_planned refused_alone

refused_low :
    fresh.write_tail + length (accepted_records (request ∷ []) refused_burst.responses) < 2 ^ 64
unfolding planned accepted_records burst_of
refused_low = omega arith

run_sync-failed_example :
    let r = run_sync refusing no_parser [] 2000 (request ∷ []) fresh in
    ((i : ℕ) (resp : AppendResp)
      → get_elem? refused_burst.responses i ≡ some (resp, true)
      → get_elem? r.0 i ≡ some (record (bare 500) { error = some (engine 1) }, true))
    × ((i : ℕ) (resp : AppendResp)
        → get_elem? refused_burst.responses i ≡ some (resp, false)
        → get_elem? r.0 i ≡ some (resp, false))
    × SameCore fresh r.2
    × ((seq : ℕ)
        → seq < fresh.write_tail
        → refusing.view r.1 (record_key fresh.id seq) ≡ refusing.view [] (record_key fresh.id seq))
run_sync-failed_example =
    run_sync-failed refusing no_parser [] 2000 (request ∷ []) fresh refused_burst refused_batch.3
      (engine 1) (omega arith) refused_low refused_planned refl

plan_append-Effect_example :
    Effect view_of_burst request fresh (plan_append memory no_parser [] view_of_burst request fresh)
plan_append-Effect_example = plan_append-Effect memory no_parser [] view_of_burst request fresh
