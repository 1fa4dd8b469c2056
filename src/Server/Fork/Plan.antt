-- ===== src/Server/Fork/Plan.antt =====
-- Planning a fork: the first half of `createFork` of internal/ds/fork.go, up to the divergence. `fuel`
-- bounds the chain of forks under the source; a read that runs out of it counts as failed.
pub mod Within
use yasdb.Prelude.{
  ℕ, ◌+◌, ◌%◌, ◌^◌, Bool, true, false, ◌&&◌, ◌||◌, Option, none, some, [], ◌∷◌, ltb, leb, ◌==◌,
  if◌then◌else◌, length, Result, ok, err,
}
use yasdb.Prelude.Bytes.{Bytes}
use yasdb.Meta.{StreamMeta}
use yasdb.Decimal.{parse_strict_uint}
use yasdb.Offset.{Offset, ParsedOffset, parse_offset, tail_offset}
use yasdb.Storage.{Storage}
use yasdb.ContentType.{content_type_matches, is_json_stream}
use yasdb.Server.{
  refusal, no_message, msg_fork_offset, msg_beyond_stream, msg_sub_offset, msg_needs_offset,
  msg_empty_source, msg_overshoots_count, msg_overshoots_length, Stage, stop, go, and_then, or_500,
  positive, load_meta, load_tail_seq, check_tombstone,
}
use yasdb.Server.Fork.{record_at}

pub record ForkParams : Type 0 where
  pub path : Bytes
  pub source_path : Bytes
  pub fork_offset_raw : Bytes
  pub sub_offset_raw : Bytes
  pub sub_offset_set : Bool
  pub content_type : Bytes
  pub ttl : ℕ
  pub ttl_set : Bool
  pub expires_at : ℕ
  pub expires_set : Bool
  pub closed : Bool
  pub body : Bytes

abbrev pub is_empty : Bytes → Bool
is_empty [] = true
is_empty (c ∷ cs) = false

-- The TTL in seconds, and the time of expiry.
unfoldable pub fork_ttl : StreamMeta → ForkParams → ℕ × ℕ
fork_ttl src p =
    if p.ttl_set
    then (p.ttl, 0)
    else (if p.expires_set
        then (0, p.expires_at)
        else (if ltb 0 src.ttl_seconds
            then (src.ttl_seconds, 0)
            else (if positive src.expires_at then (0, src.expires_at) else (0, 0))))

offset_of : ℕ → Result ParsedOffset → Stage Offset
offset_of source_tail (err e) = stop (refusal 400 msg_fork_offset)
offset_of source_tail (ok po) = go (if po.is_now then tail_offset source_tail else po.off)

within : ℕ → Offset → Stage Offset
within source_tail o =
    if ltb source_tail o.seq || (o.seq == source_tail && ltb 0 o.byte)
    then stop (refusal 400 msg_beyond_stream)
    else go o

unfoldable pub fork_position : ℕ → ForkParams → Stage Offset
unfolding offset_of within
fork_position source_tail p =
    and_then
      (if is_empty p.fork_offset_raw
        then go (tail_offset source_tail)
        else offset_of source_tail (parse_offset p.fork_offset_raw))
      (within source_tail)

sub_offset_of : ℕ → ForkParams → Option ℕ → Stage ℕ
sub_offset_of source_tail p none = stop (refusal 400 msg_sub_offset)
sub_offset_of source_tail p (some n) =
    if ltb 0 n && is_empty p.fork_offset_raw
    then stop (refusal 400 msg_needs_offset)
    else (if ltb 0 n && source_tail == 0 then stop (refusal 400 msg_empty_source) else go n)

unfoldable pub sub_offset : ℕ → ForkParams → Stage ℕ
unfolding sub_offset_of
sub_offset source_tail p =
    if p.sub_offset_set
    then sub_offset_of source_tail p (parse_strict_uint p.sub_offset_raw)
    else go 0

-- What `recordAt` gives, with the end of the fuel as a failure.
unfoldable pub read_payload : Option (Result (Option Bytes)) → Stage (Option Bytes)
read_payload none = stop (refusal 500 no_message)
read_payload (some r) = or_500 r

-- The divergence within or behind a record of the source.
in_payload : Offset → ℕ → Option Bytes → Stage (ℕ × ℕ)
in_payload o combined none = stop (refusal 400 msg_overshoots_length)
in_payload o combined (some payload) =
    if ltb (length payload) combined
    then stop (refusal 400 msg_overshoots_length)
    else (if combined == length payload then go ((o.seq + 1) % 2 ^ 64, 0) else go (o.seq, combined))

json_divergence : ℕ → Offset → ℕ → Stage (ℕ × ℕ)
json_divergence source_tail o sub =
    let seq = (o.seq + sub) % 2 ^ 64 in
    if ltb source_tail seq then stop (refusal 400 msg_overshoots_count) else go (seq, 0)

found_source : Option StreamMeta → Stage StreamMeta
found_source none = stop (refusal 404 no_message)
found_source (some src) = go src

-- What the planning of a fork found: the source and its tail, the content type, and the divergence.
pub record ForkPlan : Type 0 where
  pub source : StreamMeta
  pub content_type : Bytes
  pub divergence : ℕ × ℕ

module _ (store : Storage) (parse_media_type : Bytes → Option Bytes) where
  open store use {Db}

  unfoldable pub load_source : Db → ForkParams → Stage StreamMeta
  unfolding found_source
  load_source db p = and_then (check_tombstone store db p.path) (λ free.
      and_then (check_tombstone store db p.source_path)
        (λ alive. and_then (or_500 (load_meta store db p.source_path)) found_source))

  unfoldable pub fork_content_type : StreamMeta → ForkParams → Stage Bytes
  fork_content_type src p =
      if is_empty p.content_type
      then go src.content_type
      else (if content_type_matches parse_media_type src.content_type p.content_type
          then go p.content_type
          else stop (refusal 409 no_message))

  -- The divergence of a fork of a binary stream.
  unfoldable pub binary_divergence : ℕ → Db → ℕ → ℕ → Offset → ℕ → Stage (ℕ × ℕ)
  unfolding in_payload read_payload
  binary_divergence fuel db source source_tail o sub =
      let combined = (o.byte + sub) % 2 ^ 64 in
      if combined == 0
      then go (o.seq, o.byte)
      else (if leb source_tail o.seq
          then stop (refusal 400 msg_overshoots_length)
          else and_then (read_payload (record_at store fuel db source o.seq))
              (in_payload o combined))

  divergence : ℕ → Db → StreamMeta → ℕ → Offset → ℕ → Stage (ℕ × ℕ)
  unfolding binary_divergence json_divergence
  divergence fuel db src source_tail o sub =
      if is_json_stream parse_media_type src.content_type
      then json_divergence source_tail o sub
      else binary_divergence fuel db src.stream_id source_tail o sub

  unfoldable pub plan_fork : ℕ → Db → ForkParams → Stage ForkPlan
  unfolding divergence load_source fork_content_type fork_position sub_offset
  plan_fork fuel db p = and_then (load_source db p) (λ src.
      and_then (or_500 (load_tail_seq store db src.stream_id)) (λ tail.
        and_then (fork_content_type src p) (λ content_type. and_then (fork_position tail p) (λ o.
          and_then (sub_offset tail p) (λ sub. and_then (divergence fuel db src tail o sub) (λ div.
            go (record { source = src; content_type = content_type; divergence = div })))))))
