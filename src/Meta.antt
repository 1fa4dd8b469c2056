-- ===== src/Meta.antt =====
-- The stored values: internal/ds/meta.go. An `int64` is its two's complement pattern, a number below
-- 2 ^ 64, so that the conversions `uint64(x)` and `int64(u)` keep it.
pub mod RoundTrip
mod Tests
use yasdb.Prelude.{
  ℕ, ◌+◌, ◌/◌, ◌%◌, ◌^◌, Bool, true, false, not, [], ◌∷◌, ◌++◌, ltb, ◌==◌, if◌then◌else◌, length,
  take, drop, Result, ok, err, bad_meta, ◌>>=◌,
}
use yasdb.Prelude.Bytes.{Bytes}
use yasdb.Wire.{be64, be_uint, append_u16, append_u64}

-- `StreamMeta`.
pub record StreamMeta : Type 0 where
  pub stream_id : ℕ
  pub content_type : Bytes
  pub ttl_seconds : ℕ
  pub expires_at : ℕ
  pub closed : Bool
  pub created_at_ms : ℕ
  pub is_private : Bool
  pub deadline : ℕ
  pub forked_from : ℕ
  pub fork_offset : ℕ
  pub fork_byte : ℕ

abbrev pub stream_meta_version : ℕ
stream_meta_version = 3

-- `metaFlagClosed` is bit 0, and `metaFlagPrivate` bit 1.
flag_bits : Bool → Bool → ℕ
flag_bits closed private = (if closed then 1 else 0) + (if private then 2 else 0)

unfoldable pub marshal : StreamMeta → Bytes
unfolding append_u16 append_u64 flag_bits
marshal m =
    let buf = stream_meta_version ∷ flag_bits m.closed m.is_private ∷ [] in
    let buf1 = append_u64 buf m.stream_id in
    let buf2 = append_u64 buf1 m.ttl_seconds in
    let buf3 = append_u64 buf2 m.expires_at in
    let buf4 = append_u64 buf3 m.created_at_ms in
    let buf5 = append_u64 buf4 m.forked_from in
    let buf6 = append_u64 buf5 m.fork_offset in
    let buf7 = append_u64 buf6 m.fork_byte in
    let buf8 = append_u64 buf7 m.deadline in
    append_u16 buf8 (length m.content_type % 2 ^ 16) ++ m.content_type

-- The closure `rdU64` on what is left, `b[p:]`: the number, and what is left behind it.
unfoldable pub rd_u64 : Bytes → Result (ℕ × Bytes)
rd_u64 b = if ltb (length b) 8 then err bad_meta else ok (be_uint (take 8 b), drop 8 b)

-- The content type at the end, with its length in front.
unfoldable pub rd_content_type : Bytes → Result Bytes
rd_content_type b =
    if ltb (length b) 2
    then err bad_meta
    else let ct_len = be_uint (take 2 b) in
      if ltb (length b) (2 + ct_len) then err bad_meta else ok (take ct_len (drop 2 b))

abbrev rd_fields : ℕ → Bytes → Result StreamMeta
rd_fields flags b = do
  (stream_id, b1) ← rd_u64 b
  (ttl_seconds, b2) ← rd_u64 b1
  (expires_at, b3) ← rd_u64 b2
  (created_at_ms, b4) ← rd_u64 b3
  (forked_from, b5) ← rd_u64 b4
  (fork_offset, b6) ← rd_u64 b5
  (fork_byte, b7) ← rd_u64 b6
  (deadline, b8) ← rd_u64 b7
  content_type ← rd_content_type b8
  ok (record {
    stream_id = stream_id;
    content_type = content_type;
    ttl_seconds = ttl_seconds;
    expires_at = expires_at;
    closed = flags % 2 == 1;
    created_at_ms = created_at_ms;
    is_private = flags / 2 % 2 == 1;
    deadline = deadline;
    forked_from = forked_from;
    fork_offset = fork_offset;
    fork_byte = fork_byte;
  })

unfoldable pub unmarshal_meta : Bytes → Result StreamMeta
unmarshal_meta [] = err bad_meta
unmarshal_meta (version ∷ []) = err bad_meta
unmarshal_meta (version ∷ flags ∷ b) =
    if version == stream_meta_version then rd_fields flags b else err bad_meta

unfoldable pub marshal_tail : ℕ → ℕ → Bytes
marshal_tail seq updated = be64 seq ++ be64 updated

unfoldable pub unmarshal_tail : Bytes → Result (ℕ × ℕ)
unmarshal_tail b =
    if ltb (length b) 16 then err bad_meta else ok (be_uint (take 8 b), be_uint (take 8 (drop 8 b)))

-- `producerState`.
pub record ProducerState : Type 0 where
  pub epoch : ℕ
  pub last_seq : ℕ
  pub closed_by : Bool

unfoldable pub marshal_producer : ProducerState → Bytes
marshal_producer s = be64 s.epoch ++ (be64 s.last_seq ++ (if s.closed_by then 1 else 0) ∷ [])

-- `b[16] != 0`
nonzero_at : Bytes → Bool
nonzero_at [] = false
nonzero_at (c ∷ b) = not (c == 0)

unfoldable pub unmarshal_producer : Bytes → Result ProducerState
unfolding nonzero_at
unmarshal_producer b =
    if ltb (length b) 17
    then err bad_meta
    else ok (record {
      epoch = be_uint (take 8 b);
      last_seq = be_uint (take 8 (drop 8 b));
      closed_by = nonzero_at (drop 16 b);
    })

abbrev pub rec_flag_none : ℕ
rec_flag_none = 0

unfoldable pub marshal_record : ℕ → Bytes → Bytes
marshal_record flags payload = flags ∷ payload

unfoldable pub record_payload : Bytes → Bytes
record_payload [] = []
record_payload (flags ∷ payload) = payload
