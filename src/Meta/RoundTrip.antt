-- ===== src/Meta/RoundTrip.antt =====
-- What is stored is read back: each `unmarshal` undoes its `marshal`.
use yasdb.Prelude.{
  ℕ, ◌+◌, ◌*◌, ◌/◌, ◌%◌, ◌^◌, ◌<◌, ◌≡◌, subst, Bool, [], ◌∷◌, ◌++◌, ◌==◌, if◌then◌else◌, length,
  take, drop, length-append, take-append, drop-append, take_all, append_assoc, ok, arith,
}
use yasdb.Prelude.Bytes.{Bytes}
use yasdb.Wire.{be64, be_uint, be_uint_from}
use yasdb.Wire.Laws.{length-be64, be_uint-be64}
use yasdb.Meta.{
  StreamMeta, marshal, unmarshal_meta, rd_u64, rd_content_type, marshal_tail, unmarshal_tail,
  ProducerState, marshal_producer, unmarshal_producer, nonzero_at, flag_bits,
}

pub take-be64 : (v : ℕ) (rest : Bytes) → take 8 (be64 v ++ rest) ≡ be64 v
take-be64 v rest =
    subst (λ n. take n (be64 v ++ rest) ≡ be64 v) (length-be64 v) (take-append (be64 v) rest)

pub drop-be64 : (v : ℕ) (rest : Bytes) → drop 8 (be64 v ++ rest) ≡ rest
drop-be64 v rest =
    subst (λ n. drop n (be64 v ++ rest) ≡ rest) (length-be64 v) (drop-append (be64 v) rest)

pub length-be64-append : (v : ℕ) (rest : Bytes) → length (be64 v ++ rest) ≡ 8 + length rest
length-be64-append v rest = omega (arith, length-append {0} (be64 v) rest, length-be64 v)

pub rd_u64-be64 : (v : ℕ) (rest : Bytes) → v < 2 ^ 64 → rd_u64 (be64 v ++ rest) ≡ ok (v, rest)
unfolding rd_u64
rd_u64-be64 v rest h =
    rw (take-be64 v rest, drop-be64 v rest, be_uint-be64 v h)
      (ground (arith, length-be64-append v rest))

pub rd_content_type_lem :
    (ct : Bytes)
    → length ct < 2 ^ 16
    → rd_content_type (length ct % 2 ^ 16 / 2 ^ 8 % 256 ∷ length ct % 2 ^ 16 % 256 ∷ ct) ≡ ok ct
unfolding rd_content_type be_uint be_uint_from
rd_content_type_lem ct h =
    let size : (0 * 256 + length ct % 2 ^ 16 / 2 ^ 8 % 256) * 256 + length ct % 2 ^ 16 % 256
        ≡ length ct =
      omega arith in
    rw (size, take_all (length ct) ct (omega arith)) (ground arith)

-- The fields are 64 bits wide, and the content type's length fits its 16 bits.
pub record IsWellFormed (m : StreamMeta) : Type 0 where
  pub stream_id : m.stream_id < 2 ^ 64
  pub ttl_seconds : m.ttl_seconds < 2 ^ 64
  pub expires_at : m.expires_at < 2 ^ 64
  pub created_at_ms : m.created_at_ms < 2 ^ 64
  pub forked_from : m.forked_from < 2 ^ 64
  pub fork_offset : m.fork_offset < 2 ^ 64
  pub fork_byte : m.fork_byte < 2 ^ 64
  pub deadline : m.deadline < 2 ^ 64
  pub content_type : length m.content_type < 2 ^ 16

closed_bit : (c p : Bool) → flag_bits c p % 2 == 1 ≡ c
unfolding flag_bits
closed_bit c p = ground arith

private_bit : (c p : Bool) → flag_bits c p / 2 % 2 == 1 ≡ p
unfolding flag_bits
private_bit c p = ground arith

-- A stream's metadata is read back as it was stored, if its numbers are below 2 ^ 64 and its
-- content type is shorter than 2 ^ 16 bytes.
pub unmarshal_meta-marshal : (m : StreamMeta) → IsWellFormed m → unmarshal_meta (marshal m) ≡ ok m
unfolding unmarshal_meta marshal
unmarshal_meta-marshal m w = simp append_assoc (
    simp (
      rd_u64-be64 m.stream_id _ w.stream_id,
      rd_u64-be64 m.ttl_seconds _ w.ttl_seconds,
      rd_u64-be64 m.expires_at _ w.expires_at,
      rd_u64-be64 m.created_at_ms _ w.created_at_ms,
      rd_u64-be64 m.forked_from _ w.forked_from,
      rd_u64-be64 m.fork_offset _ w.fork_offset,
      rd_u64-be64 m.fork_byte _ w.fork_byte,
      rd_u64-be64 m.deadline _ w.deadline,
      rd_content_type_lem m.content_type w.content_type,
      closed_bit,
      private_bit,
    ))

-- A stream's tail and the time of its update, below 2 ^ 64, are read back as they were stored.
pub unmarshal_tail-marshal_tail :
    (seq updated : ℕ)
    → seq < 2 ^ 64
    → updated < 2 ^ 64
    → unmarshal_tail (marshal_tail seq updated) ≡ ok (seq, updated)
unfolding unmarshal_tail marshal_tail
unmarshal_tail-marshal_tail seq updated h k =
    rw
      (
        take-be64 seq (be64 updated),
        drop-be64 seq (be64 updated),
        take_all 8 (be64 updated) (omega (arith, length-be64 updated)),
        be_uint-be64 seq h,
        be_uint-be64 updated k,
      )
      (ground (arith, length-be64-append seq (be64 updated), length-be64 updated))

drop_16 : (a b : ℕ) (rest : Bytes) → drop 16 (be64 a ++ (be64 b ++ rest)) ≡ rest
drop_16 a b rest = rw (← append_assoc (be64 a) (be64 b) rest) (
    subst (λ n. drop n ((be64 a ++ be64 b) ++ rest) ≡ rest) {y = 16}
      (omega (arith, length-append {0} (be64 a) (be64 b), length-be64 a, length-be64 b))
      (drop-append (be64 a ++ be64 b) rest))

-- A producer's state is read back as it was stored, if its epoch and number are below 2 ^ 64.
pub unmarshal_producer-marshal_producer :
    (s : ProducerState)
    → s.epoch < 2 ^ 64
    → s.last_seq < 2 ^ 64
    → unmarshal_producer (marshal_producer s) ≡ ok s
unfolding unmarshal_producer marshal_producer nonzero_at
unmarshal_producer-marshal_producer s h k =
    let flag : Bytes = (if s.closed_by then 1 else 0) ∷ [] in
    rw
      (
        take-be64 s.epoch (be64 s.last_seq ++ flag),
        drop-be64 s.epoch (be64 s.last_seq ++ flag),
        take-be64 s.last_seq flag,
        drop_16 s.epoch s.last_seq flag,
        be_uint-be64 s.epoch h,
        be_uint-be64 s.last_seq k,
      )
      (ground (
        arith,
        length-be64-append s.epoch (be64 s.last_seq ++ flag),
        length-be64-append s.last_seq flag,
      ))
