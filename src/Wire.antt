-- ===== src/Wire.antt =====
-- The fixed-width integers of the stored and sent formats: `be64` of internal/ds/keys.go,
-- `be64Decode` of internal/ds/server.go, `appendU16`, `appendU64` and `parseU64Value` of
-- internal/ds/meta.go, over `encoding/binary`'s big-endian order.
pub mod Laws
mod Tests
use yasdb.Prelude.{
  ℕ, zero, suc, ◌+◌, ◌*◌, ◌/◌, ◌%◌, ◌^◌, List, [], ◌∷◌, ◌++◌, ltb, if◌then◌else◌, take, length,
  Result, ok, err, bad_meta,
}
use yasdb.Prelude.Bytes.{Bytes}

-- The low n bytes of v, most significant first: `binary.BigEndian.PutUint64` at n = 8.
unfoldable pub be : ℕ → ℕ → Bytes
be zero v = []
be (suc n) v = be n (v / 256) ++ v % 256 ∷ []

unfoldable pub be64 : ℕ → Bytes
be64 v = be 8 v

-- A big-endian number behind an accumulator: `binary.BigEndian.Uint16`, `Uint32`, `Uint64`.
unfoldable pub be_uint_from : ℕ → Bytes → ℕ
be_uint_from acc [] = acc
be_uint_from acc (c ∷ cs) = be_uint_from (acc * 256 + c) cs

unfoldable pub be_uint : Bytes → ℕ
unfolding be_uint_from
be_uint b = be_uint_from 0 b

-- The loop of `be64Decode`: `v = v<<8 | uint64(c)`, on 64 bits. The low byte of `v<<8` is 0, so `|`
-- adds.
unfoldable pub be64_decode_from : ℕ → Bytes → ℕ
be64_decode_from v [] = v
be64_decode_from v (c ∷ cs) = be64_decode_from (v * 256 % 2 ^ 64 + c) cs

unfoldable pub be64_decode : Bytes → ℕ
unfolding be64_decode_from
be64_decode b = be64_decode_from 0 b

unfoldable pub append_u16 : Bytes → ℕ → Bytes
append_u16 b v = b ++ v / 2 ^ 8 % 256 ∷ v % 256 ∷ []

unfoldable pub append_u64 : Bytes → ℕ → Bytes
append_u64 b v = b ++ be64 v

unfoldable pub u64_value : ℕ → Bytes
u64_value v = be64 v

unfoldable pub parse_u64_value : Bytes → Result ℕ
unfolding be_uint
parse_u64_value b = if ltb (length b) 8 then err bad_meta else ok (be_uint (take 8 b))
