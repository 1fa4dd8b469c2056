-- ===== src/Offset.antt =====
-- Positions in a stream and their tokens: internal/ds/offset.go.
pub mod Token
mod Tests
use yasdb.Prelude.{
  ℕ, Bool, true, false, ◌&&◌, ◌||◌, not, Option, none, some, [], ◌∷◌, ◌++◌, ◌==◌, if◌then◌else◌,
  length, take, drop, get_elem?, Result, ok, err, bad_offset,
}
use yasdb.Prelude.Bytes.{Bytes, bytes_eq}
use yasdb.Decimal.{append_pad16, parse_uint}

pub record Offset : Type 0 where
  pub seq : ℕ
  pub byte : ℕ

abbrev pub offset_token_len : ℕ
offset_token_len = 33

unfoldable pub append_offset : Bytes → Offset → Bytes
unfolding append_pad16
append_offset dst o = append_pad16 (append_pad16 dst o.seq ++ b'_' ∷ []) o.byte

-- `Offset.String`.
unfoldable pub to_string : Offset → Bytes
unfolding append_offset
to_string o = append_offset [] o

abbrev pub tail_offset : ℕ → Offset
tail_offset next_seq = record { seq = next_seq; byte = 0 }

pub record ParsedOffset : Type 0 where
  pub off : Offset
  pub is_now : Bool

-- raw[16] == '_'
separated : Option ℕ → Bool
separated none = false
separated (some c) = c == b'_'

-- The two `strconv.ParseUint` results.
both_numbers : Option ℕ → Option ℕ → Result ParsedOffset
both_numbers none b = err bad_offset
both_numbers (some seq) none = err bad_offset
both_numbers (some seq) (some boff) =
    ok (record { off = record { seq = seq; byte = boff }; is_now = false })

parse_token : Bytes → Result ParsedOffset
unfolding both_numbers separated
parse_token raw =
    if length raw == offset_token_len && separated (get_elem? raw 16)
    then both_numbers (parse_uint (take 16 raw)) (parse_uint (drop 17 raw))
    else err bad_offset

unfoldable pub parse_offset : Bytes → Result ParsedOffset
unfolding parse_token bytes_eq
parse_offset raw =
    if bytes_eq raw [] || bytes_eq raw (b'-' ∷ b'1' ∷ [])
    then ok (record { off = record { seq = 0; byte = 0 }; is_now = false })
    else (if bytes_eq raw (b'n' ∷ b'o' ∷ b'w' ∷ [])
        then ok (record { off = record { seq = 0; byte = 0 }; is_now = true })
        else parse_token raw)
