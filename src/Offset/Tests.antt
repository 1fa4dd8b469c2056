-- ===== src/Offset/Tests.antt =====
-- Tokens of concrete positions.
use yasdb.Prelude.{◌≡◌, refl, true, false, [], ◌∷◌, ok, err, bad_offset, arith}
use yasdb.Offset.{Offset, to_string, parse_offset}
use yasdb.Offset.Token.{parse_offset-to_string}

abbrev mid_record : Offset
mid_record = record { seq = 42; byte = 1024 }

abbrev next_record : Offset
next_record = record { seq = 43; byte = 0 }

now_is_tail :
    parse_offset (b'n' ∷ b'o' ∷ b'w' ∷ [])
    ≡ ok (record { off = record { seq = 0; byte = 0 }; is_now = true })
unfolding parse_offset
now_is_tail = refl

short_is_malformed : parse_offset (b'7' ∷ []) ≡ err bad_offset
unfolding parse_offset
short_is_malformed = refl

parse_offset-to_string_example :
    parse_offset (to_string mid_record) ≡ ok (record { off = mid_record; is_now = false })
parse_offset-to_string_example = parse_offset-to_string mid_record (omega arith) (omega arith)
