-- ===== src/Cursor/Tests.antt =====
-- A client that echoes the current interval.
use yasdb.Prelude.{ℕ, ◌+◌, ◌<◌, ◌^◌, ◌≡◌, refl, some, [], ◌∷◌, arith}
use yasdb.Prelude.Bytes.{Bytes}
use yasdb.Decimal.{parse_uint, parse_digits}
use yasdb.Cursor.{compute_cursor, next_cursor, format_uint, format_digits}

abbrev echoed : Bytes
echoed = b'1' ∷ b'2' ∷ []

advanced : compute_cursor echoed (some 250) 7 ≡ b'2' ∷ b'0' ∷ []
unfolding compute_cursor next_cursor format_uint format_digits parse_uint parse_digits
advanced = refl

-- The largest number is followed by a small one.
wrapped :
    compute_cursor
      (b'1' ∷ b'8' ∷ b'4' ∷ b'4' ∷ b'6' ∷ b'7' ∷ b'4' ∷ b'4' ∷ b'0' ∷ b'7' ∷ b'3' ∷ b'7' ∷ b'0'
        ∷ b'9' ∷ b'5' ∷ b'5' ∷ b'1' ∷ b'6' ∷ b'1' ∷ b'5' ∷ [])
      (some 250)
      7
    ≡ b'7' ∷ []
unfolding compute_cursor next_cursor format_uint format_digits parse_uint parse_digits
wrapped = refl

echoed_small : (c : ℕ) → parse_uint echoed ≡ some c → c + 180 < 2 ^ 64
unfolding parse_uint parse_digits
echoed_small c e = let same : 12 ≡ c = cc in omega (arith, same)
