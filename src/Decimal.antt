-- ===== src/Decimal.antt =====
-- Decimal numbers in headers and tokens: `parseStrictUint` and `parseProducerInt` of
-- internal/ds/handlers.go, `appendPad16` of internal/ds/offset.go, over `strconv.ParseUint(s, 10, 64)`.
pub mod Laws
mod Tests
use yasdb.Prelude.{
  ℕ, zero, suc, ◌+◌, ◌-◌, ◌*◌, ◌/◌, ◌%◌, ◌^◌, Bool, true, false, ◌&&◌, ◌||◌, not, Option, none,
  some, [], ◌∷◌, ◌++◌, ltb, leb, ◌==◌, if◌then◌else◌,
}
use yasdb.Prelude.Bytes.{Bytes}

abbrev pub is_digit : ℕ → Bool
is_digit c = leb b'0' c && leb c b'9'

-- The digits left to read, behind the value of those read. A value of 2 ^ 64 or more is ErrRange.
unfoldable pub parse_digits : ℕ → Bytes → Option ℕ
parse_digits n [] = some n
parse_digits n (c ∷ s) =
    let n1 = n * 10 + (c - b'0') in
    let rest = parse_digits n1 s in
    if is_digit c then (if ltb n1 (2 ^ 64) then rest else none) else none

-- `strconv.ParseUint(s, 10, 64)`: neither a sign nor an underscore is allowed in base 10.
unfoldable pub parse_uint : Bytes → Option ℕ
unfolding parse_digits
parse_uint [] = none
parse_uint (c ∷ s) = parse_digits 0 (c ∷ s)

all_digits : Bytes → Bool
all_digits [] = true
all_digits (c ∷ s) = let rest = all_digits s in (is_digit c && rest)

-- A first digit '0' with another one behind it.
leading_zero : Bytes → Bool
leading_zero [] = false
leading_zero (c ∷ []) = false
leading_zero (c ∷ d ∷ s) = c == b'0'

is_empty : Bytes → Bool
is_empty [] = true
is_empty (c ∷ s) = false

unfoldable pub parse_strict_uint : Bytes → Option ℕ
unfolding parse_uint all_digits leading_zero is_empty
parse_strict_uint s =
    if is_empty s
    then none
    else (if leading_zero s then none else (if all_digits s then parse_uint s else none))

abbrev pub max_js_int : ℕ
max_js_int = 2 ^ 53 - 1

at_most : ℕ → Option ℕ → Option ℕ
at_most bound none = none
at_most bound (some n) = if ltb bound n then none else some n

unfoldable pub parse_producer_int : Bytes → Option ℕ
unfolding at_most
parse_producer_int s = at_most max_js_int (parse_strict_uint s)

-- The last n decimal digits of v: the loop of `appendPad16` at n = 16, from the last digit on.
unfoldable pub pad_digits : ℕ → ℕ → Bytes
pad_digits zero v = []
pad_digits (suc n) v = pad_digits n (v / 10) ++ (b'0' + v % 10) ∷ []

unfoldable pub append_pad16 : Bytes → ℕ → Bytes
append_pad16 dst v = dst ++ pad_digits 16 v
