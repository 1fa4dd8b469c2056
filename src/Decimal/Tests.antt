-- ===== src/Decimal/Tests.antt =====
-- The parsers at concrete texts.
use yasdb.Prelude.{◌≡◌, refl, none, some, [], ◌∷◌}
use yasdb.Decimal.{parse_strict_uint}

strict_accepts : parse_strict_uint (b'1' ∷ b'2' ∷ b'0' ∷ []) ≡ some 120
unfolding parse_strict_uint
strict_accepts = refl

strict_refuses_padding : parse_strict_uint (b'0' ∷ b'7' ∷ []) ≡ none
unfolding parse_strict_uint
strict_refuses_padding = refl
