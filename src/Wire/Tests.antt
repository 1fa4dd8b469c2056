-- ===== src/Wire/Tests.antt =====
-- Runs of the big-endian formats.
use yasdb.Prelude.{◌≡◌, refl, [], ◌∷◌}
use yasdb.Wire.{be, be64}

be64_run : be64 258 ≡ 0 ∷ 0 ∷ 0 ∷ 0 ∷ 0 ∷ 0 ∷ 1 ∷ 2 ∷ []
unfolding be64 be
be64_run = refl
