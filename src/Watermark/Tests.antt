-- ===== src/Watermark/Tests.antt =====
-- Completions out of order.
use yasdb.Prelude.{ℕ, List, [], ◌∷◌, ◌≡◌, refl, arith}
use yasdb.Watermark.{new, mark_all, mark, advance, add_all, member, remove}
use yasdb.Watermark.Prefix.{IsPrefix, mark_all-IsPrefix}

abbrev calls : List (List ℕ)
calls = (3 ∷ 1 ∷ []) ∷ (5 ∷ 2 ∷ []) ∷ []

three : (mark_all calls new).value ≡ 3
unfolding mark_all mark advance add_all member remove
three = refl

mark_all-IsPrefix_example : IsPrefix (3 ∷ 1 ∷ 5 ∷ 2 ∷ []) (mark_all calls new).value
mark_all-IsPrefix_example = mark_all-IsPrefix calls (omega arith)
