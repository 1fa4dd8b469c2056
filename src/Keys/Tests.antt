-- ===== src/Keys/Tests.antt =====
-- The theorems on keys at concrete keys.
use yasdb.Prelude.{◌≡◌, refl, some, [], ◌∷◌, arith, leb, ◌&&◌, ◌==◌}
use yasdb.Keys.{record_key, record_prefix_end, prefix_end}
use yasdb.Keys.Order.{in_range, has_prefix, in_range-prefix_end, in_range-record_key}
use yasdb.Keys.Distinct.{key_bytes_injective, record_data}

prefix_end_run : prefix_end (4 ∷ 255 ∷ 255 ∷ []) ≡ some (5 ∷ [])
unfolding prefix_end
prefix_end_run = refl

in_range-prefix_end_example :
    in_range (4 ∷ 255 ∷ []) (prefix_end (4 ∷ 255 ∷ [])) (4 ∷ 255 ∷ 7 ∷ [])
    ≡ has_prefix (4 ∷ 255 ∷ []) (4 ∷ 255 ∷ 7 ∷ [])
in_range-prefix_end_example =
    in_range-prefix_end (4 ∷ 255 ∷ []) (4 ∷ 255 ∷ 7 ∷ []) (omega arith) (omega arith)

in_range-record_key_example :
    in_range (record_key 7 2) (record_prefix_end 7) (record_key 7 3) ≡ (7 == 7 && leb 2 3)
in_range-record_key_example =
    in_range-record_key 7 2 7 3 (omega arith) (omega arith) (omega arith) (omega arith)

key_bytes_injective_example : record_data 7 2 ≡ record_data 7 2
key_bytes_injective_example =
    key_bytes_injective (record_data 7 2) (record_data 7 2) (omega arith) (omega arith) refl
