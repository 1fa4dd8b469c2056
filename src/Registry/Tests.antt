-- ===== src/Registry/Tests.antt =====
-- Two paths, a stale removal, a removal and a drain.
use yasdb.Prelude.{◌≡◌, refl, List, [], ◌∷◌}
use yasdb.Prelude.Bytes.{Bytes}
use yasdb.Prelude.Map.{lookup}
use yasdb.Registry.{
  Op, getting, removing, setting, removing_current, draining, new, get, run, fnv1a, fnv1a_from,
}
use yasdb.Registry.OneMap.{one_run, SameAnswers, run-one_map}

-- "a" hashes to 0xE40C292C.
fnv1a_value : fnv1a (b'a' ∷ []) ≡ 3826002220
unfolding fnv1a fnv1a_from
fnv1a_value = refl

abbrev ops : List Op
ops =
    setting (b'a' ∷ []) 1
    ∷ setting (b'b' ∷ []) 2
    ∷ setting (b'a' ∷ []) 3
    ∷ removing_current (b'a' ∷ []) 1
    ∷ getting (b'a' ∷ [])
    ∷ removing (b'b' ∷ [])
    ∷ draining
    ∷ getting (b'a' ∷ [])
    ∷ []

run-one_map_example :
    SameAnswers (run ops new).0 (one_run ops []).0
    × ((p : Bytes) → get p (run ops new).1 ≡ lookup p (one_run ops []).1)
run-one_map_example = run-one_map ops
