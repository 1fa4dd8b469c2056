-- ===== src/LiveCache/Tests.antt =====
-- A window of two records, and a third one behind them.
use yasdb.Prelude.{[], ◌∷◌}
use yasdb.LiveCache.{LiveCache, new, append}
use yasdb.LiveCache.Window.{IsWindow, append-IsWindow, new-IsWindow}

abbrev two : LiveCache
two = append 4 ((b'a' ∷ []) ∷ (b'b' ∷ []) ∷ []) (new 2 100)

append-IsWindow_example : IsWindow (append 6 ((b'c' ∷ []) ∷ []) two)
append-IsWindow_example =
    append-IsWindow 6 ((b'c' ∷ []) ∷ []) two
      (append-IsWindow 4 ((b'a' ∷ []) ∷ (b'b' ∷ []) ∷ []) (new 2 100) (new-IsWindow 2 100))
