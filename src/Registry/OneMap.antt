-- ===== src/Registry/OneMap.antt =====
-- The shards are one map: no operation shows how the paths are spread.
use yasdb.Prelude.{
  ℕ, ◌<◌, ◌≡◌, refl, ap, sym, ◌∙◌, subst, Bool, false, Option, none, some, List, [], ◌∷◌, ◌==◌,
  if◌then◌else◌, Bool-cases, inl, inr, arith,
}
use yasdb.Prelude.Bytes.{Bytes}
use yasdb.Prelude.Map.{Map, lookup, insert, remove}
use yasdb.Registry.{
  Registry, new, shard_for, set_shard, get, set, is_current, delete_if_current, delete_found,
  delete_and_return, values, drain, Op, getting, removing, setting, removing_current, draining,
  OpResult, silent, found, drained, step, run,
}
use yasdb.Registry.Parts.{
  part, lookup-part, insert-part, insert-part_other, remove-part, remove-part_other, remove-absent,
  occurrences, drain_from-occurrences, drain_from-empty, shard_for_bound,
}

-- The operations on one map from paths to streamers.
abbrev pub one_step : Op → Map ℕ → OpResult × Map ℕ
one_step (getting path) m = (found (lookup path m), m)
one_step (setting path st) m = (silent, insert path st m)
one_step (removing_current path st) m =
    (silent, if is_current st (lookup path m) then remove path m else m)
one_step (removing path) m = (found (lookup path m), remove path m)
one_step draining m = (drained (values m), [])

abbrev pub one_run : List Op → Map ℕ → List OpResult × Map ℕ
one_run [] m = ([], m)
one_run (op ∷ ops) m = let s = one_step op m in let rest = one_run ops s.1 in (s.0 ∷ rest.0, rest.1)

-- The same answer, but for the order of the streamers of a drain: each is there as often.
abbrev pub SameAnswer : OpResult → OpResult → Type 0
SameAnswer silent silent = Unit
SameAnswer (found a) (found b) = a ≡ b
SameAnswer (drained a) (drained b) = (st : ℕ) → occurrences st a ≡ occurrences st b
SameAnswer a b = ⊥

abbrev pub SameAnswers : List OpResult → List OpResult → Type 0
SameAnswers [] [] = Unit
SameAnswers (x ∷ xs) (y ∷ ys) = SameAnswer x y × SameAnswers xs ys
SameAnswers xs ys = ⊥

-- Each of the 64 shards holds its part of the map.
Holds : Map ℕ → Registry → Type 0
Holds m r = (i : ℕ) → i < 64 → r i ≡ part i m

Holds-get : (path : Bytes) (m : Map ℕ) (r : Registry) → Holds m r → get path r ≡ lookup path m
unfolding get Holds
Holds-get path m r h =
    ap (lookup path) (h (shard_for path) (shard_for_bound path)) ∙ lookup-part path m

-- A change of the path's shard, and of nothing else.
Holds-set_shard :
    (path : Bytes) (m n shard : Map ℕ) (r : Registry)
    → Holds m r
    → shard ≡ part (shard_for path) n
    → ((i : ℕ) → (shard_for path == i) ≡ false → part i n ≡ part i m)
    → Holds n (set_shard (shard_for path) shard r)
unfolding set_shard Holds
Holds-set_shard path m n shard r h here there i low = elim (Bool-cases (i == shard_for path)) [
  | inl same ↦
      let e : shard_for path ≡ i = ground (arith, same) in rw same (here ∙ ap (λ j. part j n) e)
  | inr other ↦ rw other (h i low ∙ sym (there i (ground (arith, other))))
]

Holds-insert :
    (path : Bytes) (st : ℕ) (m : Map ℕ) (r : Registry)
    → Holds m r
    → Holds (insert path st m) (set path st r)
unfolding set Holds
Holds-insert path st m r h =
    Holds-set_shard path m (insert path st m) (insert path st (r (shard_for path))) r h
      (ap (insert path st) (h (shard_for path) (shard_for_bound path))
        ∙ sym (insert-part path st m))
      (insert-part_other path st m)

Holds-remove :
    (path : Bytes) (m : Map ℕ) (r : Registry)
    → Holds m r
    → Holds (remove path m) (set_shard (shard_for path) (remove path (r (shard_for path))) r)
unfolding Holds
Holds-remove path m r h =
    Holds-set_shard path m (remove path m) (remove path (r (shard_for path))) r h
      (ap (remove path) (h (shard_for path) (shard_for_bound path)) ∙ sym (remove-part path m))
      (remove-part_other path m)

Holds-delete_if_current :
    (path : Bytes) (st : ℕ) (m : Map ℕ) (r : Registry)
    → Holds m r
    → Holds
        (if is_current st (lookup path m) then remove path m else m)
        (delete_if_current path st r)
unfolding delete_if_current get
Holds-delete_if_current path st m r h =
    let Outcome = λ (b : Bool).
      Holds (if b then remove path m else m)
        (if b then set_shard (shard_for path) (remove path (r (shard_for path))) r else r) in
    let current = is_current st (lookup path (r (shard_for path))) in
    subst
      (λ old.
        Holds (if is_current st old then remove path m else m)
          (if current then set_shard (shard_for path) (remove path (r (shard_for path))) r else r))
      (Holds-get path m r h)
      (elim (Bool-cases current) [
        | inl same ↦ subst Outcome (sym same) (Holds-remove path m r h)
        | inr other ↦ subst Outcome (sym other) h
      ])

Holds-delete_found :
    (old : Option ℕ) (path : Bytes) (m : Map ℕ) (r : Registry)
    → old ≡ lookup path m
    → Holds m r
    → Holds (remove path m) (delete_found old path r)
unfolding delete_found
Holds-delete_found none path m r e h = subst (λ n. Holds n r) (sym (remove-absent path m (sym e))) h
Holds-delete_found (some st) path m r e h = Holds-remove path m r h

drain-Holds :
    (m : Map ℕ) (r : Registry)
    → Holds m r
    → ((st : ℕ) → occurrences st (drain r).0 ≡ occurrences st (values m)) × Holds [] (drain r).1
unfolding drain Holds part
drain-Holds m r h = (λ st. drain_from-occurrences st m r h, λ i low. drain_from-empty 64 r i low)

step-Holds :
    (op : Op) (m : Map ℕ) (r : Registry)
    → Holds m r
    → SameAnswer (step op r).0 (one_step op m).0 × Holds (one_step op m).1 (step op r).1
unfolding step delete_and_return get
step-Holds (getting path) m r h = (Holds-get path m r h, h)
step-Holds (setting path st) m r h = (tt, Holds-insert path st m r h)
step-Holds (removing_current path st) m r h = (tt, Holds-delete_if_current path st m r h)
step-Holds (removing path) m r h =
    let same = Holds-get path m r h in
    (same, Holds-delete_found (lookup path (r (shard_for path))) path m r same h)
step-Holds draining m r h = drain-Holds m r h

run-Holds :
    (ops : List Op) (m : Map ℕ) (r : Registry)
    → Holds m r
    → SameAnswers (run ops r).0 (one_run ops m).0 × Holds (one_run ops m).1 (run ops r).1
unfolding run
run-Holds [] m r h = (tt, h)
run-Holds (op ∷ ops) m r h =
    let (same, holds) = step-Holds op m r h in
    let (rest, end) = run-Holds ops (one_step op m).1 (step op r).1 holds in ((same, rest), end)

-- Every sequence of operations on a new registry, from its 64 shards, gives the answers of one map from
-- paths to streamers, the streamers that a drain returns included, each as often, in some order; and it
-- leaves for every path what that map has: a path is never looked for in another shard than it was put
-- in, a streamer that is no longer the current one removes nothing, and a drain returns all that is
-- resident and empties all of it.
pub run-one_map :
    (ops : List Op)
    → SameAnswers (run ops new).0 (one_run ops []).0
      × ((p : Bytes) → get p (run ops new).1 ≡ lookup p (one_run ops []).1)
unfolding part Holds
run-one_map ops =
    let (same, end) = run-Holds ops [] new (λ i low. refl) in
    (same, λ p. Holds-get p (one_run ops []).1 (run ops new).1 end)
