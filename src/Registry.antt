-- ===== src/Registry.antt =====
-- The table of resident streamers, in shards by a hash of the path: internal/ds/registry.go. A streamer
-- is a number, its pointer, and `none` is nil, which is never registered. The shards are a function of their number.
-- The locks only make an operation on a shard atomic.
pub mod OneMap
pub mod Parts
mod Tests
use Prim.Native.Nat.{bit_xor}
use yasdb.Prelude.{
  ℕ, zero, suc, ◌+◌, ◌-◌, ◌*◌, ◌%◌, ◌^◌, Bool, true, false, Option, none, some, List, [], ◌∷◌, ◌++◌,
  ◌==◌, if◌then◌else◌,
}
use yasdb.Prelude.Bytes.{Bytes}
use yasdb.Prelude.Map.{Map, lookup, insert, remove}

abbrev pub registry_shard_count : ℕ
registry_shard_count = 64

abbrev pub Registry : Type 0
Registry = ℕ → Map ℕ

abbrev pub new : Registry
new i = []

-- The loop of `fnv1a`, on 32 bits.
unfoldable pub fnv1a_from : ℕ → Bytes → ℕ
fnv1a_from h [] = h
fnv1a_from h (c ∷ s) = fnv1a_from (bit_xor h c * 16777619 % 2 ^ 32) s

unfoldable pub fnv1a : Bytes → ℕ
fnv1a s = fnv1a_from 2166136261 s

unfoldable pub shard_for : Bytes → ℕ
shard_for path = fnv1a path % registry_shard_count

unfoldable pub set_shard : ℕ → Map ℕ → Registry → Registry
set_shard i m r j = if j == i then m else r j

unfoldable pub get : Bytes → Registry → Option ℕ
get path r = lookup path (r (shard_for path))

unfoldable pub set : Bytes → ℕ → Registry → Registry
set path st r = set_shard (shard_for path) (insert path st (r (shard_for path))) r

abbrev pub is_current : ℕ → Option ℕ → Bool
is_current st none = false
is_current st (some cur) = cur == st

unfoldable pub delete_if_current : Bytes → ℕ → Registry → Registry
delete_if_current path st r =
    let i = shard_for path in
    if is_current st (lookup path (r i)) then set_shard i (remove path (r i)) r else r

-- What is registered is returned, or `none` for nil, and removed.
unfoldable pub delete_found : Option ℕ → Bytes → Registry → Registry
delete_found none path r = r
delete_found (some st) path r = set_shard (shard_for path) (remove path (r (shard_for path))) r

unfoldable pub delete_and_return : Bytes → Registry → Option ℕ × Registry
delete_and_return path r =
    let found = lookup path (r (shard_for path)) in (found, delete_found found path r)

abbrev pub values : Map ℕ → List ℕ
values [] = []
values ((path, st) ∷ m) = st ∷ values m

-- The first n shards, emptied.
unfoldable pub drain_from : ℕ → Registry → List ℕ × Registry
drain_from zero r = ([], r)
drain_from (suc n) r = let rest = drain_from n r in (rest.0 ++ values (r n), set_shard n [] rest.1)

unfoldable pub drain : Registry → List ℕ × Registry
drain r = drain_from registry_shard_count r

-- The operations.
pub data Op : Type 0 where
  getting removing : Bytes → Op
  setting removing_current : Bytes → ℕ → Op
  draining : Op

-- Nothing, a streamer or nil, or every resident streamer.
pub data OpResult : Type 0 where
  silent : OpResult
  found : Option ℕ → OpResult
  drained : List ℕ → OpResult

unfoldable pub step : Op → Registry → OpResult × Registry
step (getting path) r = (found (get path r), r)
step (setting path st) r = (silent, set path st r)
step (removing_current path st) r = (silent, delete_if_current path st r)
step (removing path) r = let out = delete_and_return path r in (found out.0, out.1)
step draining r = let out = drain r in (drained out.0, out.1)

unfoldable pub run : List Op → Registry → List OpResult × Registry
run [] r = ([], r)
run (op ∷ ops) r = let s = step op r in let rest = run ops s.1 in (s.0 ∷ rest.0, rest.1)
