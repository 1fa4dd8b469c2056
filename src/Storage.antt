-- ===== src/Storage.antt =====
-- The persistence vertical: `Op` and the interface `Storage` of internal/ds/storage.go. The engine
-- behind it (SlateDB) is not part of the repository, so its operations are a parameter, with what the
-- interface documents as laws: a batch is applied atomically, wholly or, where the commit answers with an
-- error, perhaps not at all, and a scan gives the keys in order.
pub mod View
pub mod Memory
use yasdb.Prelude.{
  ℕ, Bool, true, false, ◌&&◌, ◌≡◌, ◌⊎◌, Option, none, some, List, [], ◌∷◌, if◌then◌else◌, Result,
  ok, err, Err,
}
use yasdb.Prelude.Bytes.{Bytes, bytes_eq, lex_lt}
use yasdb.Keys.Order.{in_range}

pub record Op : Type 0 where
  pub key : Bytes
  pub val : Bytes
  pub del : Bool

-- `Op{Key: k, Val: v}` and `Op{Key: k, Del: true}`.
abbrev pub put : Bytes → Bytes → Op
put k v = record { key = k; val = v; del = false }

abbrev pub delete : Bytes → Op
delete k = record { key = k; val = []; del = true }

-- The contents of a store, as a client can read them.
abbrev pub View : Type 0
View = Bytes → Option Bytes

-- One mutation, then a batch of them in order: a later one wins.
abbrev pub apply_op : Op → View → View
apply_op op view k = if bytes_eq op.key k then (if op.del then none else some op.val) else view k

unfoldable pub apply_ops : List Op → View → View
apply_ops [] view = view
apply_ops (op ∷ ops) view = apply_ops ops (apply_op op view)

-- A batch is atomic, but a commit may fail behind its write, when it awaits the durability: an error
-- tells a client only that the store has nothing of the batch or all of it.
abbrev pub AllOrNothing : List Op → View → View → Type 0
AllOrNothing ops before after =
    ((k : Bytes) → after k ≡ before k) ⊎ ((k : Bytes) → after k ≡ apply_ops ops before k)

-- Ascending keys, each once.
abbrev pub IsAscending : List (Bytes × Bytes) → Type 0
IsAscending [] = Unit
IsAscending ((k, v) ∷ []) = Unit
IsAscending ((k, v) ∷ (j, w) ∷ rest) = (lex_lt k j ≡ true) × IsAscending ((j, w) ∷ rest)

-- The value that a list of rows has for a key: the first one.
abbrev pub row_value : Bytes → List (Bytes × Bytes) → Option Bytes
row_value k [] = none
row_value k ((j, v) ∷ rows) = let rest = row_value k rows in if bytes_eq j k then some v else rest

pub record Storage : Type 1 where
  pub Db : Type 0
  pub view : Db → View
  pub get : Db → Bytes → Result (Option Bytes)
  pub commit : Db → List Op → Bool → Result (Unit {0}) × Db
  pub commit_async : Db → List Op → Result ℕ × Db
  pub scan : Db → Bytes → Option Bytes → Result (List (Bytes × Bytes))
  pub get-view : (d : Db) (k : Bytes) {o : Option Bytes} → get d k ≡ ok o → o ≡ view d k
  pub commit-ok :
      (d : Db) (ops : List Op) (await : Bool) (k : Bytes)
      → (commit d ops await).0 ≡ ok tt
      → view (commit d ops await).1 k ≡ apply_ops ops (view d) k
  pub commit-err :
      (d : Db) (ops : List Op) (await : Bool) {e : Err}
      → (commit d ops await).0 ≡ err e
      → AllOrNothing ops (view d) (view (commit d ops await).1)
  pub commit_async-ok :
      (d : Db) (ops : List Op) {n : ℕ} (k : Bytes)
      → (commit_async d ops).0 ≡ ok n
      → view (commit_async d ops).1 k ≡ apply_ops ops (view d) k
  pub commit_async-err :
      (d : Db) (ops : List Op) {e : Err}
      → (commit_async d ops).0 ≡ err e
      → AllOrNothing ops (view d) (view (commit_async d ops).1)
  pub scan-ascending :
      (d : Db) (start : Bytes) (end : Option Bytes) {rows : List (Bytes × Bytes)}
      → scan d start end ≡ ok rows
      → IsAscending rows
  pub scan-view :
      (d : Db) (start : Bytes) (end : Option Bytes) {rows : List (Bytes × Bytes)} (k : Bytes)
      → scan d start end ≡ ok rows
      → row_value k rows ≡ (if in_range start end k then view d k else none)
