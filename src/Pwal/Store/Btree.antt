-- ===== src/Pwal/Store/Btree.antt =====
-- `btree.BTreeG` of a library, as internal/ds/pwalstore.go uses it: an ordered index by keys.
use yasdb.Prelude.{◌≡◌, refl, Option, none, some, if◌then◌else◌}
use yasdb.Prelude.Bytes.{Bytes, bytes_eq}

-- `NewG`, `Get`, `ReplaceOrInsert` and `Delete`, and what they document.
pub record Tree (V : Type 0) : Type 1 where
  pub T : Type 0
  pub empty : T
  pub find : Bytes → T → Option V
  pub insert : Bytes → V → T → T
  pub delete : Bytes → T → T
  pub find-empty : (k : Bytes) → find k empty ≡ none
  pub find-insert :
      (k j : Bytes) (v : V) (t : T)
      → find k (insert j v t) ≡ (if bytes_eq j k then some v else find k t)
  pub find-delete :
      (k j : Bytes) (t : T) → find k (delete j t) ≡ (if bytes_eq j k then none else find k t)

-- An index as a function, for examples.
abbrev pub function_tree : (V : Type 0) → Tree V
function_tree V = record {
  T = Bytes → Option V;
  empty = λ k. none;
  find = λ k t. t k;
  insert = λ j v t k. if bytes_eq j k then some v else t k;
  delete = λ j t k. if bytes_eq j k then none else t k;
  find-empty = λ k. refl;
  find-insert = λ k j v t. refl;
  find-delete = λ k j t. refl;
}
