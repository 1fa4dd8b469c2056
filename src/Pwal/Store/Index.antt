-- ===== src/Pwal/Store/Index.antt =====
-- What a batch does to a key, in the index and in the view: its last op for the key decides.
use yasdb.Prelude.{
  ℕ, ◌≡◌, refl, ap, sym, ◌∙◌, Bool, true, false, Option, none, some, List, [], ◌∷◌, if◌then◌else◌,
  Bool-cases, inl, inr,
}
use yasdb.Prelude.Bytes.{Bytes, bytes_eq, bytes_eq→eq}
use yasdb.Storage.{Op, View, apply_op, apply_ops}
use yasdb.Pwal.Shard.{ValueLoc}
use yasdb.Pwal.Store.{Place, place_of, index_ops}
use yasdb.Pwal.Store.Btree.{Tree}
use yasdb.Pwal.Store.Located.{last_for, later_or}

abbrev pub value_after : Option Op → Option Bytes → Option Bytes
value_after none old = old
value_after (some op) old = if op.del then none else some op.val

value_after-later_or :
    (a b : Option Op) (old : Option Bytes)
    → value_after (later_or a b) old ≡ value_after a (value_after b old)
value_after-later_or none b old = refl
value_after-later_or (some op) b old = refl

value_after-op :
    (k : Bytes) (op : Op) (view : View)
    → apply_op op view k ≡ value_after (if bytes_eq op.key k then some op else none) (view k)
value_after-op k op view = elim (Bool-cases (bytes_eq op.key k)) [
  | inl same ↦ rw same refl
  | inr other ↦ rw other refl
]

pub apply_ops-last_for :
    (k : Bytes) (ops : List Op) (view : View)
    → apply_ops ops view k ≡ value_after (last_for k ops) (view k)
unfolding apply_ops
apply_ops-last_for k [] view = refl
apply_ops-last_for k (op ∷ ops) view =
    apply_ops-last_for k ops (apply_op op view)
    ∙ ap (value_after (last_for k ops)) (value_after-op k op view)
    ∙ sym (value_after-later_or (last_for k ops) _ (view k))

module _ (M : Tree Place) where
  abbrev pub place_after : Place → Option Op → Option Place → Option Place
  place_after p none old = old
  place_after p (some op) old = if op.del then none else some p

  place_after-later_or :
      (p : Place) (a b : Option Op) (old : Option Place)
      → place_after p (later_or a b) old ≡ place_after p a (place_after p b old)
  place_after-later_or p none b old = refl
  place_after-later_or p (some op) b old = refl

  decided :
      (p : Place) (op : Op) (b del : Bool) (old : Option Place)
      → op.del ≡ del
      → (if b then (if del then none else some p) else old)
        ≡ place_after p (if b then some op else none) old
  decided p op true del old e = ap (λ d. if d then none else some p) (sym e)
  decided p op false del old e = refl

  for_key :
      (k j : Bytes) (i : ℕ) (locs : Bytes → ValueLoc) (old : Option Place)
      → (if bytes_eq j k then some (place_of i (locs j)) else old)
        ≡ (if bytes_eq j k then some (place_of i (locs k)) else old)
  for_key k j i locs old = elim (Bool-cases (bytes_eq j k)) [
    | inl same ↦
        ap (λ (c : Bytes). if bytes_eq j k then some (place_of i (locs c)) else old)
          (bytes_eq→eq j k same)
    | inr other ↦ rw other refl
  ]

  -- One round of the loop.
  place_after-op :
      (k : Bytes) (i : ℕ) (locs : Bytes → ValueLoc) (op : Op) (t : M.T)
      → M.find k
          (if op.del then M.delete op.key t else M.insert op.key (place_of i (locs op.key)) t)
        ≡ place_after
            (place_of i (locs k))
            (if bytes_eq op.key k then some op else none)
            (M.find k t)
  place_after-op k i locs op t =
      let after = λ (del : Bool).
        M.find k
          (if del then M.delete op.key t else M.insert op.key (place_of i (locs op.key)) t) in
      elim (Bool-cases op.del) [
        | inl del ↦
            ap after del
            ∙ M.find-delete k op.key t
            ∙ decided (place_of i (locs k)) op (bytes_eq op.key k) true (M.find k t) del
        | inr keep ↦
            ap after keep
            ∙ M.find-insert k op.key (place_of i (locs op.key)) t
            ∙ for_key k op.key i locs (M.find k t)
            ∙ decided (place_of i (locs k)) op (bytes_eq op.key k) false (M.find k t) keep
      ]

  pub find-index_ops :
      (k : Bytes) (i : ℕ) (locs : Bytes → ValueLoc) (ops : List Op) (t : M.T)
      → M.find k (index_ops M i locs ops t)
        ≡ place_after (place_of i (locs k)) (last_for k ops) (M.find k t)
  unfolding index_ops
  find-index_ops k i locs [] t = refl
  find-index_ops k i locs (op ∷ ops) t =
      find-index_ops k i locs ops _
      ∙ ap (place_after (place_of i (locs k)) (last_for k ops)) (place_after-op k i locs op t)
      ∙ sym (place_after-later_or (place_of i (locs k)) (last_for k ops) _ (M.find k t))
