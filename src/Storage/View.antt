-- ===== src/Storage/View.antt =====
-- Batches: what a key holds after one.
use yasdb.Prelude.{false, ◌≡◌, refl, ◌∙◌, inl, inr, List, [], ◌∷◌, ◌++◌, All}
use yasdb.Prelude.Bytes.{Bytes, bytes_eq}
use yasdb.Storage.{Op, View, apply_op, apply_ops, AllOrNothing}

pub apply_ops-append :
    (a b : List Op) (view : View) → apply_ops (a ++ b) view ≡ apply_ops b (apply_ops a view)
unfolding apply_ops
apply_ops-append [] b view = refl
apply_ops-append (op ∷ a) b view = apply_ops-append a b (apply_op op view)

-- No operation of the batch is on the key.
abbrev pub Untouched : Bytes → List Op → Type 0
Untouched k = All (λ (op : Op). bytes_eq op.key k ≡ false)

pub apply_ops-Untouched :
    (k : Bytes) (ops : List Op) (view : View) → Untouched k ops → apply_ops ops view k ≡ view k
unfolding apply_ops
apply_ops-Untouched k [] view h = refl
apply_ops-Untouched k (op ∷ ops) view h = apply_ops-Untouched k ops (apply_op op view) h.1 ∙ rw h.0

-- Whatever became of the batch.
pub AllOrNothing-Untouched :
    (k : Bytes) (ops : List Op) (before after : View)
    → AllOrNothing ops before after
    → Untouched k ops
    → after k ≡ before k
AllOrNothing-Untouched k ops before after (inl nothing) h = nothing k
AllOrNothing-Untouched k ops before after (inr all) h = all k ∙ apply_ops-Untouched k ops before h
