-- ===== src/Materializer/LastWrite.antt =====
-- What a materializer holds for an entity is what the last message that concerns it says.
use yasdb.Prelude.{
  ◌≡◌, refl, ap, sym, ◌∙◌, Bool, true, false, ◌&&◌, Option, none, some, List, [], ◌∷◌,
  if◌then◌else◌, Bool-cases, inl, inr,
}
use yasdb.Prelude.Bytes.{Bytes, bytes_eq, bytes_eq→eq}
use yasdb.Prelude.Map.{Map, lookup, insert, remove, lookup-insert, lookup-remove}
use yasdb.Materializer.{
  Message, Invalid, Materializer, op_delete, control_reset, control_snapshot_start,
  control_snapshot_end, is_control, is_upsert, validate, new, or_empty, collection, apply_control,
  change, apply_valid, apply_checked, apply, apply_all,
}

-- The value of an entity, in `Snapshot`.
abbrev pub entity : Bytes → Bytes → Materializer → Option Bytes
entity kind key m = lookup key (collection kind m.types)

-- What a message says of an entity: nothing, or its value from now on.
abbrev pub verdict_change : Bytes → Bytes → Message → Option (Option Bytes)
verdict_change kind key msg =
    if bytes_eq msg.kind kind && bytes_eq msg.key key
    then (if is_upsert msg
        then some (some msg.value)
        else (if bytes_eq msg.operation op_delete then some none else none))
    else none

abbrev pub verdict_valid : Bytes → Bytes → Message → Option (Option Bytes)
verdict_valid kind key msg =
    if is_control msg
    then (if bytes_eq msg.control control_reset then some none else none)
    else verdict_change kind key msg

abbrev pub verdict_checked : Option Invalid → Bytes → Bytes → Message → Option (Option Bytes)
verdict_checked (some e) kind key msg = none
verdict_checked none kind key msg = verdict_valid kind key msg

abbrev pub verdict : Bytes → Bytes → Message → Option (Option Bytes)
verdict kind key msg = verdict_checked (validate msg) kind key msg

abbrev pub decide : Option (Option Bytes) → Option Bytes → Option Bytes
decide none old = old
decide (some value) old = value

-- The last verdict of a list of messages.
abbrev pub later_or : Option (Option Bytes) → Option (Option Bytes) → Option (Option Bytes)
later_or none earlier = earlier
later_or (some v) earlier = some v

abbrev pub last_verdict : Bytes → Bytes → List Message → Option (Option Bytes)
last_verdict kind key [] = none
last_verdict kind key (msg ∷ msgs) = later_or (last_verdict kind key msgs) (verdict kind key msg)

decide-later_or :
    (a b : Option (Option Bytes)) (old : Option Bytes)
    → decide (later_or a b) old ≡ decide a (decide b old)
decide-later_or none b old = refl
decide-later_or (some v) b old = refl

decide-some :
    (b : Bool) (v old : Option Bytes)
    → (if b then v else old) ≡ decide (if b then some v else none) old
decide-some true v old = refl
decide-some false v old = refl

decide-none : (b : Bool) (old : Option Bytes) → old ≡ decide (if b then none else none) old
decide-none true old = refl
decide-none false old = refl

-- The three outcomes of the switch on the operation.
lookup-switch :
    (upsert delete : Bool) (key j value : Bytes) (coll : Map Bytes)
    → lookup key (if upsert then insert j value coll else (if delete then remove j coll else coll))
      ≡ decide
          (if bytes_eq j key
            then (if upsert then some (some value) else (if delete then some none else none))
            else none)
          (lookup key coll)
lookup-switch true delete key j value coll =
    lookup-insert j key value coll ∙ decide-some (bytes_eq j key) (some value) (lookup key coll)
lookup-switch false true key j value coll =
    lookup-remove j key coll ∙ decide-some (bytes_eq j key) none (lookup key coll)
lookup-switch false false key j value coll = decide-none (bytes_eq j key) (lookup key coll)

entity-switch :
    (clear start end : Bool) (kind key : Bytes) (m : Materializer)
    → entity kind key (
        if clear
        then new
        else (if start
            then record m { in_snapshot = true }
            else (if end then record m { in_snapshot = false } else m)))
      ≡ decide (if clear then some none else none) (entity kind key m)
unfolding lookup
entity-switch true start end kind key m = refl
entity-switch false true end kind key m = refl
entity-switch false false true kind key m = refl
entity-switch false false false kind key m = refl

entity-insert :
    (kind key : Bytes) (msg : Message) (m : Materializer)
    → entity kind key
        (record m { types = insert msg.kind (change msg (collection msg.kind m.types)) m.types })
      ≡ decide (verdict_change kind key msg) (entity kind key m)
unfolding change
entity-insert kind key msg m =
    let coll = change msg (collection msg.kind m.types) in
    ap (λ c. lookup key (or_empty c)) (lookup-insert msg.kind kind coll m.types)
    ∙ elim (Bool-cases (bytes_eq msg.kind kind)) [
      | inl same ↦ rw same (
          lookup-switch (is_upsert msg) (bytes_eq msg.operation op_delete) key msg.key msg.value
            (collection msg.kind m.types)
          ∙ ap
              (λ (k : Bytes).
                decide
                  (if bytes_eq msg.key key
                    then (if is_upsert msg
                        then some (some msg.value)
                        else (if bytes_eq msg.operation op_delete then some none else none))
                    else none)
                  (lookup key (collection k m.types)))
              (bytes_eq→eq msg.kind kind same))
      | inr other ↦ rw other refl
    ]

entity-apply_valid :
    (kind key : Bytes) (msg : Message) (m : Materializer)
    → entity kind key (apply_valid msg m) ≡ decide (verdict_valid kind key msg) (entity kind key m)
unfolding apply_valid apply_control
entity-apply_valid kind key msg m = elim (Bool-cases (is_control msg)) [
  | inl control ↦ rw control (
      entity-switch (bytes_eq msg.control control_reset)
        (bytes_eq msg.control control_snapshot_start) (bytes_eq msg.control control_snapshot_end)
        kind key m)
  | inr other ↦ rw other (entity-insert kind key msg m)
]

entity-apply_checked :
    (kind key : Bytes) (checked : Option Invalid) (msg : Message) (m : Materializer)
    → entity kind key (apply_checked checked msg m).1
      ≡ decide (verdict_checked checked kind key msg) (entity kind key m)
unfolding apply_checked
entity-apply_checked kind key (some e) msg m = refl
entity-apply_checked kind key none msg m = entity-apply_valid kind key msg m

-- After any messages, valid or not, an entity has the value that the last message that concerns it gives
-- it: an insert or update of it its value, a delete of it or a reset of everything none; without
-- such a message it is as before. Invalid messages, changes of other entities and the boundaries of
-- snapshots do not concern it.
pub entity-apply_all :
    (kind key : Bytes) (msgs : List Message) (m : Materializer)
    → entity kind key (apply_all msgs m).1 ≡ decide (last_verdict kind key msgs) (entity kind key m)
unfolding apply_all apply
entity-apply_all kind key [] m = refl
entity-apply_all kind key (msg ∷ msgs) m =
    entity-apply_all kind key msgs (apply msg m).1
    ∙ ap (decide (last_verdict kind key msgs)) (entity-apply_checked kind key (validate msg) msg m)
    ∙ sym (decide-later_or (last_verdict kind key msgs) (verdict kind key msg) (entity kind key m))
