-- ===== src/Materializer.antt =====
-- The State Protocol: `Message.Validate` of internal/state/message.go, and `Materializer` of
-- internal/state/materializer.go, which applies messages to entities by type and key. The fields of a
-- message that are not read here (`OldValue`, `Txid`, `Timestamp`, `Offset`) are left out.
pub mod LastWrite
mod Tests
use yasdb.Prelude.{
  Bool, true, false, ◌&&◌, ◌||◌, not, Option, none, some, List, [], ◌∷◌, ◌++◌, if◌then◌else◌,
}
use yasdb.Prelude.Bytes.{Bytes, bytes_eq}
use yasdb.Prelude.Map.{Map, lookup, insert, remove}

abbrev pub op_insert : Bytes
op_insert = b'i' ∷ b'n' ∷ b's' ∷ b'e' ∷ b'r' ∷ b't' ∷ []

abbrev pub op_update : Bytes
op_update = b'u' ∷ b'p' ∷ b'd' ∷ b'a' ∷ b't' ∷ b'e' ∷ []

abbrev pub op_delete : Bytes
op_delete = b'd' ∷ b'e' ∷ b'l' ∷ b'e' ∷ b't' ∷ b'e' ∷ []

abbrev pub control_snapshot_start : Bytes
control_snapshot_start =
    b's' ∷ b'n' ∷ b'a' ∷ b'p' ∷ b's' ∷ b'h' ∷ b'o' ∷ b't' ∷ b'-' ∷ b's' ∷ b't' ∷ b'a' ∷ b'r' ∷ b't'
    ∷ []

abbrev pub control_snapshot_end : Bytes
control_snapshot_end =
    b's' ∷ b'n' ∷ b'a' ∷ b'p' ∷ b's' ∷ b'h' ∷ b'o' ∷ b't' ∷ b'-' ∷ b'e' ∷ b'n' ∷ b'd' ∷ []

abbrev pub control_reset : Bytes
control_reset = b'r' ∷ b'e' ∷ b's' ∷ b'e' ∷ b't' ∷ []

-- `Message` with its `Headers`.
pub record Message : Type 0 where
  pub kind : Bytes
  pub key : Bytes
  pub value : Bytes
  pub operation : Bytes
  pub control : Bytes

pub data Invalid : Type 0 where
  missing_type missing_key bad_operation missing_value bad_control ambiguous_headers : Invalid

abbrev is_empty : Bytes → Bool
is_empty s = bytes_eq s []

unfoldable pub is_control : Message → Bool
is_control m = not (is_empty m.control)

abbrev pub is_upsert : Message → Bool
is_upsert m = bytes_eq m.operation op_insert || bytes_eq m.operation op_update

unfoldable pub validate_control : Message → Option Invalid
validate_control m =
    if bytes_eq m.control control_snapshot_start
      || (bytes_eq m.control control_snapshot_end || bytes_eq m.control control_reset)
    then none
    else some bad_control

unfoldable pub validate_change : Message → Option Invalid
validate_change m =
    if is_empty m.kind
    then some missing_type
    else (if is_empty m.key
        then some missing_key
        else (if is_upsert m
            then (if is_empty m.value then some missing_value else none)
            else (if bytes_eq m.operation op_delete then none else some bad_operation)))

unfoldable pub validate : Message → Option Invalid
validate m =
    if not (is_empty m.operation) && not (is_empty m.control)
    then some ambiguous_headers
    else (if is_control m then validate_control m else validate_change m)

pub record Materializer : Type 0 where
  pub types : Map (Map Bytes)
  pub in_snapshot : Bool

abbrev pub new : Materializer
new = record { types = []; in_snapshot = false }

-- A nil map reads as an empty one.
abbrev pub or_empty : Option (Map Bytes) → Map Bytes
or_empty none = []
or_empty (some coll) = coll

abbrev pub collection : Bytes → Map (Map Bytes) → Map Bytes
collection kind types = or_empty (lookup kind types)

unfoldable pub apply_control : Bytes → Materializer → Materializer
apply_control c m =
    if bytes_eq c control_reset
    then new
    else (if bytes_eq c control_snapshot_start
        then record m { in_snapshot = true }
        else (if bytes_eq c control_snapshot_end then record m { in_snapshot = false } else m))

unfoldable pub change : Message → Map Bytes → Map Bytes
change msg coll =
    if is_upsert msg
    then insert msg.key msg.value coll
    else (if bytes_eq msg.operation op_delete then remove msg.key coll else coll)

unfoldable pub apply_valid : Message → Materializer → Materializer
apply_valid msg m =
    if is_control msg
    then apply_control msg.control m
    else record m { types = insert msg.kind (change msg (collection msg.kind m.types)) m.types }

unfoldable pub apply_checked :
    Option Invalid → Message → Materializer → Option Invalid × Materializer
apply_checked (some e) msg m = (some e, m)
apply_checked none msg m = (none, apply_valid msg m)

unfoldable pub apply : Message → Materializer → Option Invalid × Materializer
apply msg m = apply_checked (validate msg) msg m

abbrev pub error_list : Option Invalid → List Invalid
error_list none = []
error_list (some e) = e ∷ []

unfoldable pub apply_all : List Message → Materializer → List Invalid × Materializer
apply_all [] m = ([], m)
apply_all (msg ∷ msgs) m =
    let r = apply msg m in let rest = apply_all msgs r.1 in (error_list r.0 ++ rest.0, rest.1)

-- `Reset`.
abbrev pub reset : Materializer → Materializer
reset m = new
