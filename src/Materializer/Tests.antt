-- ===== src/Materializer/Tests.antt =====
-- Two writes of one entity, an invalid message, and a reset between.
use yasdb.Prelude.{ℕ, ◌≡◌, List, [], ◌∷◌}
use yasdb.Prelude.Bytes.{Bytes}
use yasdb.Materializer.{Message, op_insert, op_update, op_delete, control_reset, new, apply_all}
use yasdb.Materializer.LastWrite.{entity, decide, last_verdict, entity-apply_all}

abbrev change_of : Bytes → ℕ → Bytes → Message
change_of op key value = record {
  kind = 7 ∷ [];
  key = key ∷ [];
  value = value;
  operation = op;
  control = [];
}

abbrev messages : List Message
messages =
    change_of op_insert 1 (5 ∷ [])
    ∷ record { kind = []; key = []; value = []; operation = []; control = control_reset }
    ∷ change_of op_insert 1 (6 ∷ [])
    ∷ change_of op_update 1 []
    ∷ change_of op_delete 2 []
    ∷ []

entity-apply_all_example :
    entity (7 ∷ []) (1 ∷ []) (apply_all messages new).1
    ≡ decide (last_verdict (7 ∷ []) (1 ∷ []) messages) (entity (7 ∷ []) (1 ∷ []) new)
entity-apply_all_example = entity-apply_all (7 ∷ []) (1 ∷ []) messages new
