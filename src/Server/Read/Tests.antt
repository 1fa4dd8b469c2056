-- ===== src/Server/Read/Tests.antt =====
-- Two records of two streams, read up to one byte.
use yasdb.Prelude.{[], ◌∷◌, ◌≡◌, refl, ok, Bool, List}
use yasdb.Prelude.Bytes.{Bytes, lex_lt}
use yasdb.Keys.{record_key, record_prefix_end}
use yasdb.Keys.Order.{in_range}
use yasdb.Wire.{be64, be, be64_decode}
use yasdb.Meta.{marshal_record, record_payload}
use yasdb.Offset.{Offset}
use yasdb.Storage.Memory.{memory, select, insert_row}
use yasdb.Server.Fork.{Segment}
use yasdb.Server.Read.{read_segments_binary}
use yasdb.Server.Read.Prefix.{
  IsPrefix, segments_bytes, rows_bytes, bytes_of, read_segments_binary-IsPrefix,
}

abbrev rows : memory.Db
rows =
    (record_key 1 0, marshal_record 0 (b'x' ∷ []))
    ∷ (record_key 2 1, marshal_record 0 (b'y' ∷ b'z' ∷ []))
    ∷ []

abbrev segments : List Segment
segments =
    record { id = 1; start_seq = 0; end_seq = 1 }
    ∷ record { id = 2; start_seq = 1; end_seq = 2 }
    ∷ []

abbrev from_start : Offset
from_start = record { seq = 0; byte = 0 }

stored : segments_bytes memory rows from_start segments ≡ ok (b'x' ∷ b'y' ∷ b'z' ∷ [])
unfolding segments_bytes rows_bytes bytes_of select insert_row record_key in_range lex_lt be64 be
    record_prefix_end be64_decode record_payload marshal_record
stored = refl

read_segments_binary-IsPrefix_example :
    (r : Bytes × Offset × Bool) × (read_segments_binary memory rows segments from_start 2 2 ≡ ok r)
    × IsPrefix 2 (b'x' ∷ b'y' ∷ b'z' ∷ []) r.0
read_segments_binary-IsPrefix_example =
    read_segments_binary-IsPrefix memory rows segments from_start 2 2 (b'x' ∷ b'y' ∷ b'z' ∷ [])
      stored
