-- ===== src/Keys.antt =====
-- The shared keyspace: internal/ds/keys.go. A key is its ordinal byte and then its fields, numbers
-- as eight big-endian bytes, so that the store's order is the order of the fields.
pub mod Order
pub mod Distinct
mod Tests
use yasdb.Prelude.{ℕ, ◌+◌, ◌%◌, ◌^◌, Option, none, some, [], ◌∷◌, ◌++◌, ◌==◌, if◌then◌else◌}
use yasdb.Prelude.Bytes.{Bytes}
use yasdb.Wire.{be64}

-- `KeyType`: persisted ordinals.
abbrev pub kt_stream_meta : ℕ
kt_stream_meta = 1

abbrev pub kt_stream_id_mapping : ℕ
kt_stream_id_mapping = 2

abbrev pub kt_stream_tail : ℕ
kt_stream_tail = 3

abbrev pub kt_record_data : ℕ
kt_record_data = 4

abbrev pub kt_producer_state : ℕ
kt_producer_state = 5

abbrev pub kt_writer_seq : ℕ
kt_writer_seq = 6

abbrev pub kt_expiry_deadline : ℕ
kt_expiry_deadline = 7

abbrev pub kt_delete_pending : ℕ
kt_delete_pending = 8

abbrev pub kt_path_tombstone : ℕ
kt_path_tombstone = 9

abbrev pub kt_ref_count : ℕ
kt_ref_count = 10

abbrev pub kt_id_counter : ℕ
kt_id_counter = 100

unfoldable pub meta_key : Bytes → Bytes
meta_key path = kt_stream_meta ∷ path

unfoldable pub id_mapping_key : ℕ → Bytes
id_mapping_key id = kt_stream_id_mapping ∷ be64 id

unfoldable pub tail_key : ℕ → Bytes
tail_key id = kt_stream_tail ∷ be64 id

unfoldable pub record_key : ℕ → ℕ → Bytes
record_key id seq = kt_record_data ∷ be64 id ++ be64 seq

unfoldable pub record_prefix : ℕ → Bytes
record_prefix id = kt_record_data ∷ be64 id

unfoldable pub producer_key : ℕ → Bytes → Bytes
producer_key id producer_id = kt_producer_state ∷ be64 id ++ producer_id

unfoldable pub producer_prefix : ℕ → Bytes
producer_prefix id = kt_producer_state ∷ be64 id

unfoldable pub writer_seq_key : ℕ → Bytes
writer_seq_key id = kt_writer_seq ∷ be64 id

unfoldable pub expiry_key : ℕ → ℕ → Bytes
expiry_key deadline id = kt_expiry_deadline ∷ be64 deadline ++ be64 id

-- `now+1` is a `uint64`.
unfoldable pub expiry_scan_end : ℕ → Bytes
expiry_scan_end now = kt_expiry_deadline ∷ be64 ((now + 1) % 2 ^ 64)

unfoldable pub delete_pending_key : ℕ → Bytes
delete_pending_key id = kt_delete_pending ∷ be64 id

unfoldable pub tombstone_key : Bytes → Bytes
tombstone_key path = kt_path_tombstone ∷ path

unfoldable pub ref_count_key : ℕ → Bytes
ref_count_key id = kt_ref_count ∷ be64 id

unfoldable pub id_counter_key : Bytes
id_counter_key = kt_id_counter ∷ []

-- What the loop does at the byte x, once the bytes behind it gave `rest`: if one of those was below
-- 0xff the loop has returned there, and keeps x; otherwise x is looked at next.
unfoldable pub prefix_end_at : ℕ → Option Bytes → Option Bytes
prefix_end_at x (some rest) = some (x ∷ rest)
prefix_end_at x none = if x == 255 then none else some ((x + 1) ∷ [])

-- `none` is the source's nil: there is no finite end.
unfoldable pub prefix_end : Bytes → Option Bytes
unfolding prefix_end_at
prefix_end [] = none
prefix_end (x ∷ p) = prefix_end_at x (prefix_end p)

unfoldable pub record_prefix_end : ℕ → Option Bytes
unfolding prefix_end record_prefix
record_prefix_end id = prefix_end (record_prefix id)

unfoldable pub producer_prefix_end : ℕ → Option Bytes
unfolding prefix_end producer_prefix
producer_prefix_end id = prefix_end (producer_prefix id)
