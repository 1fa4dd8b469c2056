-- ===== src/Server/Background/Tests.antt =====
-- A deletion of a stream with two records and a producer, beside another stream, in a store in memory.
use yasdb.Prelude.{
  inl, inr, ℕ, ◌≡◌, ◌^◌, refl, sym, ap, ◌∙◌, Bool-cases, Bool, true, false, some, List, [], ◌∷◌,
  arith, ok,
}
use yasdb.Prelude.Bytes.{Bytes, bytes_eq, bytes_eq_iff, lex_lt}
use yasdb.Wire.{u64_value, parse_u64_value, be64, be, be_uint, be_uint_from}
use yasdb.Keys.{
  record_key, producer_key, delete_pending_key, producer_prefix, producer_prefix_end, record_prefix,
  record_prefix_end, prefix_end, prefix_end_at,
}
use yasdb.Keys.Order.{in_range, below, bytes_eq-record_key}
use yasdb.Storage.Memory.{memory, run_ops, run_op, delete_row, insert_row, select}
use yasdb.Server.Background.{
  background_delete, delete_records, delete_producers, collect_keys, collected, last_seq_of,
  record_chunk, record_round, producer_round, next_round, then_next, clear_pending, cursor_of,
}
use yasdb.Server.Background.Among.{elem, IsAmong}
use yasdb.Server.Background.Chunk.{AreNumbered}
use yasdb.Server.Background.Emptied.{Gone}
use yasdb.Server.Background.Deleted.{background_delete-Gone}
use yasdb.Server.Background.Finishes.{background_delete-finishes}

abbrev kept : memory.Db
kept =
    (record_key 1 0, b'x' ∷ [])
    ∷ (record_key 1 1, b'y' ∷ [])
    ∷ (producer_key 1 (b'p' ∷ []), b'z' ∷ [])
    ∷ (record_key 2 0, b'w' ∷ [])
    ∷ (delete_pending_key 1, u64_value 0)
    ∷ []

abbrev names : List Bytes
names =
    record_key 1 0
    ∷ record_key 1 1
    ∷ producer_key 1 (b'p' ∷ [])
    ∷ record_key 2 0
    ∷ delete_pending_key 1
    ∷ []

kept-IsAmong : IsAmong 1 (memory.view kept) names
unfolding IsAmong elem
kept-IsAmong k own = ground arith

abbrev one_record : memory.Db
one_record =
    (record_key 1 3, b'x' ∷ [])
    ∷ (record_key 2 0, b'w' ∷ [])
    ∷ (delete_pending_key 1, u64_value 2)
    ∷ []

abbrev other_left : memory.Db
other_left = (record_key 2 0, b'w' ∷ []) ∷ []

deleted : background_delete memory 3 1 one_record ≡ some (true, other_left)
unfolding background_delete delete_records delete_producers collect_keys collected last_seq_of
    record_chunk record_round producer_round next_round then_next clear_pending cursor_of run_ops
    run_op delete_row select insert_row record_key delete_pending_key producer_prefix
    producer_prefix_end record_prefix record_prefix_end prefix_end prefix_end_at in_range below
    lex_lt u64_value parse_u64_value be64 be bytes_eq be_uint be_uint_from
deleted = refl

other_outside : in_range (record_prefix 1) (record_prefix_end 1) (record_key 2 0) ≡ false
unfolding in_range below lex_lt record_key record_prefix record_prefix_end prefix_end prefix_end_at
    be64 be
other_outside = refl

pending_outside : in_range (record_prefix 1) (record_prefix_end 1) (delete_pending_key 1) ≡ false
unfolding in_range below lex_lt delete_pending_key record_prefix record_prefix_end prefix_end
    prefix_end_at be64 be
pending_outside = refl

pending_apart : (s : ℕ) → bytes_eq (delete_pending_key 1) (record_key 1 s) ≡ false
unfolding bytes_eq delete_pending_key record_key
pending_apart s = refl

outside :
    (j k : Bytes)
    → in_range (record_prefix 1) (record_prefix_end 1) j ≡ false
    → in_range (record_prefix 1) (record_prefix_end 1) k ≡ true
    → bytes_eq j k ≡ false
outside j k out inside = elim (Bool-cases (bytes_eq j k)) [
  | inl same ↦
      let e : j ≡ k = (bytes_eq_iff j k).0 same in
      let clash : false ≡ true =
        sym out ∙ ap (in_range (record_prefix 1) (record_prefix_end 1)) e ∙ inside in
      cc
  | inr other ↦ other
]

one_record-AreNumbered : AreNumbered 1 (memory.view one_record)
unfolding AreNumbered
one_record-AreNumbered k inside = elim (Bool-cases (bytes_eq (record_key 1 3) k)) [
  | inl same ↦ inr (record {
    seq = 3;
    bound = omega arith;
    key = sym ((bytes_eq_iff (record_key 1 3) k).0 same);
  })
  | inr not3 ↦ inl (
      rw
        (
          not3,
          outside (record_key 2 0) k other_outside inside,
          outside (delete_pending_key 1) k pending_outside inside,
        )
        refl)
]

one_record-Gone : Gone 1 0 2 (memory.view one_record)
unfolding Gone
one_record-Gone s ge lt hs = ground (
  arith,
  bytes_eq-record_key 1 3 1 s (omega arith) (omega arith) (omega arith) hs,
  bytes_eq-record_key 2 0 1 s (omega arith) (omega arith) (omega arith) hs,
  pending_apart s,
)

background_delete-finishes_example :
    (out : Bool × memory.Db) × (background_delete memory 6 1 kept ≡ some out)
background_delete-finishes_example =
    background_delete-finishes memory 6 1 kept names kept-IsAmong (omega arith)

pending_read : memory.get one_record (delete_pending_key 1) ≡ ok (some (u64_value 2))
unfolding bytes_eq delete_pending_key record_key be64 be
pending_read = refl

background_delete-Gone_example : Gone 1 0 (2 ^ 64) (memory.view other_left)
background_delete-Gone_example =
    background_delete-Gone memory 3 1 2 one_record other_left (omega arith) (omega arith)
      pending_read one_record-AreNumbered one_record-Gone deleted
