-- ===== src/Keys/Distinct.antt =====
-- No two keys collide: the kinds and fields that keys.go encodes, as a data type.
use yasdb.Prelude.{
  ℕ, ◌^◌, ◌<◌, ◌≡◌, refl, ap, ap₂, sym, ◌∙◌, ◌++◌, take, drop, take-append, drop-append, subst,
}
use yasdb.Prelude.Bytes.{Bytes}
use yasdb.Wire.{be64, be_uint}
use yasdb.Wire.Laws.{length-be64, be_uint-be64}
use yasdb.Keys.{
  meta_key, id_mapping_key, tail_key, record_key, producer_key, writer_seq_key, expiry_key,
  delete_pending_key, tombstone_key, ref_count_key, id_counter_key,
}

pub data Key : Type 0 where
  stream_meta path_tombstone : Bytes → Key
  stream_id_mapping stream_tail writer_seq delete_pending ref_count : ℕ → Key
  record_data expiry_deadline : ℕ → ℕ → Key
  producer_state : ℕ → Bytes → Key
  id_counter : Key

pub key_bytes : Key → Bytes
key_bytes (stream_meta path) = meta_key path
key_bytes (path_tombstone path) = tombstone_key path
key_bytes (stream_id_mapping id) = id_mapping_key id
key_bytes (stream_tail id) = tail_key id
key_bytes (writer_seq id) = writer_seq_key id
key_bytes (delete_pending id) = delete_pending_key id
key_bytes (ref_count id) = ref_count_key id
key_bytes (record_data id seq) = record_key id seq
key_bytes (expiry_deadline deadline id) = expiry_key deadline id
key_bytes (producer_state id pid) = producer_key id pid
key_bytes id_counter = id_counter_key

-- The numbers are `uint64`.
abbrev pub InRange : Key → Type 0
InRange (stream_meta path) = Unit
InRange (path_tombstone path) = Unit
InRange (stream_id_mapping id) = id < 2 ^ 64
InRange (stream_tail id) = id < 2 ^ 64
InRange (writer_seq id) = id < 2 ^ 64
InRange (delete_pending id) = id < 2 ^ 64
InRange (ref_count id) = id < 2 ^ 64
InRange (record_data id seq) = (id < 2 ^ 64) × (seq < 2 ^ 64)
InRange (expiry_deadline deadline id) = (deadline < 2 ^ 64) × (id < 2 ^ 64)
InRange (producer_state id pid) = id < 2 ^ 64
InRange id_counter = Unit

be64_injective : (a b : ℕ) → a < 2 ^ 64 → b < 2 ^ 64 → be64 a ≡ be64 b → a ≡ b
be64_injective a b ha hb e = sym (be_uint-be64 a ha) ∙ ap be_uint e ∙ be_uint-be64 b hb

take-be64 : (a : ℕ) (c : Bytes) → take 8 (be64 a ++ c) ≡ be64 a
take-be64 a c = subst (λ n. take n (be64 a ++ c) ≡ be64 a) (length-be64 a) (take-append (be64 a) c)

drop-be64 : (a : ℕ) (c : Bytes) → drop 8 (be64 a ++ c) ≡ c
drop-be64 a c = subst (λ n. drop n (be64 a ++ c) ≡ c) (length-be64 a) (drop-append (be64 a) c)

field_injective :
    (a b : ℕ) (c d : Bytes)
    → a < 2 ^ 64
    → b < 2 ^ 64
    → be64 a ++ c ≡ be64 b ++ d
    → (a ≡ b) × (c ≡ d)
field_injective a b c d ha hb e = (
  be64_injective a b ha hb (sym (take-be64 a c) ∙ ap (λ s. take 8 s) e ∙ take-be64 b d),
  sym (drop-be64 a c) ∙ ap (λ s. drop 8 s) e ∙ drop-be64 b d,
)

fields : Bytes → Bytes
fields k = drop 1 k

-- Two keys, of one kind or of two, with numbers below 2 ^ 64, have the same bytes only if they are
-- the same key: whatever the program stores under one, it cannot meet under another.
pub key_bytes_injective : (j k : Key) → InRange j → InRange k → key_bytes j ≡ key_bytes k → j ≡ k
unfolding key_bytes meta_key tombstone_key id_mapping_key tail_key writer_seq_key delete_pending_key
    ref_count_key record_key expiry_key producer_key id_counter_key fields
key_bytes_injective (stream_meta p) (stream_meta q) hj hk e = ap stream_meta (ap fields e)
key_bytes_injective (path_tombstone p) (path_tombstone q) hj hk e = ap path_tombstone (ap fields e)
key_bytes_injective (stream_id_mapping a) (stream_id_mapping b) hj hk e =
    ap stream_id_mapping (be64_injective a b hj hk (ap fields e))
key_bytes_injective (stream_tail a) (stream_tail b) hj hk e =
    ap stream_tail (be64_injective a b hj hk (ap fields e))
key_bytes_injective (writer_seq a) (writer_seq b) hj hk e =
    ap writer_seq (be64_injective a b hj hk (ap fields e))
key_bytes_injective (delete_pending a) (delete_pending b) hj hk e =
    ap delete_pending (be64_injective a b hj hk (ap fields e))
key_bytes_injective (ref_count a) (ref_count b) hj hk e =
    ap ref_count (be64_injective a b hj hk (ap fields e))
key_bytes_injective (record_data a s) (record_data b t) hj hk e =
    let (p, q) = field_injective a b (be64 s) (be64 t) hj.0 hk.0 (ap fields e) in
    ap₂ record_data p (be64_injective s t hj.1 hk.1 q)
key_bytes_injective (expiry_deadline a s) (expiry_deadline b t) hj hk e =
    let (p, q) = field_injective a b (be64 s) (be64 t) hj.0 hk.0 (ap fields e) in
    ap₂ expiry_deadline p (be64_injective s t hj.1 hk.1 q)
key_bytes_injective (producer_state a p) (producer_state b q) hj hk e =
    let (h, i) = field_injective a b p q hj hk (ap fields e) in ap₂ producer_state h i
key_bytes_injective id_counter id_counter hj hk e = refl
key_bytes_injective _ _ hj hk e = cc
