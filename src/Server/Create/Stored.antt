-- ===== src/Server/Create/Stored.antt =====
-- What a creation that is answered 201 leaves in the store.
use yasdb.Prelude.{
  ℕ, ◌+◌, ◌%◌, ◌^◌, ◌<◌, ◌≡◌, ◌≢◌, ap, subst, ◌∙◌, false, some, List, [], ◌∷◌, ltb, length,
  get_elem?, arith, if-elim,
}
use yasdb.Prelude.Bytes.{Bytes, bytes_eq, bytes_eq_self}
use yasdb.Wire.{be64, u64_value}
use yasdb.Keys.{
  meta_key, id_mapping_key, tail_key, record_key, id_counter_key, expiry_key, tombstone_key,
}
use yasdb.Meta.{StreamMeta, marshal, marshal_tail, marshal_record, rec_flag_none}
use yasdb.Storage.{View, apply_op, apply_ops, put}
use yasdb.Storage.View.{Untouched, apply_ops-append, apply_ops-Untouched}
use yasdb.Streamer.{record_ops_from}
use yasdb.Streamer.Burst.Numbers.{apply_ops-record_ops}
use yasdb.Server.Create.{CreateParams, create_ops, deadline_op}

-- The keys of a kind other than records and deadlines.
abbrev OfEntry : ℕ → Type 0
OfEntry c = (c ≢ 4) × (c ≢ 7)

record_ops_from-Untouched :
    (id n c : ℕ) (recs : List Bytes) (k : Bytes)
    → c ≢ 4
    → Untouched (c ∷ k) (record_ops_from id n recs)
unfolding record_ops_from record_key bytes_eq
record_ops_from-Untouched id n c [] k h = tt
record_ops_from-Untouched id n c (r ∷ recs) k h =
    (ground arith, record_ops_from-Untouched id ((n + 1) % 2 ^ 64) c recs k h)

deadline_op-Untouched :
    (m : StreamMeta) (p : CreateParams) (c : ℕ) (k : Bytes)
    → c ≢ 7
    → Untouched (c ∷ k) (deadline_op m p)
unfolding deadline_op expiry_key bytes_eq
deadline_op-Untouched m p c k h =
    if-elim (Untouched (c ∷ k)) (ltb 0 m.deadline) _ _ (λ timed. (ground arith, tt)) (λ untimed. tt)

-- The four entries of a new stream over what was there.
entries : ℕ → StreamMeta → CreateParams → ℕ → View → View
entries now m p n view = apply_op (put id_counter_key (u64_value ((m.stream_id + 1) % 2 ^ 64))) (
    apply_op (put (tail_key m.stream_id) (marshal_tail n now)) (
      apply_op (put (id_mapping_key m.stream_id) p.path)
        (apply_op (put (meta_key p.path) (marshal m)) view)))

create_ops-entry :
    (now : ℕ) (m : StreamMeta) (p : CreateParams) (recs : List Bytes) (view : View) (c : ℕ)
    (k : Bytes)
    → OfEntry c
    → apply_ops (create_ops now m p recs) view (c ∷ k)
      ≡ entries now m p (length recs) (apply_ops (record_ops_from m.stream_id 0 recs) view) (c ∷ k)
unfolding create_ops entries apply_ops
create_ops-entry now m p recs view c k h =
    ap (λ (v : View). v (c ∷ k)) (apply_ops-append (record_ops_from m.stream_id 0 recs) _ view)
    ∙ apply_ops-Untouched (c ∷ k) (deadline_op m p) _ (deadline_op-Untouched m p c k h.1)

-- A new stream in the store: its metadata, the path of its id, its tail and its records are there, and
-- the counter is past its id. Of the entries of other paths, none has changed.
pub record IsNew (view view2 : View) (now : ℕ) (m : StreamMeta) (p : CreateParams)
    (recs : List Bytes) : Type 0 where
  pub meta : view2 (meta_key p.path) ≡ some (marshal m)
  pub path : view2 (id_mapping_key m.stream_id) ≡ some p.path
  pub tail : view2 (tail_key m.stream_id) ≡ some (marshal_tail (length recs) now)
  pub counter : view2 id_counter_key ≡ some (u64_value ((m.stream_id + 1) % 2 ^ 64))
  pub records :
      (i : ℕ) (rec : Bytes)
      → get_elem? recs i ≡ some rec
      → view2 (record_key m.stream_id i) ≡ some (marshal_record rec_flag_none rec)
  pub tombstones : (q : Bytes) → view2 (tombstone_key q) ≡ view (tombstone_key q)
  pub others :
      (q : Bytes)
      → bytes_eq (meta_key p.path) (meta_key q) ≡ false
      → view2 (meta_key q) ≡ view (meta_key q)

create_ops-record :
    (now : ℕ) (m : StreamMeta) (p : CreateParams) (recs : List Bytes) (view : View) (i : ℕ)
    (rec : Bytes)
    → m.stream_id < 2 ^ 64
    → length recs < 2 ^ 64
    → get_elem? recs i ≡ some rec
    → apply_ops (create_ops now m p recs) view (record_key m.stream_id i)
      ≡ some (marshal_record rec_flag_none rec)
unfolding create_ops entries apply_ops record_key meta_key id_mapping_key tail_key id_counter_key
    bytes_eq
create_ops-record now m p recs view i rec hid hl g =
    ap (λ (v : View). v (record_key m.stream_id i))
      (apply_ops-append (record_ops_from m.stream_id 0 recs) _ view)
    ∙ (apply_ops-Untouched _ (deadline_op m p) _ (deadline_op-Untouched m p 4 _ (λ e. cc))
        ∙ subst
            (λ n.
              apply_ops (record_ops_from m.stream_id 0 recs) view (record_key m.stream_id n)
              ≡ some (marshal_record rec_flag_none rec))
            {x = 0 + i} (omega arith)
            (apply_ops-record_ops m.stream_id 0 i recs view rec hid (omega arith) g))

pub create_ops-IsNew :
    (now : ℕ) (m : StreamMeta) (p : CreateParams) (recs : List Bytes) (view view2 : View)
    → m.stream_id < 2 ^ 64
    → length recs < 2 ^ 64
    → ((k : Bytes) → view2 k ≡ apply_ops (create_ops now m p recs) view k)
    → IsNew view view2 now m p recs
unfolding entries meta_key id_mapping_key tail_key id_counter_key tombstone_key bytes_eq
create_ops-IsNew now m p recs view view2 hid hl e =
    let entry =
      λ (c : ℕ) (k : Bytes) (h : OfEntry c). e (c ∷ k) ∙ create_ops-entry now m p recs view c k h in
    let kept = λ (c : ℕ) (k : Bytes) (h : c ≢ 4).
      apply_ops-Untouched (c ∷ k) (record_ops_from m.stream_id 0 recs) view
        (record_ops_from-Untouched m.stream_id 0 c recs k h) in
    record {
      meta = entry 1 p.path (λ q. cc, λ q. cc) ∙ rw (bytes_eq_self p.path);
      path = entry 2 (be64 m.stream_id) (λ q. cc, λ q. cc) ∙ rw (bytes_eq_self (be64 m.stream_id));
      tail = entry 3 (be64 m.stream_id) (λ q. cc, λ q. cc) ∙ rw (bytes_eq_self (be64 m.stream_id));
      counter = entry 100 [] (λ q. cc, λ q. cc);
      records = λ i rec g.
          e (record_key m.stream_id i) ∙ create_ops-record now m p recs view i rec hid hl g;
      tombstones = λ q. entry 9 q (λ r. cc, λ r. cc) ∙ kept 9 q (λ r. cc);
      others = λ q ne. entry 1 q (λ r. cc, λ r. cc) ∙ (rw ne (kept 1 q (λ r. cc)));
    }
