-- ===== src/Server/Create/Outcome.antt =====
-- What the answer of a creation tells.
use yasdb.Prelude.{
  ℕ, ◌+◌, ◌%◌, ◌^◌, ◌<◌, ◌≡◌, ◌≢◌, refl, ap, sym, ◌∙◌, subst, true, Option, none, some, List, ◌==◌,
  length, Result, ok, err, empty_array, arith, if-elim,
}
use yasdb.Prelude.Bytes.{Bytes}
use yasdb.Meta.{StreamMeta}
use yasdb.Offset.{tail_offset}
use yasdb.Storage.{Storage}
use yasdb.ContentType.{is_json_stream}
use yasdb.Json.{JsonLib, flatten_json}
use yasdb.Server.{
  Server, CreateResult, created, Stage, stop, go, stage, and_then, or_500, load_meta, load_tail_seq,
  load_tombstone, check_tombstone, tombstone_check, tomb_soft_delete,
}
use yasdb.Server.Create.{
  CreateParams, create_ops, new_meta, existing_answer, initial_records, json_records, finish,
  store_new, create_at, create_stream, same_config,
}
use yasdb.Server.Create.Stored.{IsNew, create_ops-IsNew}

-- An early return is not a 201.
Refuses {ℓ} : {Value : Type ℓ} → Stage Value → Type 0
Refuses (stop r) = r.status ≢ 201
Refuses (go v) = Unit

or_500-Refuses {ℓ} : {Value : Type ℓ} (r : Result Value) → Refuses (or_500 r)
unfolding Refuses
or_500-Refuses (ok v) = tt
or_500-Refuses (err e) = λ h. absurd (omega (arith, h))

and_then-Refuses {ℓ κ} :
    {Value : Type ℓ} {Next : Type κ} (x : Stage Value) (next : Value → Stage Next)
    → Refuses x
    → ((v : Value) → Refuses (next v))
    → Refuses (and_then x next)
unfolding Refuses
and_then-Refuses (stop r) next h k = h
and_then-Refuses (go v) next h k = k v

tombstone_check-Refuses : (t : Option (ℕ × ℕ)) → Refuses (tombstone_check t)
unfolding Refuses tombstone_check
tombstone_check-Refuses none = tt
tombstone_check-Refuses (some (reason, id)) =
    if-elim Refuses (reason == tomb_soft_delete) _ _ (λ y h. absurd (omega (arith, h))) (λ n. tt)

json_records-Refuses : (r : Result (List Bytes)) → Refuses (json_records r)
unfolding Refuses json_records
json_records-Refuses (ok recs) = tt
json_records-Refuses (err e) = elim e as (λ x. Refuses (json_records (err x))) [
  | empty_array ↦ tt
  | _ ↦ λ h. absurd (omega (arith, h))
]

-- A stage that is answered with a 201 went on.
stage_went_on {ℓ κ} :
    {Value : Type ℓ} {State : Type κ} (s : State) (next : Value → CreateResult × State)
    (x : Stage Value)
    → Refuses x
    → (stage (λ (r : CreateResult). (r, s)) next x).0.status ≡ 201
    → (v : Value) × (x ≡ go v) × ((next v).0.status ≡ 201)
unfolding Refuses
stage_went_on s next (stop r) h e = absurd (h e)
stage_went_on s next (go v) h e = (v, refl, e)

stage_status :
    (m : StreamMeta) (x : Stage ℕ)
    → Refuses x
    → (stage
        (λ (r : CreateResult). r)
        (λ tail. created 200 m.content_type (tail_offset tail) m.closed)
        x).status
      ≢ 201
unfolding Refuses
stage_status m (stop r) h = h
stage_status m (go n) h = λ e. absurd (omega (arith, e))

went_on {ℓ κ} :
    {Value : Type ℓ} {Next : Type κ} (x : Stage Value) (r : Result Next) (v : Next)
    → and_then x (λ u. or_500 r) ≡ go v
    → r ≡ ok v
went_on (stop a) r v e = cc
went_on (go u) (ok w) v e = cc
went_on (go u) (err a) v e = cc

module _ (store : Storage) (parse_media_type : Bytes → Option Bytes) (json : JsonLib) where
  open store use {Db, view, commit, commit-ok}

  initial_records-Refuses :
      (p : CreateParams) → Refuses (initial_records store parse_media_type json p)
  unfolding Refuses initial_records
  initial_records-Refuses p =
      if-elim Refuses (length p.body == 0) _ _ (λ e. tt)
        (λ n.
          if-elim Refuses (is_json_stream parse_media_type p.content_type) _ _
            (λ j. json_records-Refuses (flatten_json json p.body)) (λ b. tt))

  existing_answer-status :
      (db : Db) (p : CreateParams) (m : StreamMeta)
      → (existing_answer store parse_media_type json db p m).status ≢ 201
  unfolding existing_answer
  existing_answer-status db p m =
      if-elim (λ (r : CreateResult). r.status ≢ 201) (same_config store parse_media_type json m p) _
        _ (λ same. stage_status m (or_500 (load_tail_seq store db m.stream_id)) (or_500-Refuses _))
        (λ other h. absurd (omega (arith, h)))

  finish_went_on :
      (s : Server store) (p : CreateParams) (n : ℕ) (c : Result (Unit {0}) × Db)
      → (finish store parse_media_type json s p n c).0.status ≡ 201
      → (c.0 ≡ ok tt)
        × (finish store parse_media_type json s p n c ≡ (
          created 201 p.content_type (tail_offset n) p.closed,
          record s { db = c.1; next_id = (s.next_id + 1) % 2 ^ 64 },
        ))
  unfolding finish
  finish_went_on s p n (ok u, db) h = (refl, refl)
  finish_went_on s p n (err e, db) h = absurd (omega (arith, h))

  front-Refuses :
      (s : Server store) (p : CreateParams)
      → Refuses
          (and_then (check_tombstone store s.db p.path) (λ u. or_500 (load_meta store s.db p.path)))
  unfolding check_tombstone
  front-Refuses s p =
      and_then-Refuses (check_tombstone store s.db p.path)
        (λ u. or_500 (load_meta store s.db p.path))
        (and_then-Refuses (or_500 (load_tombstone store s.db p.path)) tombstone_check
          (or_500-Refuses _) tombstone_check-Refuses)
        (λ u. or_500-Refuses (load_meta store s.db p.path))

  -- The state behind a creation of these records.
  made : ℕ → ℕ → CreateParams → Server store → List Bytes → CreateResult × Server store
  made now now_ms p s recs = (
    created 201 p.content_type (tail_offset (length recs)) p.closed,
    record s {
      db = (commit s.db (create_ops now (new_meta s.next_id now now_ms p) p recs) true).1;
      next_id = (s.next_id + 1) % 2 ^ 64;
    },
  )

  create_at_went_on :
      (now now_ms : ℕ) (p : CreateParams) (s : Server store) (o : Option StreamMeta)
      → (create_at store parse_media_type json now now_ms p s o).0.status ≡ 201
      → (recs : List Bytes) × (o ≡ none)
        × (initial_records store parse_media_type json p ≡ go recs)
        × ((commit s.db (create_ops now (new_meta s.next_id now now_ms p) p recs) true).0 ≡ ok tt)
        × (create_at store parse_media_type json now now_ms p s o ≡ made now now_ms p s recs)
  unfolding create_at store_new made
  create_at_went_on now now_ms p s (some m) h = absurd (existing_answer-status s.db p m h)
  create_at_went_on now now_ms p s none h =
      let (recs, e, h2) =
        stage_went_on s (store_new store parse_media_type json now now_ms p s)
          (initial_records store parse_media_type json p) (initial_records-Refuses p) h in
      let (done, e2) =
        finish_went_on s p (length recs)
          (commit s.db (create_ops now (new_meta s.next_id now now_ms p) p recs) true) h2 in
      (recs, refl, e, done, rw e e2)

  -- A creation that is answered 201 found no stream at the path, and what it stored is a new
  -- stream: metadata under the path, with the next id of the counter, its records numbered from 0,
  -- and the tail that counts them and that the answer names. The counter has moved on, in memory
  -- and in the store, and no metadata of another path and no tombstone has changed. The counter
  -- and the number of the records are below 2 ^ 64.
  pub create_stream-IsNew :
      (now now_ms : ℕ) (p : CreateParams) (s : Server store)
      → s.next_id < 2 ^ 64
      → ((recs : List Bytes)
          → initial_records store parse_media_type json p ≡ go recs
          → length recs < 2 ^ 64)
      → (create_stream store parse_media_type json now now_ms p s).0.status ≡ 201
      → let r = create_stream store parse_media_type json now now_ms p s in
        (recs : List Bytes) × (initial_records store parse_media_type json p ≡ go recs)
        × (load_meta store s.db p.path ≡ ok none)
        × (r.0 ≡ created 201 p.content_type (tail_offset (length recs)) p.closed)
        × (r.1.next_id ≡ (s.next_id + 1) % 2 ^ 64)
        × IsNew (view s.db) (view r.1.db) now (new_meta s.next_id now now_ms p) p recs
  unfolding create_stream made new_meta
  create_stream-IsNew now now_ms p s hid hlen h =
      let front =
        and_then (check_tombstone store s.db p.path) (λ u. or_500 (load_meta store s.db p.path)) in
      let (o, e1, h1) =
        stage_went_on s (create_at store parse_media_type json now now_ms p s) front
          (front-Refuses s p) h in
      let (recs, e2, e3, done, e4) = create_at_went_on now now_ms p s o h1 in
      let whole : create_stream store parse_media_type json now now_ms p s
          ≡ made now now_ms p s recs =
        rw e1 e4 in
      let (answer, moved, new) =
        subst
          (λ (r : CreateResult × Server store).
            (r.0 ≡ created 201 p.content_type (tail_offset (length recs)) p.closed)
            × (r.1.next_id ≡ (s.next_id + 1) % 2 ^ 64)
            × IsNew (view s.db) (view r.1.db) now (new_meta s.next_id now now_ms p) p recs)
          (sym whole)
          (
            refl,
            refl,
            create_ops-IsNew now (new_meta s.next_id now now_ms p) p recs (view s.db) _ hid
                (hlen recs e3) (λ k. commit-ok s.db _ true k done),
          ) in
      (
        recs,
        e3,
        went_on (check_tombstone store s.db p.path) (load_meta store s.db p.path) o e1 ∙ ap ok e2,
        answer,
        moved,
        new,
      )
