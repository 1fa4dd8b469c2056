-- ===== src/Server.antt =====
-- The server: the loads of internal/ds/server.go and the parts of a creation that
-- internal/ds/handlers.go and fork.go share. One operation runs at a time under `metaMu`, so it is a
-- function on the server's state.
pub mod Create
pub mod Fork
pub mod Spawn
pub mod Delete
pub mod Expiry
pub mod Background
pub mod Read
mod Tests
use yasdb.Prelude.{
  ℕ, ◌^◌, Bool, true, false, ◌&&◌, Option, none, some, List, [], ◌∷◌, ltb, ◌==◌, if◌then◌else◌,
  length, take, drop, Result, ok, err, bad_meta, not_found, ◌>>=◌,
}
use yasdb.Prelude.Bytes.{Bytes}
use yasdb.Prelude.Map.{Map}
use yasdb.Wire.{be64_decode, parse_u64_value}
use yasdb.Keys.{meta_key, id_mapping_key, tail_key, tombstone_key, ref_count_key}
use yasdb.Meta.{StreamMeta, unmarshal_meta, unmarshal_tail}
use yasdb.Offset.{Offset}
use yasdb.Storage.{Storage}
use yasdb.Streamer.{Streamer}

abbrev pub tomb_soft_delete : ℕ
tomb_soft_delete = 2

-- The messages of the answers of a creation.
pub data Message : Type 0 where
  no_message msg_invalid_json msg_fork_offset msg_beyond_stream msg_sub_offset msg_needs_offset :
      Message
  msg_empty_source msg_overshoots_count msg_overshoots_length msg_invalid_body : Message

pub record CreateResult : Type 0 where
  pub status : ℕ
  pub msg : Message
  pub content_type : Bytes
  pub next_offset : Offset
  pub closed : Bool

-- `createResult{status: status}`, and with a message.
abbrev pub refusal : ℕ → Message → CreateResult
refusal status msg = record {
  status = status;
  msg = msg;
  content_type = [];
  next_offset = record { seq = 0; byte = 0 };
  closed = false;
}

abbrev pub created : ℕ → Bytes → Offset → Bool → CreateResult
created status content_type next_offset closed = record {
  status = status;
  msg = no_message;
  content_type = content_type;
  next_offset = next_offset;
  closed = closed;
}

-- An early return, or a value to go on with.
pub data Stage {ℓ} (Value : Type ℓ) : Type ℓ where
  stop : CreateResult → Stage Value
  go : Value → Stage Value

-- What a function does behind its early returns.
abbrev pub stage {ℓ κ} :
    {Value : Type ℓ} {Next : Type κ} → (CreateResult → Next) → (Value → Next) → Stage Value → Next
stage stopped next (stop r) = stopped r
stage stopped next (go v) = next v

abbrev pub and_then {ℓ κ} :
    {Value : Type ℓ} {Next : Type κ} → Stage Value → (Value → Stage Next) → Stage Next
and_then (stop r) next = stop r
and_then (go v) next = next v

-- `if err != nil { return createResult{status: 500} }`.
abbrev pub or_500 {ℓ} : {Value : Type ℓ} → Result Value → Stage Value
or_500 (ok v) = go v
or_500 (err e) = stop (refusal 500 no_message)

-- `x > 0` of an `int64`.
abbrev pub positive : ℕ → Bool
positive x = ltb 0 x && ltb x (2 ^ 63)

decode_meta : Option Bytes → Result (Option StreamMeta)
decode_meta none = ok none
decode_meta (some v) = do m ← unmarshal_meta v; ok (some m)

decode_tombstone : Option Bytes → Result (Option (ℕ × ℕ))
decode_tombstone none = ok none
decode_tombstone (some []) = err bad_meta
decode_tombstone (some (reason ∷ v)) =
    if ltb (length v) 8 then err bad_meta else ok (some (reason, be64_decode (take 8 v)))

decode_tail : Option Bytes → Result ℕ
decode_tail none = ok 0
decode_tail (some v) = do t ← unmarshal_tail v; ok t.0

-- The count, where the read succeeds, finds a value and decodes it; otherwise 0.
count_of : Result (Option Bytes) → ℕ
count_of (err e) = 0
count_of (ok none) = 0
count_of (ok (some v)) = elim (parse_u64_value v) [ ok n ↦ n | err e ↦ 0 ]

-- Whether a tombstone blocks the path of a creation.
tombstone_check : Option (ℕ × ℕ) → Stage (Unit {0})
tombstone_check none = go tt
tombstone_check (some (reason, id)) =
    if reason == tomb_soft_delete then stop (refusal 409 no_message) else go tt

module _ (store : Storage) where
  open store use {Db, get}

  -- The store, the counter of stream ids, the streamers in memory, and the streams whose records a
  -- background deletion was started for.
  pub record Server : Type 0 where
    pub db : Db
    pub next_id : ℕ
    pub resident : Map Streamer
    pub deletions : List ℕ

  unfoldable pub load_meta : Db → Bytes → Result (Option StreamMeta)
  unfolding decode_meta
  load_meta db path = do v ← get db (meta_key path); decode_meta v

  unfoldable pub load_tombstone : Db → Bytes → Result (Option (ℕ × ℕ))
  unfolding decode_tombstone
  load_tombstone db path = do v ← get db (tombstone_key path); decode_tombstone v

  unfoldable pub load_tail_seq : Db → ℕ → Result ℕ
  unfolding decode_tail
  load_tail_seq db id = do v ← get db (tail_key id); decode_tail v

  unfoldable pub load_ref_count : Db → ℕ → ℕ
  unfolding count_of
  load_ref_count db id = count_of (get db (ref_count_key id))

  -- The metadata at a path that was found.
  meta_at : Db → Option Bytes → Result (Option (StreamMeta × Bytes))
  unfolding load_meta
  meta_at db none = ok none
  meta_at db (some path) = do
    m ← load_meta db path
    ok (elim m [ some meta ↦ some (meta, path) | none ↦ none ])

  unfoldable pub load_meta_by_id : Db → ℕ → Result (Option (StreamMeta × Bytes))
  unfolding meta_at
  load_meta_by_id db id = do path ← get db (id_mapping_key id); meta_at db path

  unfoldable pub check_tombstone : Db → Bytes → Stage (Unit {0})
  unfolding load_tombstone tombstone_check
  check_tombstone db path = and_then (or_500 (load_tombstone db path)) tombstone_check
