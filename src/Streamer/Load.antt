-- ===== src/Streamer/Load.antt =====
-- The streamer's caches of producer states and of the last Stream-Seq: `loadProducer`,
-- `loadWriterSeq`, `effProducer` and `effWriterSeq` of internal/ds/streamer.go.
pub mod Core
pub mod Known
use yasdb.Prelude.{
  ℕ, Bool, true, false, Option, none, some, List, [], ◌∷◌, if◌then◌else◌, Result, ok, err,
}
use yasdb.Prelude.Bytes.{Bytes}
use yasdb.Prelude.Map.{Map, lookup, insert, contains}
use yasdb.Keys.{producer_key, writer_seq_key}
use yasdb.Meta.{ProducerState, unmarshal_producer}
use yasdb.Storage.{Storage}
use yasdb.Streamer.{Streamer, Pending}

-- What a read of a producer's key gives: a failed read and a value that does not decode count as
-- no state.
state_of : Result ProducerState → Option ProducerState
state_of (ok st) = some st
state_of (err e) = none

unfoldable pub producer_value : Result (Option Bytes) → Option ProducerState
unfolding state_of
producer_value (err e) = none
producer_value (ok none) = none
producer_value (ok (some v)) = state_of (unmarshal_producer v)

unfoldable pub cache_producer :
    Bytes → Option ProducerState → Streamer → Option ProducerState × Streamer
cache_producer id none s = (none, record s { producer_loaded = id ∷ s.producer_loaded })
cache_producer id (some st) s = (
  some st,
  record s { producer_loaded = id ∷ s.producer_loaded; producers = insert id st s.producers },
)

unfoldable pub writer_seq_value : Result (Option Bytes) → Bytes → Bytes
writer_seq_value (ok (some v)) old = v
writer_seq_value (ok none) old = old
writer_seq_value (err e) old = old

unfoldable pub overlay : Bytes → Option (Map ProducerState) → Option ProducerState
overlay id none = none
overlay id (some m) = lookup id m

module _ (store : Storage) where
  open store use {Db, get}

  unfoldable pub load_producer : Db → Bytes → Streamer → Option ProducerState × Streamer
  unfolding producer_value cache_producer
  load_producer db id s =
      if contains id s.producer_loaded
      then (lookup id s.producers, s)
      else cache_producer id (producer_value (get db (producer_key s.id id))) s

  unfoldable pub load_writer_seq : Db → Streamer → Bytes × Streamer
  unfolding writer_seq_value
  load_writer_seq db s =
      if s.writer_seq_loaded
      then (s.writer_seq, s)
      else let v = writer_seq_value (get db (writer_seq_key s.id)) s.writer_seq in
        (v, record s { writer_seq_loaded = true; writer_seq = v })

  or_load : Db → Bytes → Option ProducerState → Streamer → Option ProducerState × Streamer
  unfolding load_producer
  or_load db id (some ps) s = (some ps, s)
  or_load db id none s = load_producer db id s

  unfoldable pub eff_producer : Db → Pending → Bytes → Streamer → Option ProducerState × Streamer
  unfolding overlay or_load
  eff_producer db pend id s = or_load db id (overlay id pend.producers) s

  eff_writer_seq_of : Db → Option Bytes → Streamer → Bytes × Streamer
  unfolding load_writer_seq
  eff_writer_seq_of db (some v) s = (v, s)
  eff_writer_seq_of db none s = load_writer_seq db s

  unfoldable pub eff_writer_seq : Db → Pending → Streamer → Bytes × Streamer
  unfolding eff_writer_seq_of
  eff_writer_seq db pend s = eff_writer_seq_of db pend.writer_seq s
