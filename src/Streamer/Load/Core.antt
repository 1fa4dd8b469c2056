-- ===== src/Streamer/Load/Core.antt =====
-- Loading fills the caches and leaves the rest of the streamer alone; what was loaded stays.
use yasdb.Prelude.{◌≡◌, refl, ◌∙◌, false, Option, none, some, err, arith, Err}
use yasdb.Prelude.Bytes.{Bytes, bytes_eq_self}
use yasdb.Prelude.Map.{lookup, contains}
use yasdb.Keys.{producer_key}
use yasdb.Meta.{ProducerState}
use yasdb.Storage.{Storage}
use yasdb.Streamer.{Streamer, Pending}
use yasdb.Streamer.Load.{
  eff_producer, eff_writer_seq, or_load, eff_writer_seq_of, load_producer, load_writer_seq,
  cache_producer, producer_value, overlay,
}

-- Two streamers that differ at most in what their caches of producers and Stream-Seq hold.
pub record SameCore (s t : Streamer) : Type 0 where
  pub path : s.path ≡ t.path
  pub id : s.id ≡ t.id
  pub meta : s.meta ≡ t.meta
  pub write_tail : s.write_tail ≡ t.write_tail
  pub pending : s.pending ≡ t.pending
  pub tail : s.tail ≡ t.tail
  pub closed : s.closed ≡ t.closed
  pub live_readers : s.live_readers ≡ t.live_readers
  pub wake_requests : s.wake_requests ≡ t.wake_requests
  pub cache : s.cache ≡ t.cache

pub SameCore-refl : (s : Streamer) → SameCore s s
SameCore-refl s = record {
  path = refl;
  id = refl;
  meta = refl;
  write_tail = refl;
  pending = refl;
  tail = refl;
  closed = refl;
  live_readers = refl;
  wake_requests = refl;
  cache = refl;
}

pub SameCore-trans : (s t u : Streamer) → SameCore s t → SameCore t u → SameCore s u
SameCore-trans s t u a b = record {
  path = a.path ∙ b.path;
  id = a.id ∙ b.id;
  meta = a.meta ∙ b.meta;
  write_tail = a.write_tail ∙ b.write_tail;
  pending = a.pending ∙ b.pending;
  tail = a.tail ∙ b.tail;
  closed = a.closed ∙ b.closed;
  live_readers = a.live_readers ∙ b.live_readers;
  wake_requests = a.wake_requests ∙ b.wake_requests;
  cache = a.cache ∙ b.cache;
}

cache_producer-core :
    (id : Bytes) (o : Option ProducerState) (s : Streamer) → SameCore s (cache_producer id o s).1
unfolding cache_producer
cache_producer-core id none s = ground arith
cache_producer-core id (some st) s = ground arith

module _ (store : Storage) where
  open store use {Db, get}

  load_producer-core :
      (db : Db) (id : Bytes) (s : Streamer) → SameCore s (load_producer store db id s).1
  unfolding load_producer
  load_producer-core db id s = ground (
    arith,
    SameCore-refl s,
    cache_producer-core id (producer_value (get db (producer_key s.id id))) s,
  )

  or_load-core :
      (db : Db) (id : Bytes) (o : Option ProducerState) (s : Streamer)
      → SameCore s (or_load store db id o s).1
  unfolding or_load
  or_load-core db id none s = load_producer-core db id s
  or_load-core db id (some st) s = SameCore-refl s

  pub eff_producer-core :
      (db : Db) (pend : Pending) (id : Bytes) (s : Streamer)
      → SameCore s (eff_producer store db pend id s).1
  unfolding eff_producer
  eff_producer-core db pend id s = or_load-core db id (overlay id pend.producers) s

  eff_writer_seq_of-core :
      (db : Db) (o : Option Bytes) (s : Streamer) → SameCore s (eff_writer_seq_of store db o s).1
  unfolding eff_writer_seq_of load_writer_seq
  eff_writer_seq_of-core db none s = ground arith
  eff_writer_seq_of-core db (some v) s = SameCore-refl s

  pub eff_writer_seq-core :
      (db : Db) (pend : Pending) (s : Streamer) → SameCore s (eff_writer_seq store db pend s).1
  unfolding eff_writer_seq
  eff_writer_seq-core db pend s = eff_writer_seq_of-core db pend.writer_seq s

  -- A read of a producer's state that fails, of a producer that was not loaded before, is
  -- remembered as "no state": whatever the store holds later, the streamer keeps answering from
  -- that.
  pub load_producer-failed_read :
      (db later : Db) (id : Bytes) (s : Streamer) (e : Err)
      → contains id s.producer_loaded ≡ false
      → lookup id s.producers ≡ none
      → get db (producer_key s.id id) ≡ err e
      → (load_producer store later id (load_producer store db id s).1).0 ≡ none
  unfolding load_producer cache_producer contains producer_value
  load_producer-failed_read db later id s e fresh unknown failed =
      rw (fresh, failed, bytes_eq_self id) unknown
