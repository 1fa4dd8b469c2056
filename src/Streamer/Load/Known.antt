-- ===== src/Streamer/Load/Known.antt =====
-- What the caches hold after a load: a producer that was asked for is loaded, and its state is kept.
use yasdb.Prelude.{◌≤◌, ◌≡◌, refl, true, Option, none, some, if-elim, arith}
use yasdb.Prelude.Bytes.{Bytes, bytes_eq_self}
use yasdb.Prelude.Map.{lookup, contains}
use yasdb.Keys.{producer_key}
use yasdb.Meta.{ProducerState}
use yasdb.Producer.{ProducerHeaders}
use yasdb.Storage.{Storage}
use yasdb.Streamer.{Streamer, Pending}
use yasdb.Streamer.Load.{
  eff_producer, eff_writer_seq, or_load, eff_writer_seq_of, load_producer, load_writer_seq,
  cache_producer, producer_value, overlay,
}

-- The streamer knows a state of the producer under which the request is an old one.
pub record Knows (s : Streamer) (h : ProducerHeaders) (st : ProducerState) : Type 0 where
  pub loaded : contains h.id s.producer_loaded ≡ true
  pub state : lookup h.id s.producers ≡ some st
  pub epoch : st.epoch ≡ h.epoch
  pub not_new : h.seq ≤ st.last_seq

cached-loaded :
    (id : Bytes) (o : Option ProducerState) (s : Streamer)
    → contains id (cache_producer id o s).1.producer_loaded ≡ true
unfolding cache_producer contains
cached-loaded id none s = rw (bytes_eq_self id)
cached-loaded id (some st) s = rw (bytes_eq_self id)

module _ (store : Storage) where
  open store use {Db, get}

  -- A known state is found without a read.
  pub known_state :
      (db : Db) (pend : Pending) (s : Streamer) (h : ProducerHeaders) (st : ProducerState)
      → pend.producers ≡ none
      → Knows s h st
      → eff_producer store db pend h.id s ≡ (some st, s)
  unfolding eff_producer overlay or_load load_producer
  known_state db pend s h st fresh k = rw (fresh, overlay, or_load, k.loaded, k.state)

  -- Once asked for at the start of a burst, a producer is loaded.
  pub eff_producer-loaded :
      (db : Db) (pend : Pending) (id : Bytes) (s : Streamer)
      → pend.producers ≡ none
      → contains id (eff_producer store db pend id s).1.producer_loaded ≡ true
  unfolding eff_producer overlay or_load load_producer
  eff_producer-loaded db pend id s fresh =
      rw (fresh, overlay, or_load)
        (if-elim (λ (r : Option ProducerState × Streamer). contains id r.1.producer_loaded ≡ true)
          (contains id s.producer_loaded) _ _ (λ h. h)
          (λ h. cached-loaded id (producer_value (get db (producer_key s.id id))) s))

  writer_seq_of-keeps :
      (db : Db) (o : Option Bytes) (s : Streamer)
      → ((eff_writer_seq_of store db o s).1.producer_loaded ≡ s.producer_loaded)
        × ((eff_writer_seq_of store db o s).1.producers ≡ s.producers)
  unfolding eff_writer_seq_of load_writer_seq
  writer_seq_of-keeps db none s = ground arith
  writer_seq_of-keeps db (some v) s = (refl, refl)

  pub eff_writer_seq-keeps :
      (db : Db) (pend : Pending) (s : Streamer)
      → ((eff_writer_seq store db pend s).1.producer_loaded ≡ s.producer_loaded)
        × ((eff_writer_seq store db pend s).1.producers ≡ s.producers)
  unfolding eff_writer_seq
  eff_writer_seq-keeps db pend s = writer_seq_of-keeps db pend.writer_seq s
