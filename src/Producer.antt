-- ===== src/Producer.antt =====
-- Idempotent producers: internal/ds/producer.go.
pub mod Once
mod Tests
use yasdb.Prelude.{
  ℕ, ◌+◌, ◌%◌, ◌^◌, Bool, true, false, Option, none, some, List, [], ◌∷◌, ltb, leb, ◌==◌,
  if◌then◌else◌,
}
use yasdb.Prelude.Bytes.{Bytes}
use yasdb.Meta.{ProducerState}

pub record ProducerHeaders : Type 0 where
  pub id : Bytes
  pub epoch : ℕ
  pub seq : ℕ

-- `producerAction`: each kind with the fields that are valid for it.
pub data ProducerAction : Type 0 where
  accept : ProducerState → ProducerAction
  duplicate : ProducerAction
  stale_epoch : ℕ → ProducerAction
  bad_seq_start : ProducerAction
  gap : ℕ → ℕ → ProducerAction

-- `producerState{epoch: epoch, lastSeq: lastSeq}`, with `closedBy` at its zero.
abbrev pub fresh_state : ℕ → ℕ → ProducerState
fresh_state epoch last_seq = record { epoch = epoch; last_seq = last_seq; closed_by = false }

-- The `switch` for a request of the current epoch.
same_epoch : ProducerState → ProducerHeaders → ProducerAction
same_epoch st h =
    if leb h.seq st.last_seq
    then duplicate
    else (if h.seq == (st.last_seq + 1) % 2 ^ 64
        then accept (fresh_state h.epoch h.seq)
        else gap ((st.last_seq + 1) % 2 ^ 64) h.seq)

-- The state is `none` where `exists` is false.
unfoldable pub validate_producer : Option ProducerState → ProducerHeaders → ProducerAction
unfolding same_epoch
validate_producer none h = if h.seq == 0 then accept (fresh_state h.epoch 0) else gap 0 h.seq
validate_producer (some st) h =
    if ltb h.epoch st.epoch
    then stale_epoch st.epoch
    else (if ltb st.epoch h.epoch
        then (if h.seq == 0 then accept (fresh_state h.epoch 0) else bad_seq_start)
        else same_epoch st h)
