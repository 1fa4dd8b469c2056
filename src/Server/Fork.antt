-- ===== src/Server/Fork.antt =====
-- Forks: internal/ds/fork.go. A fork keeps the records from its divergence on, and inherits those
-- before it, so a range of a fork is resolved to segments of the streams that hold it.
pub mod Cover
pub mod Plan
pub mod Create
use yasdb.Prelude.{
  ℕ, zero, suc, ◌+◌, ◌^◌, ◌%◌, Bool, true, false, ◌&&◌, Option, none, some, List, [], ◌∷◌, ◌++◌,
  ltb, leb, ◌==◌, if◌then◌else◌, length, Result, ok, err, ◌>>=◌,
}
use yasdb.Prelude.Bytes.{Bytes}
use yasdb.Keys.{record_key}
use yasdb.Meta.{StreamMeta, record_payload}
use yasdb.Storage.{Storage}
use yasdb.Server.{load_meta_by_id}

pub record Segment : Type 0 where
  pub id : ℕ
  pub start_seq : ℕ
  pub end_seq : ℕ

-- The part of [start, end) that the fork holds itself.
own_part : ℕ → ℕ → ℕ → ℕ → List Segment
own_part id fork_offset start end =
    if ltb fork_offset end
    then record {
      id = id;
      start_seq = (if ltb start fork_offset then fork_offset else start);
      end_seq = end;
    }
      ∷ []
    else []

-- What is inherited, and then the fork's own part.
behind : List Segment → Option (Result (List Segment)) → Option (Result (List Segment))
behind own none = none
behind own (some (err e)) = some (err e)
behind own (some (ok segs)) = some (ok (segs ++ own))

-- `resolveSegments`, with `resolveSegmentsByID` for the source as an argument.
unfoldable pub resolve_with :
    (ℕ → ℕ → ℕ → Option (Result (List Segment)))
    → ℕ
    → ℕ
    → ℕ
    → ℕ
    → ℕ
    → Option (Result (List Segment))
unfolding own_part behind
resolve_with inherited id forked_from fork_offset start end =
    if leb end start
    then some (ok [])
    else (if forked_from == 0
        then some (ok (record { id = id; start_seq = start; end_seq = end } ∷ []))
        else behind (own_part id fork_offset start end) (
            if ltb start fork_offset
            then inherited forked_from start (if ltb fork_offset end then fork_offset else end)
            else some (ok [])))

-- A source that vanished counts as empty.
of_loaded :
    (ℕ → ℕ → ℕ → Option (Result (List Segment)))
    → ℕ
    → ℕ
    → ℕ
    → Result (Option (StreamMeta × Bytes))
    → Option (Result (List Segment))
unfolding resolve_with
of_loaded inherited id start end (err e) = some (err e)
of_loaded inherited id start end (ok none) = some (ok [])
of_loaded inherited id start end (ok (some (m, path))) =
    resolve_with inherited id m.forked_from m.fork_offset start end

unfoldable pub last_segment : List Segment → Option Segment
last_segment [] = none
last_segment (s ∷ []) = some s
last_segment (s ∷ t ∷ segs) = last_segment (t ∷ segs)

pub payload_of : Option Bytes → Option Bytes
payload_of none = none
payload_of (some v) = some (record_payload v)

module _ (store : Storage) where
  open store use {Db, get}

  -- `fuel` bounds the length of the chain of forks; where it is too short, the result is `none`.
  unfoldable pub resolve_segments_by_id : ℕ → Db → ℕ → ℕ → ℕ → Option (Result (List Segment))
  unfolding of_loaded
  resolve_segments_by_id zero db id start end = none
  resolve_segments_by_id (suc fuel) db id start end =
      of_loaded (resolve_segments_by_id fuel db) id start end (load_meta_by_id store db id)

  unfoldable pub resolve_segments : ℕ → Db → ℕ → ℕ → ℕ → ℕ → ℕ → Option (Result (List Segment))
  resolve_segments fuel db id forked_from fork_offset start end =
      resolve_with (resolve_segments_by_id fuel db) id forked_from fork_offset start end

  record_in : Db → ℕ → Option Segment → Result (Option Bytes)
  unfolding payload_of
  record_in db seq none = ok none
  record_in db seq (some seg) = do v ← get db (record_key seg.id seq); ok (payload_of v)

  record_of : Db → ℕ → Option (Result (List Segment)) → Option (Result (Option Bytes))
  unfolding record_in last_segment
  record_of db seq none = none
  record_of db seq (some (err e)) = some (err e)
  record_of db seq (some (ok segs)) = some (record_in db seq (last_segment segs))

  unfoldable pub record_at : ℕ → Db → ℕ → ℕ → Option (Result (Option Bytes))
  unfolding record_of
  record_at fuel db id seq =
      record_of db seq (resolve_segments_by_id fuel db id seq ((seq + 1) % 2 ^ 64))
