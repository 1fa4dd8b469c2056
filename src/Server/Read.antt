-- ===== src/Server/Read.antt =====
-- Reads of stored records: `readRange`, `readSegmentsBinary` and `readSegmentsJSON` of
-- internal/ds/read.go. The iterator of a scan is the list of its rows.
pub mod Prefix
pub mod Reaches
mod Tests
use yasdb.Prelude.{
  ℕ, ◌+◌, ◌-◌, ◌%◌, ◌^◌, Bool, true, false, ◌&&◌, Option, none, some, List, [], ◌∷◌, ◌++◌, ltb, leb,
  ◌==◌, if◌then◌else◌, length, take, drop, Result, ok, err, ◌>>=◌,
}
use yasdb.Prelude.Bytes.{Bytes}
use yasdb.Keys.{record_key, record_prefix_end}
use yasdb.Meta.{record_payload}
use yasdb.Offset.{Offset}
use yasdb.Json.{wrap_json_array}
use yasdb.Storage.{Storage}
use yasdb.Server.Expiry.{number_at}
use yasdb.Server.Fork.{Segment, resolve_segments}

-- What a read has so far: the body, the position behind it, and whether it is to stop.
pub record Progress : Type 0 where
  pub buf : Bytes
  pub next : Offset
  pub stopped : Bool

-- One record of a segment, of which `skip` bytes were read before.
unfoldable pub take_record : Offset → ℕ → ℕ → Bytes → Progress → Progress
take_record start limit rec_seq payload p =
    let asked = if rec_seq == start.seq then start.byte else 0 in
    let skip = if ltb (length payload) asked then length payload else asked in
    let avail = drop skip payload in
    let room = limit - length p.buf in
    if leb (length avail) room
    then record {
      buf = p.buf ++ avail;
      next = record { seq = (rec_seq + 1) % 2 ^ 64; byte = 0 };
      stopped = false;
    }
    else record {
      buf = p.buf ++ take room avail;
      next = record { seq = rec_seq; byte = (skip + room) % 2 ^ 64 };
      stopped = true;
    }

-- The loop over the rows of a segment.
unfoldable pub binary_rows : Offset → ℕ → ℕ → List (Bytes × Bytes) → Progress → Progress
unfolding take_record
binary_rows start limit end_seq [] p = p
binary_rows start limit end_seq ((k, v) ∷ rows) p =
    let rec_seq = number_at 9 k in
    let q = take_record start limit rec_seq (record_payload v) p in
    let rest = binary_rows start limit end_seq rows q in
    if leb limit (length p.buf)
    then p
    else (if leb end_seq rec_seq then p else (if q.stopped then q else rest))

-- What a JSON read has so far.
pub record Collected : Type 0 where
  pub recs : List Bytes
  pub total : ℕ
  pub next_seq : ℕ
  pub stopped : Bool

take_message : ℕ → ℕ → Bytes → Collected → Collected
take_message limit rec_seq payload c =
    let total = c.total + length payload in
    record {
      recs = c.recs ++ (payload ∷ []);
      total = total;
      next_seq = (rec_seq + 1) % 2 ^ 64;
      stopped = leb limit total;
    }

unfoldable pub json_rows : ℕ → ℕ → List (Bytes × Bytes) → Collected → Collected
unfolding take_message
json_rows limit end_seq [] c = c
json_rows limit end_seq ((k, v) ∷ rows) c =
    let rec_seq = number_at 9 k in
    let payload = record_payload v in
    let d = take_message limit rec_seq payload c in
    let rest = json_rows limit end_seq rows d in
    if leb end_seq rec_seq
    then c
    else (if ltb 0 (length c.recs) && ltb limit (c.total + length payload)
        then record c { stopped = true }
        else (if d.stopped then d else rest))

abbrev pub ReadResult : Type 0
ReadResult = Result (Bytes × Offset × Bool)

binary_result : ℕ → Progress → Bytes × Offset × Bool
binary_result tail_seq p = (p.buf, p.next, leb tail_seq p.next.seq)

json_result : ℕ → Collected → Bytes × Offset × Bool
json_result tail_seq c =
    (wrap_json_array c.recs, record { seq = c.next_seq; byte = 0 }, leb tail_seq c.next_seq)

module _ (store : Storage) where
  open store use {Db, scan}

  abbrev scan_segment : Db → Segment → Result (List (Bytes × Bytes))
  scan_segment db seg = scan db (record_key seg.id seg.start_seq) (record_prefix_end seg.id)

  binary_segments : Db → Offset → ℕ → List Segment → Progress → Result Progress
  unfolding binary_rows
  binary_segments db start limit [] p = ok p
  binary_segments db start limit (seg ∷ segs) p = scan_segment db seg >>= λ rows.
      let q = binary_rows start limit seg.end_seq rows p in
      let rest = binary_segments db start limit segs q in
      if q.stopped then ok q else (if leb limit (length q.buf) then ok q else rest)

  unfoldable pub read_segments_binary : Db → List Segment → Offset → ℕ → ℕ → ReadResult
  unfolding binary_segments binary_result
  read_segments_binary db segs start tail_seq limit = do
    p ← binary_segments db start limit segs (record { buf = []; next = start; stopped = false })
    ok (binary_result tail_seq p)

  json_segments : Db → ℕ → List Segment → Collected → Result Collected
  unfolding json_rows
  json_segments db limit [] c = ok c
  json_segments db limit (seg ∷ segs) c =
      if c.stopped
      then ok c
      else (scan_segment db seg >>= λ rows.
          json_segments db limit segs (json_rows limit seg.end_seq rows c))

  unfoldable pub read_segments_json : Db → List Segment → Offset → ℕ → ℕ → ReadResult
  unfolding json_segments json_result
  read_segments_json db segs start tail_seq limit = do
    c ←
        json_segments db limit segs
          (record { recs = []; total = 0; next_seq = start.seq; stopped = false })
    ok (json_result tail_seq c)

  read_resolved : Bool → Db → Offset → ℕ → ℕ → Result (List Segment) → ReadResult
  unfolding read_segments_binary read_segments_json
  read_resolved is_json db start tail_seq limit (err e) = err e
  read_resolved is_json db start tail_seq limit (ok segs) =
      if is_json
      then read_segments_json db segs start tail_seq limit
      else read_segments_binary db segs start tail_seq limit

  -- `none` where the fuel is too small for the chain of forks.
  unfoldable pub read_range : ℕ → Db → ℕ → ℕ → ℕ → Bool → Offset → ℕ → ℕ → Option ReadResult
  unfolding read_resolved
  read_range fuel db id forked_from fork_offset is_json start tail_seq limit =
      if leb tail_seq start.seq
      then some (ok ((if is_json then wrap_json_array [] else []), start, true))
      else elim (resolve_segments store fuel db id forked_from fork_offset start.seq tail_seq) [
        | some r ↦ some (read_resolved is_json db start tail_seq limit r)
        | none ↦ none
      ]
