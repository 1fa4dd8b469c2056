-- ===== src/LiveCache.antt =====
-- The window of recent records that live readers are served from: internal/ds/livecache.go. `try_read`
-- has no `dst`: the source only reuses its buffer. Byte counts are Go's `int`, which does not wrap at
-- the sizes of a window.
pub mod Window
pub mod Reaches
mod Tests
use yasdb.Prelude.{
  ℕ, ◌+◌, ◌-◌, ◌%◌, ◌^◌, Bool, true, ◌||◌, not, Option, none, some, List, [], ◌∷◌, ◌++◌, ltb, leb,
  ◌==◌, if◌then◌else◌, length, take, drop,
}
use yasdb.Prelude.Bytes.{Bytes}
use yasdb.Offset.{Offset, tail_offset}
use yasdb.Json.{append_json_array}

pub record CachedRecord : Type 0 where
  pub seq : ℕ
  pub payload : Bytes

pub record LiveCache : Type 0 where
  pub recs : List CachedRecord
  pub cur_bytes : ℕ
  pub max_recs : ℕ
  pub max_bytes : ℕ
  pub hits : ℕ

unfoldable pub new : ℕ → ℕ → LiveCache
new max_recs max_bytes = record {
  recs = [];
  cur_bytes = 0;
  max_recs = max_recs;
  max_bytes = max_bytes;
  hits = 0;
}

-- The payloads as records from `first_seq` on.
unfoldable pub number_from : ℕ → List Bytes → List CachedRecord
number_from seq [] = []
number_from seq (p ∷ ps) = record { seq = seq; payload = p } ∷ number_from ((seq + 1) % 2 ^ 64) ps

unfoldable pub total_bytes : List CachedRecord → ℕ
total_bytes [] = 0
total_bytes (r ∷ rs) = length r.payload + total_bytes rs

-- The sequence number that would continue the window.
unfoldable pub next_seq : List CachedRecord → Option ℕ
next_seq [] = none
next_seq (r ∷ []) = some ((r.seq + 1) % 2 ^ 64)
next_seq (r ∷ s ∷ rs) = next_seq (s ∷ rs)

continues : ℕ → Option ℕ → Bool
continues first_seq none = true
continues first_seq (some n) = first_seq == n

-- The eviction loop: the oldest records go while a bound is passed, but never the last one.
unfoldable pub evict : ℕ → ℕ → List CachedRecord → ℕ → List CachedRecord × ℕ
evict max_recs max_bytes [] cur = ([], cur)
evict max_recs max_bytes (r ∷ []) cur = (r ∷ [], cur)
evict max_recs max_bytes (r ∷ s ∷ rs) cur =
    let rest = evict max_recs max_bytes (s ∷ rs) (cur - length r.payload) in
    if ltb max_recs (length (r ∷ s ∷ rs)) || ltb max_bytes cur then rest else (r ∷ s ∷ rs, cur)

append_run : ℕ → List Bytes → LiveCache → LiveCache
append_run first_seq payloads c =
    let fits = continues first_seq (next_seq c.recs) in
    let kept = if fits then c.recs else [] in
    let cur = if fits then c.cur_bytes else 0 in
    let run = number_from first_seq payloads in
    let (recs, cur_bytes) = evict c.max_recs c.max_bytes (kept ++ run) (cur + total_bytes run) in
    record c { recs = recs; cur_bytes = cur_bytes }

unfoldable pub append : ℕ → List Bytes → LiveCache → LiveCache
unfolding append_run continues number_from total_bytes next_seq
append first_seq [] c = c
append first_seq (p ∷ ps) c = append_run first_seq (p ∷ ps) c

unfoldable pub reset : LiveCache → LiveCache
reset c = record c { recs = []; cur_bytes = 0 }

unfoldable pub payloads : List CachedRecord → List Bytes
payloads [] = []
payloads (r ∷ rs) = r.payload ∷ payloads rs

unfoldable pub concat : List Bytes → Bytes
concat [] = []
concat (p ∷ ps) = p ++ concat ps

-- The body of whole records: one JSON array, or their bytes.
unfoldable pub body_of : Bool → List Bytes → Bytes
unfolding concat
body_of is_json ps = if is_json then append_json_array [] ps else concat ps

-- Body and next offset of a read, and whether it reached the tail.
abbrev pub Served : Type 0
Served = Bytes × Offset × Bool

-- tailSeq > hi, where hi follows the last record.
past_window : ℕ → Option ℕ → Bool
past_window tail_seq none = true
past_window tail_seq (some hi) = ltb hi tail_seq

-- The records at the indices [from, to), if those are indices, and fewer than `limit` bytes.
pick : Bool → ℕ → ℕ → ℕ → ℕ → List CachedRecord → Option Served
pick is_json from to tail_seq limit recs =
    if ltb (length recs) to || leb to from
    then none
    else let picked = take (to - from) (drop from recs) in
      if leb limit (total_bytes picked)
      then none
      else some (body_of is_json (payloads picked), tail_offset tail_seq, true)

try_window : Bool → Offset → ℕ → ℕ → List CachedRecord → Option Served
unfolding past_window pick
try_window is_json start tail_seq limit [] = none
try_window is_json start tail_seq limit (r ∷ rs) =
    let lo = r.seq in
    if ltb start.seq lo || past_window tail_seq (next_seq (r ∷ rs))
    then none
    else pick is_json (start.seq - lo) (tail_seq - lo) tail_seq limit (r ∷ rs)

served : LiveCache → Option Served → Option Served × LiveCache
served c none = (none, c)
served c (some r) = (some r, record c { hits = c.hits + 1 })

unfoldable pub try_read : Bool → Offset → ℕ → ℕ → LiveCache → Option Served × LiveCache
unfolding try_window served total_bytes payloads body_of
try_read is_json start tail_seq limit c =
    if not (start.byte == 0) || leb tail_seq start.seq
    then (none, c)
    else served c (try_window is_json start tail_seq limit c.recs)
