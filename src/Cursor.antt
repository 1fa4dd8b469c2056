-- ===== src/Cursor.antt =====
-- The cursor of live responses: internal/ds/cursor.go. The time is given as the whole seconds since the
-- epoch of cursors, or `none` before it, and `rand.Intn` as what it returns, below its bound.
pub mod Ahead
mod Tests
use yasdb.Prelude.{
  ℕ, zero, suc, ◌+◌, ◌/◌, ◌%◌, ◌^◌, Bool, Option, none, some, [], ◌∷◌, ◌++◌, leb, ltb,
  if◌then◌else◌,
}
use yasdb.Prelude.Bytes.{Bytes}
use yasdb.Decimal.{parse_uint}

abbrev pub cursor_interval_secs : ℕ
cursor_interval_secs = 20

abbrev pub max_jitter_intervals : ℕ
max_jitter_intervals = 3600 / cursor_interval_secs

-- `strconv.FormatUint(v, 10)`, from the last digit on; 20 digits are enough for 64 bits.
unfoldable pub format_digits : ℕ → ℕ → Bytes
format_digits zero v = []
format_digits (suc n) v =
    let rest = format_digits n (v / 10) in
    if ltb v 10 then (b'0' + v) ∷ [] else rest ++ (b'0' + v % 10) ∷ []

unfoldable pub format_uint : ℕ → Bytes
format_uint v = format_digits 20 v

abbrev pub current_interval : Option ℕ → ℕ
current_interval none = 0
current_interval (some secs) = secs / cursor_interval_secs

unfoldable pub next_cursor : Option ℕ → ℕ → ℕ → ℕ
next_cursor none jitter cur = cur
next_cursor (some c) jitter cur = if leb cur c then (c + 1 + jitter) % 2 ^ 64 else cur

-- An empty cursor does not parse either.
unfoldable pub compute_cursor : Bytes → Option ℕ → ℕ → Bytes
compute_cursor client_cursor now jitter =
    format_uint (next_cursor (parse_uint client_cursor) jitter (current_interval now))
