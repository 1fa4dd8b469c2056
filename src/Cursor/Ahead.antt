-- ===== src/Cursor/Ahead.antt =====
-- A cursor is ahead of the one that the client sent.
use yasdb.Prelude.{
  ℕ, zero, suc, ◌+◌, ◌/◌, ◌%◌, ◌^◌, ◌≤◌, ◌<◌, ◌≡◌, refl, ◌∙◌, Option, none, some, [], ◌∷◌, leb, ltb,
  length, length-append, Bool-cases, inl, inr, arith,
}
use yasdb.Prelude.Bytes.{Bytes}
use yasdb.Decimal.{parse_digits, parse_uint}
use yasdb.Decimal.Laws.{parse_digits-append, nonempty_uint, div_lt_pow}
use yasdb.Cursor.{format_digits, format_uint, current_interval, next_cursor, compute_cursor}

parse_digits-format_digits :
    (n v : ℕ) → v < 10 ^ n → v < 2 ^ 64 → parse_digits 0 (format_digits n v) ≡ some v
unfolding parse_digits format_digits
parse_digits-format_digits zero v h k = ground arith
parse_digits-format_digits (suc n) v h k = elim (Bool-cases (ltb v 10)) [
  | inl one ↦ rw one (ground arith)
  | inr more ↦
      let before =
        parse_digits-append 0 (v / 10) (format_digits n (v / 10)) ((48 + v % 10) ∷ [])
          (parse_digits-format_digits n (v / 10) (div_lt_pow n v h) (omega arith)) in
      rw (more, before) (ground arith)
]

format_digits_nonempty : (n v : ℕ) → 0 < length (format_digits (suc n) v)
unfolding format_digits
format_digits_nonempty n v = elim (Bool-cases (ltb v 10)) [
  | inl one ↦ rw one (omega arith)
  | inr more ↦
      rw more (omega (arith, length-append {0} (format_digits n (v / 10)) ((48 + v % 10) ∷ [])))
]

-- A formatted number is parsed back.
parse_uint-format_uint : (v : ℕ) → v < 2 ^ 64 → parse_uint (format_uint v) ≡ some v
unfolding format_uint
parse_uint-format_uint v h =
    nonempty_uint (format_digits 20 v) (format_digits_nonempty 19 v)
    ∙ parse_digits-format_digits 20 v (omega arith) h

-- What the client's number becomes.
next_cursor_bounds :
    (client : Option ℕ) (jitter cur : ℕ)
    → jitter < 180
    → cur < 2 ^ 64
    → ((c : ℕ) → client ≡ some c → c + 180 < 2 ^ 64)
    → (next_cursor client jitter cur < 2 ^ 64)
      × (cur ≤ next_cursor client jitter cur)
      × ((c : ℕ) → client ≡ some c → c < next_cursor client jitter cur)
unfolding next_cursor
next_cursor_bounds none jitter cur j h small = (h, omega arith, λ c e. cc)
next_cursor_bounds (some d) jitter cur j h small =
    let low = small d refl in
    elim (Bool-cases (leb cur d)) [
      | inl ahead ↦
          rw ahead
            (omega arith, ground arith, λ c e. let same : d ≡ c = cc in ground (arith, low, same))
      | inr behind ↦
          rw behind (h, omega arith, λ c e. let same : d ≡ c = cc in ground (arith, behind, same))
    ]

-- The cursor of a response, at any time and for any jitter below 180, is a number: at least that of the
-- current interval, and larger than the client's, if it sent one that is smaller than 2 ^ 64 - 180.
-- So a client that echoes its cursors sends larger and larger ones.
pub compute_cursor-ahead :
    (client : Bytes) (now : Option ℕ) (jitter : ℕ)
    → jitter < 180
    → current_interval now < 2 ^ 64
    → ((c : ℕ) → parse_uint client ≡ some c → c + 180 < 2 ^ 64)
    → (n : ℕ) × (parse_uint (compute_cursor client now jitter) ≡ some n)
      × (current_interval now ≤ n)
      × ((c : ℕ) → parse_uint client ≡ some c → c < n)
unfolding compute_cursor
compute_cursor-ahead client now jitter j h small =
    let (low, current, ahead) =
      next_cursor_bounds (parse_uint client) jitter (current_interval now) j h small in
    (
      next_cursor (parse_uint client) jitter (current_interval now),
      parse_uint-format_uint (next_cursor (parse_uint client) jitter (current_interval now)) low,
      current,
      ahead,
    )
