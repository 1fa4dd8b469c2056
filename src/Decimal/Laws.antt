-- ===== src/Decimal/Laws.antt =====
-- Padded digits read back, and what the strict parsers accept.
use yasdb.Prelude.{
  ℕ, zero, suc, ◌+◌, ◌-◌, ◌*◌, ◌/◌, ◌%◌, ◌^◌, ◌≤◌, ◌<◌, ◌≡◌, refl, ap, sym, ap₂, subst, append-nil,
  append_assoc, ◌∙◌, Option, none, some, Bool-cases, inl, inr, if◌then◌else◌, [], ◌∷◌, ◌++◌, length,
  length-append, ltb, ◌==◌, arith,
}
use native.Mathlib.Nat.{pow-suc}
use yasdb.Prelude.Bytes.{Bytes, lex_lt, bytes_eq, lex_lt-append, bytes_eq-append}
use yasdb.Decimal.{
  parse_digits, parse_uint, pad_digits, at_most, parse_strict_uint, parse_producer_int, max_js_int,
}

pub length-pad_digits : (n v : ℕ) → length (pad_digits n v) ≡ n
unfolding pad_digits
length-pad_digits zero v = refl
length-pad_digits (suc n) v = omega (
  arith,
  length-append {0} (pad_digits n (v / 10)) ((48 + v % 10) ∷ []),
  length-pad_digits n (v / 10),
)

pub div_lt_pow : (n v : ℕ) → v < 10 ^ suc n → v / 10 < 10 ^ n
div_lt_pow n v h = omega (arith, pow-suc 10 n)

-- The order of padded numbers is that of the numbers.
pub bytes_eq-pad_digits :
    (n a b : ℕ) → a < 10 ^ n → b < 10 ^ n → bytes_eq (pad_digits n a) (pad_digits n b) ≡ a == b
unfolding pad_digits bytes_eq
bytes_eq-pad_digits zero a b ha hb = ground arith
bytes_eq-pad_digits (suc n) a b ha hb =
    rw
      (
        bytes_eq-append (pad_digits n (a / 10)) (pad_digits n (b / 10)) ((48 + a % 10) ∷ [])
            ((48 + b % 10) ∷ [])
            (length-pad_digits n (a / 10) ∙ sym (length-pad_digits n (b / 10))),
        bytes_eq-pad_digits n (a / 10) (b / 10) (div_lt_pow n a ha) (div_lt_pow n b hb),
      )
      (ground arith)

pub lex_lt-pad_digits :
    (n a b : ℕ) → a < 10 ^ n → b < 10 ^ n → lex_lt (pad_digits n a) (pad_digits n b) ≡ ltb a b
unfolding pad_digits lex_lt bytes_eq
lex_lt-pad_digits zero a b ha hb = ground arith
lex_lt-pad_digits (suc n) a b ha hb =
    rw
      (
        lex_lt-append (pad_digits n (a / 10)) (pad_digits n (b / 10)) ((48 + a % 10) ∷ [])
            ((48 + b % 10) ∷ [])
            (length-pad_digits n (a / 10) ∙ sym (length-pad_digits n (b / 10))),
        lex_lt-pad_digits n (a / 10) (b / 10) (div_lt_pow n a ha) (div_lt_pow n b hb),
        bytes_eq-pad_digits n (a / 10) (b / 10) (div_lt_pow n a ha) (div_lt_pow n b hb),
      )
      (ground arith)

-- Reading goes on behind the digits read.
pub parse_digits-append :
    (n m : ℕ) (s t : Bytes) → parse_digits n s ≡ some m → parse_digits n (s ++ t) ≡ parse_digits m t
unfolding parse_digits
parse_digits-append n m [] t h = ground arith
parse_digits-append n m (c ∷ s) t h = ground (arith, parse_digits-append (n * 10 + (c - 48)) m s t)

parse_digits-pad_digits :
    (n v : ℕ) → n ≤ 19 → v < 10 ^ n → v < 2 ^ 64 → parse_digits 0 (pad_digits n v) ≡ some v
unfolding parse_digits pad_digits
parse_digits-pad_digits zero v hn h k = ground arith
parse_digits-pad_digits (suc n) v hn h k =
    rw
      (parse_digits-append 0 (v / 10) (pad_digits n (v / 10)) ((48 + v % 10) ∷ [])
        (parse_digits-pad_digits n (v / 10) (omega arith) (div_lt_pow n v h) (omega arith)))
      (ground arith)

pub nonempty_uint : (s : Bytes) → 0 < length s → parse_uint s ≡ parse_digits 0 s
unfolding parse_uint
nonempty_uint [] h = absurd (omega arith)
nonempty_uint (c ∷ s) h = refl

pub parse_uint-pad16 : (v : ℕ) → v < 10 ^ 16 → parse_uint (pad_digits 16 v) ≡ some v
parse_uint-pad16 v h =
    nonempty_uint (pad_digits 16 v) (omega (arith, length-pad_digits 16 v))
    ∙ parse_digits-pad_digits 16 v (omega arith) h (omega arith)

pad_digits-snoc :
    (k n c v : ℕ) (s : Bytes)
    → v / 10 ≡ n
    → 48 + v % 10 ≡ c
    → pad_digits (suc k) v ++ s ≡ pad_digits k n ++ c ∷ s
unfolding pad_digits
pad_digits-snoc k n c v s p q = rw (p, q) (append_assoc (pad_digits k n) (c ∷ []) s)

-- What was read, padded to the length of the text, is the text: k digits of n stand in front.
pad_digits-parse_digits :
    (k n m : ℕ) (s : Bytes)
    → parse_digits n s ≡ some m
    → pad_digits (length s + k) m ≡ pad_digits k n ++ s
unfolding parse_digits
pad_digits-parse_digits k n m [] h =
    rw (append-nil (pad_digits k n)) (ap₂ pad_digits (omega arith) (ground arith))
pad_digits-parse_digits k n m (c ∷ s) h =
    let digit : (n * 10 + (c - 48)) / 10 ≡ n = ground arith in
    let last : 48 + (n * 10 + (c - 48)) % 10 ≡ c = ground arith in
    let ih : pad_digits (length s + suc k) m ≡ pad_digits (suc k) (n * 10 + (c - 48)) ++ s =
      pad_digits-parse_digits (suc k) (n * 10 + (c - 48)) m s (ground arith) in
    ap (λ l. pad_digits l m) (omega arith)
    ∙ ih
    ∙ pad_digits-snoc k n c (n * 10 + (c - 48)) s digit last

pub pad_digits-parse_uint :
    (s : Bytes) (m : ℕ) → parse_uint s ≡ some m → pad_digits (length s) m ≡ s
unfolding parse_uint pad_digits
pad_digits-parse_uint [] m h = refl
pad_digits-parse_uint (c ∷ s) m h =
    subst (λ l. pad_digits l m ≡ c ∷ s) {x = length (c ∷ s) + 0} {y = length (c ∷ s)} (omega arith)
      (pad_digits-parse_digits 0 0 m (c ∷ s) h)

at_most_bound :
    (bound n : ℕ) (parsed : Option ℕ)
    → at_most bound parsed ≡ some n
    → (parsed ≡ some n) × (n ≤ bound)
unfolding at_most
at_most_bound bound n none h = cc
at_most_bound bound n (some m) h = elim (Bool-cases (ltb bound m)) [
  | inl above ↦ let e : none ≡ some n = sym (ap (λ b. if b then none else some m) above) ∙ h in cc
  | inr low ↦
      let e : some m ≡ some n = sym (ap (λ b. if b then none else some m) low) ∙ h in
      let same : m ≡ n = cc in (e, ground (arith, low, same))
]

-- A number of a producer is a strict one below 2 ^ 53.
pub parse_producer_int_bound :
    (s : Bytes) (n : ℕ)
    → parse_producer_int s ≡ some n
    → (parse_strict_uint s ≡ some n) × (n ≤ max_js_int)
unfolding parse_producer_int
parse_producer_int_bound s n h = at_most_bound max_js_int n (parse_strict_uint s) h
