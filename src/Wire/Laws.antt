-- ===== src/Wire/Laws.antt =====
-- Round trips, lengths and the order of the big-endian numbers.
use yasdb.Prelude.{
  ℕ, zero, suc, ◌+◌, ◌*◌, ◌/◌, ◌%◌, ◌^◌, ◌<◌, ◌≡◌, refl, ap, sym, ◌∙◌, [], ◌∷◌, ◌++◌, ltb, ◌==◌,
  length, length-append, All-append, arith, ok,
}
use yasdb.Prelude.Bytes.{Bytes, IsBytes, lex_lt, bytes_eq, lex_lt-append, bytes_eq-append}
use yasdb.Wire.{
  be, be64, be_uint, be_uint_from, be64_decode, be64_decode_from, u64_value, parse_u64_value,
}
use native.Mathlib.Nat.{pow-suc}

pub length-be : (n v : ℕ) → length (be n v) ≡ n
unfolding be
length-be zero v = refl
length-be (suc n) v =
    omega (arith, length-append {0} (be n (v / 256)) (v % 256 ∷ []), length-be n (v / 256))

pub length-be64 : (v : ℕ) → length (be64 v) ≡ 8
unfolding be64
length-be64 v = length-be 8 v

pub be-IsBytes : (n v : ℕ) → IsBytes (be n v)
unfolding be
be-IsBytes zero v = tt
be-IsBytes (suc n) v =
    All-append (λ c. c < 256) (be n (v / 256)) (v % 256 ∷ []) (be-IsBytes n (v / 256))
      (omega arith, tt)

be_uint_from-append :
    (acc : ℕ) (a b : Bytes) → be_uint_from acc (a ++ b) ≡ be_uint_from (be_uint_from acc a) b
unfolding be_uint_from
be_uint_from-append acc [] b = refl
be_uint_from-append acc (c ∷ a) b = be_uint_from-append (acc * 256 + c) a b

div_lt_pow : (n v : ℕ) → v < 256 ^ suc n → v / 256 < 256 ^ n
div_lt_pow n v h = omega (arith, pow-suc 256 n)

-- Reading back what was written, for every width.
pub be_uint-be : (n v : ℕ) → v < 256 ^ n → be_uint (be n v) ≡ v
unfolding be be_uint be_uint_from
be_uint-be zero v h = omega arith
be_uint-be (suc n) v h =
    rw (be_uint_from-append 0 (be n (v / 256)) (v % 256 ∷ []))
      (omega (arith, be_uint-be n (v / 256) (div_lt_pow n v h)))

pub be_uint-be64 : (v : ℕ) → v < 2 ^ 64 → be_uint (be64 v) ≡ v
unfolding be64
be_uint-be64 v h = be_uint-be 8 v h

be64_decode_from-append :
    (v : ℕ) (a b : Bytes) → be64_decode_from v (a ++ b) ≡ be64_decode_from (be64_decode_from v a) b
unfolding be64_decode_from
be64_decode_from-append v [] b = refl
be64_decode_from-append v (c ∷ a) b = be64_decode_from-append (v * 256 % 2 ^ 64 + c) a b

be64_decode-be : (n v : ℕ) → v < 256 ^ n → v < 2 ^ 64 → be64_decode (be n v) ≡ v
unfolding be be64_decode be64_decode_from
be64_decode-be zero v h k = omega arith
be64_decode-be (suc n) v h k =
    rw (be64_decode_from-append 0 (be n (v / 256)) (v % 256 ∷ []))
      (omega (arith, be64_decode-be n (v / 256) (div_lt_pow n v h) (omega arith)))

pub be64_decode-be64 : (v : ℕ) → v < 2 ^ 64 → be64_decode (be64 v) ≡ v
unfolding be64
be64_decode-be64 v h = be64_decode-be 8 v h h

pub parse_u64_value-u64_value : (v : ℕ) → v < 2 ^ 64 → parse_u64_value (u64_value v) ≡ ok v
unfolding parse_u64_value u64_value be64 be
parse_u64_value-u64_value v h = ap ok (be_uint-be 8 v h)

-- Two numbers of one width have equal bytes only if they are equal.
pub bytes_eq-be : (n a b : ℕ) → a < 256 ^ n → b < 256 ^ n → bytes_eq (be n a) (be n b) ≡ a == b
unfolding be bytes_eq
bytes_eq-be zero a b ha hb = ground arith
bytes_eq-be (suc n) a b ha hb =
    rw
      (
        bytes_eq-append (be n (a / 256)) (be n (b / 256)) (a % 256 ∷ []) (b % 256 ∷ [])
            (length-be n (a / 256) ∙ sym (length-be n (b / 256))),
        bytes_eq-be n (a / 256) (b / 256) (div_lt_pow n a ha) (div_lt_pow n b hb),
      )
      (ground arith)

-- The order of the bytes is the order of the numbers.
pub lex_lt-be : (n a b : ℕ) → a < 256 ^ n → b < 256 ^ n → lex_lt (be n a) (be n b) ≡ ltb a b
unfolding be lex_lt bytes_eq
lex_lt-be zero a b ha hb = ground arith
lex_lt-be (suc n) a b ha hb =
    rw
      (
        lex_lt-append (be n (a / 256)) (be n (b / 256)) (a % 256 ∷ []) (b % 256 ∷ [])
            (length-be n (a / 256) ∙ sym (length-be n (b / 256))),
        lex_lt-be n (a / 256) (b / 256) (div_lt_pow n a ha) (div_lt_pow n b hb),
        bytes_eq-be n (a / 256) (b / 256) (div_lt_pow n a ha) (div_lt_pow n b hb),
      )
      (ground arith)
