-- ===== src/Keys/Order.antt =====
-- What a scan of a key range finds.
use yasdb.Prelude.{
  ℕ, ◌+◌, ◌%◌, ◌^◌, ◌<◌, ◌≡◌, refl, sym, ◌∙◌, Bool, true, false, ◌&&◌, ◌||◌, not, [], ◌∷◌, ◌++◌,
  ltb, leb, ◌==◌, length, All-append, arith, Option, none, some, append-nil,
}
use yasdb.Prelude.Bytes.{Bytes, IsBytes, lex_lt, bytes_eq, lex_lt-append, bytes_eq-append}
use yasdb.Wire.{be64}
use yasdb.Wire.Laws.{be-IsBytes, lex_lt-be, bytes_eq-be, length-be64}
use yasdb.Keys.{
  record_key, record_prefix, record_prefix_end, expiry_key, expiry_scan_end, prefix_end,
  prefix_end_at, kt_expiry_deadline,
}

-- `strings.HasPrefix(k, p)`.
unfoldable pub has_prefix : Bytes → Bytes → Bool
has_prefix [] k = true
has_prefix (x ∷ p) [] = false
has_prefix (x ∷ p) (y ∷ k) = let rest = has_prefix p k in (x == y && rest)

-- Below the exclusive end of a scan; `none` is the end of the keyspace.
unfoldable pub below : Bytes → Option Bytes → Bool
below k none = true
below k (some e) = lex_lt k e

-- Within [start, end), as `Storage.Scan` reads its arguments.
unfoldable pub in_range : Bytes → Option Bytes → Bytes → Bool
unfolding below
in_range start end k = not (lex_lt k start) && below k end

not_below_nil : (k : Bytes) → lex_lt k [] ≡ false
unfolding lex_lt
not_below_nil [] = refl
not_below_nil (x ∷ k) = refl

-- One byte of `above-prefix_end`, with the end o of what is behind it.
prefix_end_at-step :
    (x y : ℕ) (p k : Bytes) (o : Option Bytes)
    → x < 256
    → y < 256
    → (not (lex_lt k p) && below k o) ≡ has_prefix p k
    → (not (lex_lt (y ∷ k) (x ∷ p)) && below (y ∷ k) (prefix_end_at x o))
      ≡ has_prefix (x ∷ p) (y ∷ k)
unfolding prefix_end_at lex_lt has_prefix below
prefix_end_at-step x y p k none hx hy ih = ground (arith, not_below_nil k)
prefix_end_at-step x y p k (some e) hx hy ih = ground arith

-- The scan from a prefix to its `prefixEnd` meets, among keys of bytes, exactly those with that
-- prefix: the end is above every one of them, and no other key lies between. So too where there is
-- no finite end.
pub in_range-prefix_end :
    (p k : Bytes) → IsBytes p → IsBytes k → in_range p (prefix_end p) k ≡ has_prefix p k
unfolding in_range prefix_end lex_lt has_prefix below
in_range-prefix_end [] [] hp hk = refl
in_range-prefix_end [] (y ∷ k) hp hk = refl
in_range-prefix_end (x ∷ p) [] hp hk = refl
in_range-prefix_end (x ∷ p) (y ∷ k) hp hk =
    prefix_end_at-step x y p k (prefix_end p) hp.0 hk.0 (in_range-prefix_end p k hp.1 hk.1)

be64-IsBytes : (v : ℕ) → IsBytes (be64 v)
unfolding be64
be64-IsBytes v = be-IsBytes 8 v

lex_lt-be64 : (a b : ℕ) → a < 2 ^ 64 → b < 2 ^ 64 → lex_lt (be64 a) (be64 b) ≡ ltb a b
unfolding be64
lex_lt-be64 a b h k = lex_lt-be 8 a b h k

pub bytes_eq-be64 : (a b : ℕ) → a < 2 ^ 64 → b < 2 ^ 64 → bytes_eq (be64 a) (be64 b) ≡ a == b
unfolding be64
bytes_eq-be64 a b h k = bytes_eq-be 8 a b h k

same_length : (a b : ℕ) → length (be64 a) ≡ length (be64 b)
same_length a b = length-be64 a ∙ sym (length-be64 b)

-- Two numbers in a key compare as a pair, the first one first.
lex_lt-pair :
    (a b c d : ℕ)
    → a < 2 ^ 64
    → b < 2 ^ 64
    → c < 2 ^ 64
    → d < 2 ^ 64
    → lex_lt (be64 a ++ be64 b) (be64 c ++ be64 d) ≡ (ltb a c || (a == c && ltb b d))
lex_lt-pair a b c d ha hb hc hd =
    rw
      (
        lex_lt-append (be64 a) (be64 c) (be64 b) (be64 d) (same_length a c),
        lex_lt-be64 a c ha hc,
        bytes_eq-be64 a c ha hc,
        lex_lt-be64 b d hb hd,
      )
      (ground arith)

has_prefix-append : (a b c : Bytes) → length a ≡ length b → has_prefix a (b ++ c) ≡ bytes_eq a b
unfolding has_prefix bytes_eq
has_prefix-append [] [] c h = ground arith
has_prefix-append [] (y ∷ b) c h = absurd (omega arith)
has_prefix-append (x ∷ a) [] c h = absurd (omega arith)
has_prefix-append (x ∷ a) (y ∷ b) c h = ground (arith, has_prefix-append a b c (omega arith))

lex_lt-be64_prefix :
    (a b : ℕ) (c : Bytes) → a < 2 ^ 64 → b < 2 ^ 64 → lex_lt (be64 a ++ c) (be64 b) ≡ ltb a b
lex_lt-be64_prefix a b c ha hb = rw (← append-nil (be64 b)) (
    rw
      (
        lex_lt-append (be64 a) (be64 b) c [] (same_length a b),
        lex_lt-be64 a b ha hb,
        bytes_eq-be64 a b ha hb,
        not_below_nil c,
      )
      (ground arith))

record_key-IsBytes : (id seq : ℕ) → IsBytes (record_key id seq)
unfolding record_key
record_key-IsBytes id seq = (
  omega arith,
  All-append (λ c. c < 256) (be64 id) (be64 seq) (be64-IsBytes id) (be64-IsBytes seq),
)

record_prefix-IsBytes : (id : ℕ) → IsBytes (record_prefix id)
unfolding record_prefix
record_prefix-IsBytes id = (omega arith, be64-IsBytes id)

has_prefix-record :
    (id i s : ℕ)
    → id < 2 ^ 64
    → i < 2 ^ 64
    → has_prefix (record_prefix id) (record_key i s) ≡ id == i
unfolding has_prefix record_prefix record_key
has_prefix-record id i s h k =
    rw (has_prefix-append (be64 id) (be64 i) (be64 s) (same_length id i), bytes_eq-be64 id i h k)
      (ground arith)

record_key-lt-prefix :
    (i s id : ℕ) → id < 2 ^ 64 → i < 2 ^ 64 → lex_lt (record_key i s) (record_prefix id) ≡ ltb i id
unfolding lex_lt record_prefix record_key
record_key-lt-prefix i s id h k = rw (lex_lt-be64_prefix i id (be64 s) k h) (ground arith)

pub lex_lt-record_key :
    (i s id seq : ℕ)
    → i < 2 ^ 64
    → s < 2 ^ 64
    → id < 2 ^ 64
    → seq < 2 ^ 64
    → lex_lt (record_key i s) (record_key id seq) ≡ (ltb i id || (i == id && ltb s seq))
unfolding lex_lt record_key
lex_lt-record_key i s id seq hi hs hid hseq =
    rw (lex_lt-pair i s id seq hi hs hid hseq) (ground arith)

-- The scan that a read, a fork or a deletion makes, from the record `seq` of stream `id` to the
-- end of its records, meets the record (i, s) exactly if it is of that stream and not before
-- `seq`; all numbers are below 2 ^ 64.
pub in_range-record_key :
    (id seq i s : ℕ)
    → id < 2 ^ 64
    → seq < 2 ^ 64
    → i < 2 ^ 64
    → s < 2 ^ 64
    → in_range (record_key id seq) (record_prefix_end id) (record_key i s) ≡ (id == i && leb seq s)
unfolding in_range record_prefix_end
in_range-record_key id seq i s hid hseq hi hs = ground (
  arith,
  lex_lt-record_key i s id seq hi hs hid hseq,
  record_key-lt-prefix i s id hid hi,
  in_range-prefix_end (record_prefix id) (record_key i s) (record_prefix-IsBytes id)
      (record_key-IsBytes i s),
  has_prefix-record id i s hid hi,
)

-- A sweep at `now` meets the deadline entries that are due, `now` included, and no others, if now
-- + 1 and the deadline are below 2 ^ 64.
pub in_range-expiry_key :
    (now deadline id : ℕ)
    → now + 1 < 2 ^ 64
    → deadline < 2 ^ 64
    → in_range (kt_expiry_deadline ∷ []) (some (expiry_scan_end now)) (expiry_key deadline id)
      ≡ leb deadline now
unfolding in_range below lex_lt expiry_scan_end expiry_key
in_range-expiry_key now deadline id hn hd =
    rw
      (
        not_below_nil (be64 deadline ++ be64 id),
        lex_lt-be64_prefix deadline ((now + 1) % 2 ^ 64) (be64 id) hd (omega arith),
      )
      (ground arith)

pub bytes_eq-record_key :
    (i s id seq : ℕ)
    → i < 2 ^ 64
    → s < 2 ^ 64
    → id < 2 ^ 64
    → seq < 2 ^ 64
    → bytes_eq (record_key i s) (record_key id seq) ≡ (i == id && s == seq)
unfolding bytes_eq record_key
bytes_eq-record_key i s id seq hi hs hid hseq =
    rw
      (
        bytes_eq-append (be64 i) (be64 id) (be64 s) (be64 seq) (same_length i id),
        bytes_eq-be64 i id hi hid,
        bytes_eq-be64 s seq hs hseq,
      )
      (ground arith)
