-- ===== src/Offset/Token.antt =====
-- Tokens and positions correspond, and tokens are ordered as positions are.
use yasdb.Prelude.{
  ℕ, zero, suc, ◌^◌, ◌<◌, ◌≡◌, refl, ap, sym, subst, ◌∙◌, false, ◌&&◌, ◌||◌, some, List, [], ◌∷◌,
  ◌++◌, ltb, ◌==◌, length, take, drop, get_elem?, length-append, length-take, length-drop,
  take-append, drop-append, append_assoc, ok, arith,
}
use yasdb.Prelude.Bytes.{Bytes, lex_lt, bytes_eq, lex_lt-append}
use yasdb.Decimal.{append_pad16, parse_uint, pad_digits}
use yasdb.Decimal.Laws.{
  length-pad_digits, bytes_eq-pad_digits, lex_lt-pad_digits, parse_uint-pad16,
  pad_digits-parse_uint,
}
use yasdb.Offset.{
  Offset, ParsedOffset, to_string, append_offset, parse_offset, parse_token, separated,
  both_numbers,
}

pub token_shape : (o : Offset) → to_string o ≡ pad_digits 16 o.seq ++ (b'_' ∷ pad_digits 16 o.byte)
unfolding to_string append_offset append_pad16
token_shape o = append_assoc (pad_digits 16 o.seq) (b'_' ∷ []) (pad_digits 16 o.byte)

get_elem?-append {ℓ} :
    {A : Type ℓ} (xs : List A) (y : A) (ys : List A) → get_elem? (xs ++ y ∷ ys) (length xs) ≡ some y
get_elem?-append [] y ys = refl
get_elem?-append (x ∷ xs) y ys = get_elem?-append xs y ys

-- A text of 33 bytes with '_' at 16 is none of the sentinels.
long_is_token : (raw : Bytes) → length raw ≡ 33 → parse_offset raw ≡ parse_token raw
unfolding parse_offset bytes_eq
long_is_token [] h = absurd (omega arith)
long_is_token (a ∷ []) h = absurd (omega arith)
long_is_token (a ∷ b ∷ []) h = absurd (omega arith)
long_is_token (a ∷ b ∷ c ∷ []) h = absurd (omega arith)
long_is_token (a ∷ b ∷ c ∷ d ∷ raw) h = ground arith

parse_token_parts :
    (s b : Bytes)
    → length s ≡ 16
    → length b ≡ 16
    → parse_offset (s ++ (b'_' ∷ b)) ≡ both_numbers (parse_uint s) (parse_uint b)
unfolding parse_token separated
parse_token_parts s b hs hb =
    let len : length (s ++ (b'_' ∷ b)) ≡ 33 = omega (arith, length-append {0} s (b'_' ∷ b)) in
    let front : take 16 (s ++ (b'_' ∷ b)) ≡ s =
      subst (λ n. take n (s ++ (b'_' ∷ b)) ≡ s) hs (take-append s (b'_' ∷ b)) in
    let sep : get_elem? (s ++ (b'_' ∷ b)) 16 ≡ some b'_' =
      subst (λ n. get_elem? (s ++ (b'_' ∷ b)) n ≡ some b'_') hs (get_elem?-append s b'_' b) in
    let back : drop 17 (s ++ (b'_' ∷ b)) ≡ b = rw (← append_assoc s (b'_' ∷ []) b) (
      subst (λ n. drop n ((s ++ b'_' ∷ []) ++ b) ≡ b) {y = 17}
        (omega (arith, length-append {0} s (b'_' ∷ []))) (drop-append (s ++ b'_' ∷ []) b)) in
    long_is_token (s ++ (b'_' ∷ b)) len ∙ rw (len, front, sep, back)

-- A position that was sent is read back as the same position, if its two parts have at most 16 digits.
pub parse_offset-to_string :
    (o : Offset)
    → o.seq < 10 ^ 16
    → o.byte < 10 ^ 16
    → parse_offset (to_string o) ≡ ok (record { off = o; is_now = false })
unfolding both_numbers
parse_offset-to_string o h k = rw (
  token_shape o,
  parse_token_parts (pad_digits 16 o.seq) (pad_digits 16 o.byte) (length-pad_digits 16 o.seq)
      (length-pad_digits 16 o.byte),
  parse_uint-pad16 o.seq h,
  parse_uint-pad16 o.byte k,
)

-- Tokens of positions whose parts have at most 16 digits compare, byte by byte, as the positions
-- do: first by record, then by byte.
pub lex_lt-to_string :
    (a b : Offset)
    → a.seq < 10 ^ 16
    → a.byte < 10 ^ 16
    → b.seq < 10 ^ 16
    → b.byte < 10 ^ 16
    → lex_lt (to_string a) (to_string b)
      ≡ (ltb a.seq b.seq || (a.seq == b.seq && ltb a.byte b.byte))
unfolding lex_lt
lex_lt-to_string a b has hab hbs hbb =
    rw
      (
        token_shape a,
        token_shape b,
        lex_lt-append (pad_digits 16 a.seq) (pad_digits 16 b.seq) (b'_' ∷ pad_digits 16 a.byte)
            (b'_' ∷ pad_digits 16 b.byte)
            (length-pad_digits 16 a.seq ∙ sym (length-pad_digits 16 b.seq)),
        lex_lt-pad_digits 16 a.seq b.seq has hbs,
        bytes_eq-pad_digits 16 a.seq b.seq has hbs,
        lex_lt-pad_digits 16 a.byte b.byte hab hbb,
      )
      (ground arith)

take-get_elem?-drop {ℓ} :
    {A : Type ℓ} (n : ℕ) (xs : List A) (c : A)
    → get_elem? xs n ≡ some c
    → take n xs ++ c ∷ drop (suc n) xs ≡ xs
take-get_elem?-drop zero [] c h = cc
take-get_elem?-drop zero (x ∷ xs) c h = cc
take-get_elem?-drop (suc n) [] c h = cc
take-get_elem?-drop (suc n) (x ∷ xs) c h = ap (λ r. x ∷ r) (take-get_elem?-drop n xs c h)

token_fields :
    (raw : Bytes) (po : ParsedOffset)
    → parse_token raw ≡ ok po
    → (parse_uint (take 16 raw) ≡ some po.off.seq)
      × (parse_uint (drop 17 raw) ≡ some po.off.byte)
      × (get_elem? raw 16 ≡ some b'_')
unfolding parse_token separated both_numbers
token_fields raw po h = ground arith

-- A token of full length that is accepted is the one token of the position it is read as.
pub to_string-parse_offset :
    (raw : Bytes) (po : ParsedOffset)
    → length raw ≡ 33
    → parse_offset raw ≡ ok po
    → to_string po.off ≡ raw
to_string-parse_offset raw po len h =
    let (front, back, sep) = token_fields raw po (sym (long_is_token raw len) ∙ h) in
    let seq : pad_digits 16 po.off.seq ≡ take 16 raw =
      subst (λ n. pad_digits n po.off.seq ≡ take 16 raw) (length-take 16 raw (omega arith))
        (pad_digits-parse_uint (take 16 raw) po.off.seq front) in
    let byte : pad_digits 16 po.off.byte ≡ drop 17 raw =
      subst (λ n. pad_digits n po.off.byte ≡ drop 17 raw) {y = 16}
        (omega (arith, length-drop {0} 17 raw))
        (pad_digits-parse_uint (drop 17 raw) po.off.byte back) in
    rw (token_shape po.off, seq, byte) (take-get_elem?-drop 16 raw b'_' sep)
