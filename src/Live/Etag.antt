-- ===== src/Live/Etag.antt =====
-- ETags and conditional reads: `makeETag`, `etagMatches` and `readCatchup` of internal/ds/read.go.
use mathlib.Core.List.{reverse, reverse-append, reverse-reverse}
use yasdb.Prelude.{
  ℕ, zero, suc, ◌/◌, ◌≡◌, refl, sym, ap, ap₂, drop, subst, ◌∙◌, Bool, true, false, ◌||◌, [], ◌∷◌,
  ◌++◌, ltb, ◌==◌, length, All, All-append, append_assoc, append-nil, arith, if-elim, length-append,
}
use yasdb.Prelude.Bytes.{Bytes, bytes_eq, bytes_eq→eq}
use yasdb.Decimal.{pad_digits}
use yasdb.Decimal.Laws.{length-pad_digits}
use yasdb.Offset.{Offset, to_string}
use yasdb.Offset.Token.{token_shape}
use yasdb.ContentType.{trim_space, drop_spaces}
use yasdb.Keys.Order.{has_prefix}
use yasdb.Cursor.{format_uint, format_digits}
use yasdb.Live.{make_etag, closed_mark, split_at_comma, strip_weak, any_matches, etag_matches}

-- Not a comma.
abbrev Plain : Bytes → Type 0
Plain = All (λ (c : ℕ). (c == 44) ≡ false)

format_digits-Plain : (n v : ℕ) → Plain (format_digits n v)
unfolding format_digits
format_digits-Plain zero v = tt
format_digits-Plain (suc n) v =
    if-elim Plain (ltb v 10) _ _ (λ small. (ground arith, tt))
      (λ large.
        All-append _ (format_digits n (v / 10)) _ (format_digits-Plain n (v / 10))
          (ground arith, tt))

pad_digits-Plain : (n v : ℕ) → Plain (pad_digits n v)
unfolding pad_digits
pad_digits-Plain zero v = tt
pad_digits-Plain (suc n) v =
    All-append _ (pad_digits n (v / 10)) _ (pad_digits-Plain n (v / 10)) (ground arith, tt)

to_string-Plain : (o : Offset) → Plain (to_string o)
to_string-Plain o = rw (token_shape o) (
    All-append _ (pad_digits 16 o.seq) _ (pad_digits-Plain 16 o.seq)
      (refl, pad_digits-Plain 16 o.byte))

-- What stands between the quotes of an ETag.
between : ℕ → Offset → Offset → Bool → Bytes
between id start end closed =
    format_uint id ++ (b':' ∷ to_string start) ++ (b':' ∷ to_string end) ++ closed_mark closed

split_at_comma-Plain : (s part : Bytes) → Plain s → split_at_comma s part ≡ (part ++ s) ∷ []
unfolding split_at_comma
split_at_comma-Plain [] part h = ap (λ p. p ∷ []) (sym (append-nil part))
split_at_comma-Plain (c ∷ s) part (h, hs) =
    rw h (
      split_at_comma-Plain s (part ++ (c ∷ [])) hs
      ∙ ap (λ p. p ∷ []) (append_assoc part (c ∷ []) s))

closed_mark-Plain : (closed : Bool) → Plain (closed_mark closed)
unfolding closed_mark
closed_mark-Plain true = (refl, (refl, tt))
closed_mark-Plain false = tt

between-Plain : (id : ℕ) (start end : Offset) (closed : Bool) → Plain (between id start end closed)
unfolding between format_uint
between-Plain id start end closed =
    All-append _ (format_uint id ++ b':' ∷ to_string start ++ b':' ∷ to_string end) _
      (All-append _ (format_uint id ++ b':' ∷ to_string start) _
        (All-append _ (format_uint id) _ (format_digits-Plain 20 id) (refl, to_string-Plain start))
        (refl, to_string-Plain end))
      (closed_mark-Plain closed)

make_etag-quoted :
    (id : ℕ) (start end : Offset) (closed : Bool)
    → make_etag id start end closed ≡ 34 ∷ between id start end closed ++ (34 ∷ [])
unfolding make_etag between
make_etag-quoted id start end closed = refl

drop_spaces-quoted : (t : Bytes) → drop_spaces (34 ∷ t) ≡ 34 ∷ t
unfolding drop_spaces
drop_spaces-quoted t = refl

trim_space-quoted : (m : Bytes) → trim_space (34 ∷ m ++ (34 ∷ [])) ≡ 34 ∷ m ++ (34 ∷ [])
unfolding trim_space
trim_space-quoted m =
    ap (λ t. reverse (drop_spaces (reverse t))) (drop_spaces-quoted (m ++ (34 ∷ [])))
    ∙ ap (λ t. reverse (drop_spaces t)) (reverse-append (34 ∷ m) (34 ∷ []))
    ∙ ap reverse (drop_spaces-quoted (reverse (34 ∷ m)))
    ∙ ap reverse (sym (reverse-append (34 ∷ m) (34 ∷ [])))
    ∙ reverse-reverse (34 ∷ m ++ (34 ∷ []))

-- An ETag of a stream matches only itself.
etag_matches-quoted :
    (m : Bytes) (etag : Bytes)
    → Plain m
    → etag_matches (34 ∷ m ++ (34 ∷ [])) etag ≡ true
    → 34 ∷ m ++ (34 ∷ []) ≡ etag
unfolding etag_matches any_matches strip_weak has_prefix bytes_eq
etag_matches-quoted m etag plain h =
    let plain_tag : Plain (34 ∷ m ++ (34 ∷ [])) =
      (refl, All-append _ m (34 ∷ []) plain (refl, tt)) in
    let parts = split_at_comma-Plain (34 ∷ m ++ (34 ∷ [])) [] plain_tag in
    let one : any_matches etag ((34 ∷ m ++ (34 ∷ [])) ∷ []) ≡ true =
      subst (λ p. any_matches etag p ≡ true) parts h in
    let trimmed : any_matches etag ((34 ∷ m ++ (34 ∷ [])) ∷ [])
        ≡ (bytes_eq (34 ∷ m ++ (34 ∷ [])) etag || false || false) =
      ap (λ t. bytes_eq (strip_weak t) etag || bytes_eq (strip_weak t) (b'*' ∷ []) || false)
        (trim_space-quoted m) in
    bytes_eq→eq (34 ∷ m ++ (34 ∷ [])) etag (let e = sym trimmed ∙ one in ground arith)

length-to_string : (o : Offset) → length (to_string o) ≡ 33
length-to_string o =
    ap length (token_shape o)
    ∙ omega (
      arith,
      length-append {0} (pad_digits 16 o.seq) (b'_' ∷ pad_digits 16 o.byte),
      length-pad_digits 16 o.seq,
      length-pad_digits 16 o.byte,
    )

append_same_length : (a b c d : Bytes) → length a ≡ length c → a ++ b ≡ c ++ d → (a ≡ c) × (b ≡ d)
append_same_length [] b [] d h e = (refl, e)
append_same_length [] b (y ∷ c) d h e = absurd (omega arith)
append_same_length (x ∷ a) b [] d h e = absurd (omega arith)
append_same_length (x ∷ a) b (y ∷ c) d h e =
    let head : x ≡ y = cc in
    let tail : a ++ b ≡ c ++ d = cc in
    let rest = append_same_length a b c d (omega arith) tail in
    (ap₂ (λ z zs. z ∷ zs) head rest.0, rest.1)

closed_mark_injective :
    (c d : Bool) → closed_mark c ++ (34 ∷ []) ≡ closed_mark d ++ (34 ∷ []) → c ≡ d
unfolding closed_mark
closed_mark_injective true true h = refl
closed_mark_injective true false h = absurd (let e : 3 ≡ 1 = ap length h in omega arith)
closed_mark_injective false true h = absurd (let e : 1 ≡ 3 = ap length h in omega arith)
closed_mark_injective false false h = refl

-- Of reads of one stream from one position, the ETag tells the end apart, and whether it was closed there.
pub make_etag_injective :
    (id : ℕ) (start a b : Offset) (c d : Bool)
    → make_etag id start a c ≡ make_etag id start b d
    → (to_string a ≡ to_string b) × (c ≡ d)
unfolding make_etag
make_etag_injective id start a b c d h =
    let front : Bytes = 34 ∷ format_uint id ++ b':' ∷ to_string start in
    let split = λ (o : Offset) (t : Bool).
      append_assoc (front ++ b':' ∷ to_string o) (closed_mark t) (34 ∷ [])
      ∙ append_assoc front (b':' ∷ to_string o) (closed_mark t ++ (34 ∷ [])) in
    let back = (append_same_length front _ front _ refl (sym (split a c) ∙ h ∙ split b d)).1 in
    let ends =
      append_same_length (b':' ∷ to_string a) _ (b':' ∷ to_string b) _
        (ap suc (length-to_string a ∙ sym (length-to_string b))) back in
    (ap (λ t. drop 1 t) ends.0, closed_mark_injective c d ends.1)

-- An ETag of a stream in If-None-Match only matches itself.
pub etag_matches-make_etag :
    (id : ℕ) (start end : Offset) (closed : Bool) (etag : Bytes)
    → etag_matches (make_etag id start end closed) etag ≡ true
    → make_etag id start end closed ≡ etag
etag_matches-make_etag id start end closed etag h =
    let quoted = make_etag-quoted id start end closed in
    quoted
    ∙ etag_matches-quoted (between id start end closed) etag (between-Plain id start end closed)
        (subst (λ t. etag_matches t etag ≡ true) quoted h)
