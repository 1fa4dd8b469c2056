-- ===== src/Sse/Framing.antt =====
-- A payload cannot end its event: the only blank line is the last.
use yasdb.Prelude.{
  ℕ, ◌≡◌, refl, ap, sym, ◌∙◌, Bool, true, false, ◌&&◌, not, List, [], ◌∷◌, ◌++◌, ◌==◌,
  if◌then◌else◌, map, All, Bool-cases, inl, inr, append_assoc, arith,
}
use yasdb.Prelude.Bytes.{Bytes}
use yasdb.Sse.{
  sse_event_name, sse_event_data, sse_data_prefix, has_byte, replace_crlf, replace_cr, normalized,
  on_first, split_lines, write_lines, write_text, write_sse_data,
}

-- Lines without an end of a line in them.
abbrev pub IsLine : Bytes → Type 0
IsLine l = (has_byte 10 l ≡ false) × (has_byte 13 l ≡ false)

-- A line is read up to its end.
split_lines-IsLine :
    (l s : Bytes) → has_byte 10 l ≡ false → split_lines (l ++ (10 ∷ s)) ≡ l ∷ split_lines s
unfolding split_lines has_byte
split_lines-IsLine [] s h = refl
split_lines-IsLine (c ∷ l) s h =
    let other : (c == 10) ≡ false = ground arith in
    let rest : has_byte 10 l ≡ false = ground arith in rw (other, split_lines-IsLine l s rest) refl

on_first-All :
    (c : ℕ) (ls : List Bytes)
    → (c == 10) ≡ false
    → (c == 13) ≡ false
    → All IsLine ls
    → All IsLine (on_first c ls)
unfolding has_byte
on_first-All c [] a b h = ((rw a refl, rw b refl), tt)
on_first-All c (l ∷ ls) a b ((x, y), h) = ((rw a x, rw b y), h)

-- The lines of a text without CR.
split_lines-All : (s : Bytes) → has_byte 13 s ≡ false → All IsLine (split_lines s)
unfolding split_lines has_byte
split_lines-All [] h = ((refl, refl), tt)
split_lines-All (c ∷ s) h =
    let rest : has_byte 13 s ≡ false = ground arith in
    let cr : (c == 13) ≡ false = ground arith in
    elim (Bool-cases (c == 10)) [
      | inl end ↦ rw end ((refl, refl), split_lines-All s rest)
      | inr other ↦ rw other (on_first-All c (split_lines s) other cr (split_lines-All s rest))
    ]

replace_cr-has_byte : (s : Bytes) → has_byte 13 (replace_cr s) ≡ false
unfolding replace_cr has_byte
replace_cr-has_byte [] = refl
replace_cr-has_byte (c ∷ s) = ground (arith, replace_cr-has_byte s)

-- A text without ends of lines is one line.
single_line : (s : Bytes) → has_byte 10 s ≡ false → split_lines s ≡ s ∷ []
unfolding split_lines has_byte
single_line [] h = refl
single_line (c ∷ s) h =
    let other : (c == 10) ≡ false = ground arith in
    let rest : has_byte 10 s ≡ false = ground arith in rw (other, single_line s rest) refl

replace_cr_none : (s : Bytes) → has_byte 13 s ≡ false → replace_cr s ≡ s
unfolding replace_cr has_byte
replace_cr_none [] h = refl
replace_cr_none (c ∷ s) h =
    let other : (c == 13) ≡ false = ground arith in
    let rest : has_byte 13 s ≡ false = ground arith in
    rw other (ap (λ r. c ∷ r) (replace_cr_none s rest))

replace_crlf_none : (s : Bytes) → has_byte 13 s ≡ false → replace_crlf s ≡ s
unfolding replace_crlf has_byte
replace_crlf_none [] h = refl
replace_crlf_none (c ∷ []) h = refl
replace_crlf_none (c ∷ d ∷ s) h =
    let other : (c == 13) ≡ false = ground arith in
    let rest : has_byte 13 (d ∷ s) ≡ false = ground arith in
    rw other (ap (λ r. c ∷ r) (replace_crlf_none (d ∷ s) rest))

both_absent : (a b : Bool) → (not a && not b) ≡ true → (a ≡ false) × (b ≡ false)
both_absent false false h = (refl, refl)
both_absent true b h = cc
both_absent false true h = cc

one_line :
    (payload : Bytes)
    → write_lines (payload ∷ []) ++ (10 ∷ []) ≡ sse_data_prefix ++ (payload ++ (10 ∷ 10 ∷ []))
unfolding write_lines
one_line payload =
    ap (λ (b : Bytes). sse_data_prefix ++ b) (append_assoc payload (10 ∷ []) (10 ∷ []))

named : has_byte 10 sse_event_name ≡ false
unfolding has_byte
named = refl

unnamed : (body : Bytes) → has_byte 13 (sse_event_name ++ (10 ∷ body)) ≡ has_byte 13 body
unfolding has_byte
unnamed body = refl

-- The fast path writes what the slow path would.
write_text-write_lines :
    (payload : Bytes)
    → write_text payload ≡ write_lines (split_lines (normalized payload)) ++ (10 ∷ [])
unfolding write_text
write_text-write_lines payload =
    let slow = write_lines (split_lines (normalized payload)) ++ (10 ∷ []) in
    let quick = sse_data_prefix ++ (payload ++ (10 ∷ 10 ∷ [])) in
    elim (Bool-cases (not (has_byte 10 payload) && not (has_byte 13 payload))) [
      | inl fast ↦
          let (no_lf, no_cr) = both_absent (has_byte 10 payload) (has_byte 13 payload) fast in
          let lines : split_lines (normalized payload) ≡ payload ∷ [] =
            ap (λ (b : Bytes). split_lines (replace_cr b)) (replace_crlf_none payload no_cr)
            ∙ ap split_lines (replace_cr_none payload no_cr)
            ∙ single_line payload no_lf in
          ap (λ b. if b then quick else slow) fast
          ∙ sym (one_line payload)
          ∙ ap (λ (ls : List Bytes). write_lines ls ++ (10 ∷ [])) (sym lines)
      | inr other ↦ ap (λ b. if b then quick else slow) other
    ]

has_byte-append :
    (c : ℕ) (a b : Bytes)
    → has_byte c a ≡ false
    → has_byte c b ≡ false
    → has_byte c (a ++ b) ≡ false
unfolding has_byte
has_byte-append c [] b h k = k
has_byte-append c (x ∷ a) b h k =
    let other : (x == c) ≡ false = ground arith in
    let rest : has_byte c a ≡ false = ground arith in rw other (has_byte-append c a b rest k)

-- The lines that are written, and their ends.
split_lines-write_lines :
    (ls : List Bytes)
    → All IsLine ls
    → split_lines (write_lines ls ++ (10 ∷ []))
      ≡ map (λ (l : Bytes). sse_data_prefix ++ l) ls ++ ([] ∷ [] ∷ [])
unfolding write_lines split_lines has_byte
split_lines-write_lines [] h = refl
split_lines-write_lines (l ∷ ls) ((h, _), hs) =
    let line = sse_data_prefix ++ l in
    ap (λ (b : Bytes). split_lines (sse_data_prefix ++ b))
      (append_assoc l (10 ∷ write_lines ls) (10 ∷ []))
    ∙ split_lines-IsLine line (write_lines ls ++ (10 ∷ [])) h
    ∙ ap (λ (more : List Bytes). line ∷ more) (split_lines-write_lines ls hs)

has_byte-write_lines :
    (ls : List Bytes) → All IsLine ls → has_byte 13 (write_lines ls ++ (10 ∷ [])) ≡ false
unfolding write_lines has_byte
has_byte-write_lines [] h = refl
has_byte-write_lines (l ∷ ls) ((_, h), hs) =
    ap (has_byte 13) (append_assoc l (10 ∷ write_lines ls) (10 ∷ []))
    ∙ has_byte-append 13 l (10 ∷ (write_lines ls ++ (10 ∷ []))) h (has_byte-write_lines ls hs)

-- The data event of any text has the lines that it should and no others: its name, a `data:` line for
-- each line of the payload, however they end there, and one blank line at the end. There is no CR in
-- it. So no payload ends its event early or adds a field to it.
pub write_sse_data-lines :
    (base64 : Bytes → Bytes) (payload : Bytes)
    → (split_lines (write_sse_data base64 true payload)
        ≡ sse_event_name
          ∷ (map (λ (l : Bytes). sse_data_prefix ++ l) (split_lines (normalized payload))
              ++ ([] ∷ [] ∷ [])))
      × (has_byte 13 (write_sse_data base64 true payload) ≡ false)
unfolding write_sse_data
write_sse_data-lines base64 payload =
    let ls = split_lines (normalized payload) in
    let body = write_lines ls ++ (10 ∷ []) in
    let good : All IsLine ls =
      split_lines-All (normalized payload) (replace_cr-has_byte (replace_crlf payload)) in
    let same : sse_event_data ++ write_text payload ≡ sse_event_name ++ (10 ∷ body) =
      ap (λ (b : Bytes). sse_event_data ++ b) (write_text-write_lines payload) in
    (
      ap split_lines same
          ∙ split_lines-IsLine sse_event_name body named
          ∙ ap (λ (more : List Bytes). sse_event_name ∷ more) (split_lines-write_lines ls good),
      ap (has_byte 13) same ∙ unnamed body ∙ has_byte-write_lines ls good,
    )
