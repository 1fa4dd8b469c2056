-- ===== src/Sse.antt =====
-- The data events of a live response: `writeSSEData` of internal/ds/read.go. Base64 is a parameter.
pub mod Framing
mod Tests
use yasdb.Prelude.{
  ℕ, ◌+◌, Bool, true, false, ◌&&◌, ◌||◌, not, List, [], ◌∷◌, ◌++◌, ◌==◌, if◌then◌else◌, map,
}
use yasdb.Prelude.Bytes.{Bytes}

-- "event: data" with its line's end, and "data:".
abbrev pub sse_event_name : Bytes
sse_event_name = b'e' ∷ b'v' ∷ b'e' ∷ b'n' ∷ b't' ∷ b':' ∷ b' ' ∷ b'd' ∷ b'a' ∷ b't' ∷ b'a' ∷ []

abbrev pub sse_event_data : Bytes
sse_event_data = sse_event_name ++ (10 ∷ [])

abbrev pub sse_data_prefix : Bytes
sse_data_prefix = b'd' ∷ b'a' ∷ b't' ∷ b'a' ∷ b':' ∷ []

-- `bytes.IndexByte(b, c) >= 0`
unfoldable pub has_byte : ℕ → Bytes → Bool
has_byte c [] = false
has_byte c (b ∷ bs) = let rest = has_byte c bs in (b == c || rest)

-- `strings.ReplaceAll(s, "\r\n", "\n")`, and of "\r".
unfoldable pub replace_crlf : Bytes → Bytes
replace_crlf [] = []
replace_crlf (c ∷ []) = c ∷ []
replace_crlf (c ∷ d ∷ s) =
    let both = replace_crlf s in
    let one = replace_crlf (d ∷ s) in if c == 13 && d == 10 then 10 ∷ both else c ∷ one

unfoldable pub replace_cr : Bytes → Bytes
replace_cr [] = []
replace_cr (c ∷ s) = (if c == 13 then 10 else c) ∷ replace_cr s

abbrev pub normalized : Bytes → Bytes
normalized s = replace_cr (replace_crlf s)

-- `strings.Split(s, "\n")`
abbrev pub on_first : ℕ → List Bytes → List Bytes
on_first c [] = (c ∷ []) ∷ []
on_first c (l ∷ ls) = (c ∷ l) ∷ ls

unfoldable pub split_lines : Bytes → List Bytes
split_lines [] = [] ∷ []
split_lines (c ∷ s) = let rest = split_lines s in if c == 10 then [] ∷ rest else on_first c rest

unfoldable pub write_lines : List Bytes → Bytes
write_lines [] = []
write_lines (l ∷ ls) = sse_data_prefix ++ (l ++ (10 ∷ write_lines ls))

unfoldable pub write_text : Bytes → Bytes
write_text payload =
    if not (has_byte 10 payload) && not (has_byte 13 payload)
    then sse_data_prefix ++ (payload ++ (10 ∷ 10 ∷ []))
    else write_lines (split_lines (normalized payload)) ++ (10 ∷ [])

unfoldable pub write_sse_data : (Bytes → Bytes) → Bool → Bytes → Bytes
write_sse_data base64 text_like payload =
    sse_event_data
    ++ (if text_like
        then write_text payload
        else sse_data_prefix ++ (base64 payload ++ (10 ∷ 10 ∷ [])))
