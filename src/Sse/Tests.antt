-- ===== src/Sse/Tests.antt =====
-- A payload that tries to end its event.
use yasdb.Prelude.{◌≡◌, refl, true, false, [], ◌∷◌, ◌++◌, map}
use yasdb.Prelude.Bytes.{Bytes}
use yasdb.Sse.{
  sse_event_name, sse_data_prefix, has_byte, replace_crlf, replace_cr, normalized, split_lines,
  write_sse_data,
}
use yasdb.Sse.Framing.{write_sse_data-lines}

abbrev payload : Bytes
payload = b'a' ∷ 13 ∷ 10 ∷ 13 ∷ 10 ∷ b'b' ∷ 13 ∷ b'c' ∷ []

payload_lines : split_lines (normalized payload) ≡ (b'a' ∷ []) ∷ [] ∷ (b'b' ∷ []) ∷ (b'c' ∷ []) ∷ []
unfolding split_lines replace_cr replace_crlf
payload_lines = refl

write_sse_data-lines_example :
    (split_lines (write_sse_data (λ b. b) true payload)
      ≡ sse_event_name
        ∷ (map (λ (l : Bytes). sse_data_prefix ++ l) (split_lines (normalized payload))
            ++ ([] ∷ [] ∷ [])))
    × (has_byte 13 (write_sse_data (λ b. b) true payload) ≡ false)
write_sse_data-lines_example = write_sse_data-lines (λ b. b) payload
