-- ===== src/ContentType.antt =====
-- Media types: `mediaType`, `contentTypeMatches`, `isJSONStream` and `isTextLike` of
-- internal/ds/server.go. `mime.ParseMediaType` is a parameter.
use yasdb.Prelude.{
  ℕ, ◌+◌, Bool, ◌&&◌, ◌||◌, Option, none, some, [], ◌∷◌, leb, ◌==◌, if◌then◌else◌, map,
}
use yasdb.Prelude.Bytes.{Bytes, bytes_eq}
use mathlib.Core.List.{reverse}
use yasdb.Keys.Order.{has_prefix}

-- The white space of `strings.TrimSpace` and `bytes.TrimSpace` below 128.
abbrev pub is_space : ℕ → Bool
is_space c = c == 32 || (leb 9 c && leb c 13)

unfoldable pub drop_spaces : Bytes → Bytes
drop_spaces [] = []
drop_spaces (c ∷ s) = let rest = drop_spaces s in if is_space c then rest else c ∷ s

unfoldable pub trim_space : Bytes → Bytes
unfolding drop_spaces
trim_space s = reverse (drop_spaces (reverse (drop_spaces s)))

-- `strings.ToLower` on ASCII letters.
lower : ℕ → ℕ
lower c = if leb b'A' c && leb c b'Z' then c + 32 else c

unfoldable pub to_lower : Bytes → Bytes
unfolding lower
to_lower = map lower

-- "application/json"
abbrev pub content_type_json : Bytes
content_type_json =
    b'a' ∷ b'p' ∷ b'p' ∷ b'l' ∷ b'i' ∷ b'c' ∷ b'a' ∷ b't' ∷ b'i' ∷ b'o' ∷ b'n' ∷ b'/' ∷ b'j' ∷ b's'
    ∷ b'o' ∷ b'n' ∷ []

-- "text/"
abbrev text_prefix : Bytes
text_prefix = b't' ∷ b'e' ∷ b'x' ∷ b't' ∷ b'/' ∷ []

media_type_of : Bytes → Option Bytes → Bytes
media_type_of [] parsed = []
media_type_of (c ∷ ct) (some mt) = mt
media_type_of (c ∷ ct) none = to_lower (c ∷ ct)

module _ (parse_media_type : Bytes → Option Bytes) where
  unfoldable pub media_type : Bytes → Bytes
  unfolding media_type_of
  media_type ct = let trimmed = trim_space ct in media_type_of trimmed (parse_media_type trimmed)

  unfoldable pub content_type_matches : Bytes → Bytes → Bool
  content_type_matches configured req = bytes_eq (media_type configured) (media_type req)

  unfoldable pub is_json_stream : Bytes → Bool
  is_json_stream ct = bytes_eq (media_type ct) content_type_json

  unfoldable pub is_text_like : Bytes → Bool
  is_text_like ct =
      let mt = media_type ct in (bytes_eq mt content_type_json || has_prefix text_prefix mt)
