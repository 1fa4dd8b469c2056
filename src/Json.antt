-- ===== src/Json.antt =====
-- JSON mode: internal/ds/json.go. `encoding/json` is a parameter: what `json.Unmarshal` gives for an
-- array of raw messages, `json.Valid` and `json.Compact`.
use yasdb.Prelude.{
  Bool, Option, none, some, List, [], ◌∷◌, ◌++◌, ◌==◌, if◌then◌else◌, Result, ok, err, invalid_json,
  empty_array, ◌>>=◌,
}
use yasdb.Prelude.Bytes.{Bytes}
use yasdb.ContentType.{trim_space}

-- What `encoding/json` offers to the program; `none` is an error.
pub record JsonLib : Type 0 where
  pub unmarshal_array : Bytes → Option (List Bytes)
  pub valid : Bytes → Bool
  pub compact : Bytes → Option Bytes

-- The records behind the first: each with a comma in front.
rest_of_array : List Bytes → Bytes
rest_of_array [] = []
rest_of_array (r ∷ rs) = b',' ∷ (r ++ rest_of_array rs)

elements : List Bytes → Bytes
unfolding rest_of_array
elements [] = []
elements (r ∷ rs) = r ++ rest_of_array rs

unfoldable pub append_json_array : Bytes → List Bytes → Bytes
unfolding elements
append_json_array dst records = dst ++ (b'[' ∷ (elements records ++ b']' ∷ []))

unfoldable pub wrap_json_array : List Bytes → Bytes
unfolding append_json_array
wrap_json_array records = append_json_array [] records

module _ (json : JsonLib) where
  open json use {unmarshal_array, valid, compact}

  compacted : Option Bytes → Result Bytes
  compacted none = err invalid_json
  compacted (some c) = ok c

  compact_all : List Bytes → Result (List Bytes)
  unfolding compacted
  compact_all [] = ok []
  compact_all (el ∷ els) = do c ← compacted (compact el); cs ← compact_all els; ok (c ∷ cs)

  flatten_array : Option (List Bytes) → Result (List Bytes)
  unfolding compact_all
  flatten_array none = err invalid_json
  flatten_array (some []) = err empty_array
  flatten_array (some (el ∷ els)) = compact_all (el ∷ els)

  single : Bytes → Result (List Bytes)
  unfolding compacted
  single body =
      if valid body then (do c ← compacted (compact body); ok (c ∷ [])) else err invalid_json

  flatten_trimmed : Bytes → Result (List Bytes)
  unfolding flatten_array single
  flatten_trimmed [] = err invalid_json
  flatten_trimmed (c ∷ body) =
      if c == b'[' then flatten_array (unmarshal_array (c ∷ body)) else single (c ∷ body)

  unfoldable pub flatten_json : Bytes → Result (List Bytes)
  unfolding flatten_trimmed
  flatten_json body = flatten_trimmed (trim_space body)
