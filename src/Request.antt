-- ===== src/Request.antt =====
-- The headers of requests, and what `handlePost` passes on to a streamer: internal/ds/handlers.go. A
-- header that is missing is the empty string, as `Header.Get` gives it. `time.Parse` of RFC 3339 is a
-- parameter, with the seconds of `Unix` as an int64's bits; the parameters of ContentType and Json as there.
pub mod Passed
mod Tests
use yasdb.Prelude.{
  ℕ, ◌+◌, Bool, true, false, ◌&&◌, ◌||◌, not, Option, none, some, List, [], ◌∷◌, leb, ◌==◌,
  if◌then◌else◌, Result, ok, err, ◌>>=◌,
}
use yasdb.Prelude.Bytes.{Bytes, bytes_eq}
use yasdb.Decimal.{parse_strict_uint, parse_producer_int}
use yasdb.Producer.{ProducerHeaders}
use yasdb.ContentType.{trim_space, to_lower, content_type_matches, is_json_stream}
use yasdb.Json.{JsonLib, flatten_json}
use yasdb.Streamer.{AppendReq}

abbrev pub present : Bytes → Bool
present [] = false
present (c ∷ v) = true

-- `strings.EqualFold(v, "true")`
unfoldable pub header_true : Bytes → Bool
header_true v = bytes_eq (to_lower v) (b't' ∷ b'r' ∷ b'u' ∷ b'e' ∷ [])

unfoldable pub header_ptr : Bytes → Option Bytes
header_ptr [] = none
header_ptr (c ∷ v) = some (c ∷ v)

-- The first segment of a path, without its slash.
unfoldable pub first_segment : Bytes → Bytes
first_segment [] = []
first_segment (c ∷ s) = let rest = first_segment s in if c == b'/' then [] else c ∷ rest

abbrev pub trim_slash : Bytes → Bytes
trim_slash [] = []
trim_slash (c ∷ s) = if c == b'/' then s else c ∷ s

unfoldable pub is_reserved_path : Bytes → Bool
is_reserved_path path = bytes_eq (first_segment (trim_slash path)) (b'_' ∷ b'_' ∷ b'd' ∷ b's' ∷ [])

-- `parseExpiry`: the TTL and the time of expiry, if they are set, or `none` for a bad value.
abbrev pub Expiry : Type 0
Expiry = Option ℕ × Option ℕ

abbrev pub parsed_header : (Bytes → Option ℕ) → Bytes → Option (Option ℕ)
parsed_header parse [] = some none
parsed_header parse (c ∷ v) = elim (parse (c ∷ v)) [ none ↦ none | some n ↦ some (some n) ]

unfoldable pub both_expiry : Option (Option ℕ) → Option (Option ℕ) → Option Expiry
both_expiry none expires = none
both_expiry (some ttl) none = none
both_expiry (some (some ttl)) (some (some expires)) = none
both_expiry (some none) (some expires) = some (none, expires)
both_expiry (some (some ttl)) (some none) = some (some ttl, none)

unfoldable pub parse_expiry : (Bytes → Option ℕ) → Bytes → Bytes → Option Expiry
parse_expiry parse_rfc3339 ttl expires =
    both_expiry (parsed_header parse_strict_uint ttl) (parsed_header parse_rfc3339 expires)

-- `parseProducer`: `none` is an error, and `some none` that there is no producer.
abbrev pub count : Bool → ℕ
count b = if b then 1 else 0

unfoldable pub producer_numbers : Bytes → Option ℕ → Option ℕ → Option (Option ProducerHeaders)
producer_numbers id none seq = none
producer_numbers id (some epoch) none = none
producer_numbers id (some epoch) (some seq) =
    some (some (record { id = id; epoch = epoch; seq = seq }))

unfoldable pub parse_producer : Bytes → Bytes → Bytes → Option (Option ProducerHeaders)
parse_producer id epoch seq =
    let n = count (present id) + count (present epoch) + count (present seq) in
    if n == 0
    then some none
    else (if not (n == 3) || not (present id)
        then none
        else producer_numbers id (parse_producer_int epoch) (parse_producer_int seq))

-- The headers of a POST, with its body as it was read.
pub record Post : Type 0 where
  pub producer_id : Bytes
  pub producer_epoch : Bytes
  pub producer_seq : Bytes
  pub stream_seq : Bytes
  pub closed : Bytes
  pub content_type : Bytes
  pub body : Bytes

-- The stream of the request.
pub record Target : Type 0 where
  pub content_type : Bytes
  pub closed : Bool

-- Whether the checks that do not look at the stream refuse the request.
unfoldable pub refuses : Post → Bool
refuses p =
    let has_body = present p.body in
    not has_body && not (header_true p.closed)
    || has_body && not (present (trim_space p.content_type))

-- Every refusal here has the status 400.
unfoldable pub request_with :
    Post → Option (Option ProducerHeaders) → Result (List Bytes) → Option AppendReq
request_with p none records = none
request_with p (some producer) (err e) = none
request_with p (some producer) (ok records) = some record {
  records = records;
  has_body = present p.body;
  content_type = p.content_type;
  close_stream = header_true p.closed;
  stream_seq = header_ptr p.stream_seq;
  producer = producer;
}

module _ (parse_media_type : Bytes → Option Bytes) (json : JsonLib) where
  -- The body is flattened only when it will be appended.
  unfoldable pub post_records : Post → Target → Result (List Bytes)
  post_records p t =
      if present p.body
        && (not t.closed && content_type_matches parse_media_type t.content_type p.content_type)
      then (if is_json_stream parse_media_type t.content_type
          then flatten_json json p.body
          else ok (p.body ∷ []))
      else ok []

  -- The stream that is looked up between the two halves is given.
  unfoldable pub post_request : Post → Target → Option AppendReq
  post_request p t =
      let producer = parse_producer p.producer_id p.producer_epoch p.producer_seq in
      if refuses p then none else request_with p producer (post_records p t)
