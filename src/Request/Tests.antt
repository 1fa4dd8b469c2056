-- ===== src/Request/Tests.antt =====
-- A POST of two bytes with a producer.
use yasdb.Prelude.{◌≡◌, ◌⊎◌, refl, true, false, none, some, [], ◌∷◌}
use yasdb.Prelude.Bytes.{Bytes, bytes_eq}
use yasdb.Json.{JsonLib}
use yasdb.Streamer.{AppendReq}
use yasdb.ContentType.{trim_space, content_type_matches, media_type, to_lower, is_json_stream}
use yasdb.Decimal.{parse_producer_int, parse_strict_uint, parse_uint, parse_digits}
use yasdb.Request.{
  Post, Target, header_true, header_ptr, present, refuses, request_with, post_records, post_request,
  parse_producer, producer_numbers, first_segment, is_reserved_path, parse_expiry, both_expiry,
}
use yasdb.Request.Passed.{IsFromHeaders, post_request-passed}

abbrev no_json : JsonLib
no_json = record { unmarshal_array = λ b. none; valid = λ b. false; compact = λ b. none }

abbrev text : Bytes
text = b't' ∷ b'/' ∷ b'x' ∷ []

abbrev post : Post
post = record {
  producer_id = b'w' ∷ [];
  producer_epoch = b'1' ∷ [];
  producer_seq = b'2' ∷ b'0' ∷ [];
  stream_seq = [];
  closed = [];
  content_type = text;
  body = 1 ∷ 2 ∷ [];
}

abbrev target : Target
target = record { content_type = text; closed = false }

abbrev passed : AppendReq
passed = record {
  records = (1 ∷ 2 ∷ []) ∷ [];
  has_body = true;
  content_type = text;
  close_stream = false;
  stream_seq = none;
  producer = some (record { id = b'w' ∷ []; epoch = 1; seq = 20 });
}

post-passed : post_request (λ b. none) no_json post target ≡ some passed
unfolding post_request refuses header_true to_lower request_with header_ptr parse_producer
    producer_numbers parse_producer_int parse_strict_uint parse_uint parse_digits post_records
    content_type_matches is_json_stream media_type trim_space bytes_eq
post-passed = refl

post_request-passed_example :
    IsFromHeaders (b'w' ∷ []) (b'1' ∷ []) (b'2' ∷ b'0' ∷ []) passed.producer
    × (((passed.has_body ≡ true) × (present (trim_space text) ≡ true))
        ⊎ ((passed.has_body ≡ false) × (passed.close_stream ≡ true)))
    × ((passed.records ≡ [])
        ⊎ ((passed.has_body ≡ true)
            × (false ≡ false)
            × (content_type_matches (λ b. none) text text ≡ true)))
post_request-passed_example = post_request-passed (λ b. none) no_json post target passed post-passed

-- "/__ds/x"
reserved : is_reserved_path (b'/' ∷ b'_' ∷ b'_' ∷ b'd' ∷ b's' ∷ b'/' ∷ b'x' ∷ []) ≡ true
unfolding is_reserved_path first_segment bytes_eq
reserved = refl

-- Both a TTL and a time of expiry.
conflicting : parse_expiry (λ v. some 5) (b'9' ∷ []) (b'x' ∷ []) ≡ none
unfolding parse_expiry both_expiry parse_strict_uint parse_uint parse_digits
conflicting = refl
