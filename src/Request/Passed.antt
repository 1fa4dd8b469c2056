-- ===== src/Request/Passed.antt =====
-- What a POST passes on to its streamer.
use yasdb.Prelude.{
  ℕ, ◌≤◌, ◌≡◌, ◌⊎◌, refl, ap, sym, subst, ◌∙◌, Bool, true, false, ◌&&◌, ◌||◌, not, Option, none,
  some, List, [], ◌∷◌, if◌then◌else◌, Bool-cases, inl, inr, Result, ok, err,
}
use yasdb.Prelude.Bytes.{Bytes}
use yasdb.Decimal.{parse_strict_uint, parse_producer_int, max_js_int}
use yasdb.Producer.{ProducerHeaders}
use yasdb.ContentType.{trim_space, content_type_matches, is_json_stream}
use yasdb.Json.{JsonLib, flatten_json}
use yasdb.Streamer.{AppendReq}
use yasdb.Decimal.Laws.{parse_producer_int_bound}
use yasdb.Request.{
  header_ptr, present, header_true, producer_numbers, parse_producer, Post, Target, refuses,
  request_with, post_records, post_request,
}

-- A producer that comes from all three headers, none of which is missing or empty, with both numbers below
-- 2 ^ 53; or no producer, where all three are missing or empty.
abbrev pub IsFromHeaders : Bytes → Bytes → Bytes → Option ProducerHeaders → Type 0
IsFromHeaders id epoch seq none = (id ≡ []) × (epoch ≡ []) × (seq ≡ [])
IsFromHeaders id epoch seq (some h) =
    (h.id ≡ id)
    × (present id ≡ true)
    × (present epoch ≡ true)
    × (present seq ≡ true)
    × (parse_strict_uint epoch ≡ some h.epoch)
    × (parse_strict_uint seq ≡ some h.seq)
    × (h.epoch ≤ max_js_int)
    × (h.seq ≤ max_js_int)

producer_numbers-IsFromHeaders :
    (id epoch seq : Bytes) (e s : Option ℕ) (producer : Option ProducerHeaders)
    → present id ≡ true
    → present epoch ≡ true
    → present seq ≡ true
    → parse_producer_int epoch ≡ e
    → parse_producer_int seq ≡ s
    → producer_numbers id e s ≡ some producer
    → IsFromHeaders id epoch seq producer
unfolding producer_numbers
producer_numbers-IsFromHeaders id epoch seq none s producer pi pe ps he hs h = cc
producer_numbers-IsFromHeaders id epoch seq (some m) none producer pi pe ps he hs h = cc
producer_numbers-IsFromHeaders id epoch seq (some m) (some n) producer pi pe ps he hs h =
    let (strict_m, low_m) = parse_producer_int_bound epoch m he in
    let (strict_n, low_n) = parse_producer_int_bound seq n hs in
    let is : some (record { id = id; epoch = m; seq = n }) ≡ producer = cc in
    subst (IsFromHeaders id epoch seq) is (refl, pi, pe, ps, strict_m, strict_n, low_m, low_n)

parse_producer-IsFromHeaders :
    (id epoch seq : Bytes) (producer : Option ProducerHeaders)
    → parse_producer id epoch seq ≡ some producer
    → IsFromHeaders id epoch seq producer
unfolding parse_producer
parse_producer-IsFromHeaders [] [] [] producer h =
    let is : none ≡ producer = cc in subst (IsFromHeaders [] [] []) is (refl, refl, refl)
parse_producer-IsFromHeaders [] [] (s ∷ seq) producer h = cc
parse_producer-IsFromHeaders [] (e ∷ epoch) [] producer h = cc
parse_producer-IsFromHeaders [] (e ∷ epoch) (s ∷ seq) producer h = cc
parse_producer-IsFromHeaders (i ∷ id) [] [] producer h = cc
parse_producer-IsFromHeaders (i ∷ id) [] (s ∷ seq) producer h = cc
parse_producer-IsFromHeaders (i ∷ id) (e ∷ epoch) [] producer h = cc
parse_producer-IsFromHeaders (i ∷ id) (e ∷ epoch) (s ∷ seq) producer h =
    producer_numbers-IsFromHeaders (i ∷ id) (e ∷ epoch) (s ∷ seq) _ _ producer refl refl refl refl
      refl h

-- A request that is made has its records and its producer.
request_with-some :
    (p : Post) (producer : Option (Option ProducerHeaders)) (records : Result (List Bytes))
    (r : AppendReq)
    → request_with p producer records ≡ some r
    → (producer ≡ some r.producer)
      × (records ≡ ok r.records)
      × (r.has_body ≡ present p.body)
      × (r.close_stream ≡ header_true p.closed)
unfolding request_with
request_with-some p none records r h = cc
request_with-some p (some producer) (err e) r h = cc
request_with-some p (some producer) (ok records) r h =
    let is : ◌≡◌ {A = AppendReq}
        (record {
          records = records;
          has_body = present p.body;
          content_type = p.content_type;
          close_stream = header_true p.closed;
          stream_seq = header_ptr p.stream_seq;
          producer = producer;
        })
        r =
      cc in
    subst
      (λ (q : AppendReq).
        (some producer ≡ some q.producer)
        × (ok records ≡ ok q.records)
        × (q.has_body ≡ present p.body)
        × (q.close_stream ≡ header_true p.closed))
      is (refl, refl, refl, refl)

passes :
    (body closes typed : Bool)
    → (not body && not closes || body && not typed) ≡ false
    → ((body ≡ true) × (typed ≡ true)) ⊎ ((body ≡ false) × (closes ≡ true))
passes true closes true h = inl (refl, refl)
passes true true false h = cc
passes true false false h = cc
passes false true typed h = inr (refl, refl)
passes false false true h = cc
passes false false false h = cc

appended :
    (body closed matching : Bool)
    → (body && (not closed && matching)) ≡ true
    → (body ≡ true) × (closed ≡ false) × (matching ≡ true)
appended true false true h = (refl, refl, refl)
appended true false false h = cc
appended true true matching h = cc
appended false closed matching h = cc

module _ (parse_media_type : Bytes → Option Bytes) (json : JsonLib) where
  -- There are records only for an open stream of the same content type.
  post_records-empty :
      (p : Post) (t : Target) (records : List Bytes)
      → post_records parse_media_type json p t ≡ ok records
      → (records ≡ [])
        ⊎ ((present p.body ≡ true)
            × (t.closed ≡ false)
            × (content_type_matches parse_media_type t.content_type p.content_type ≡ true))
  unfolding post_records
  post_records-empty p t records h =
      let matching = content_type_matches parse_media_type t.content_type p.content_type in
      let flattened =
        if is_json_stream parse_media_type t.content_type
        then flatten_json json p.body
        else ok (p.body ∷ []) in
      elim (Bool-cases (present p.body && (not t.closed && matching))) [
        | inl all ↦ inr (appended (present p.body) t.closed matching all)
        | inr nothing ↦
            let is : ok [] ≡ ok records =
              sym (ap (λ b. if b then flattened else ok []) nothing) ∙ h in
            inl cc
      ]

  checked_request :
      (p : Post) (t : Target) (r : AppendReq)
      → post_request parse_media_type json p t ≡ some r
      → (refuses p ≡ false)
        × (request_with p
              (parse_producer p.producer_id p.producer_epoch p.producer_seq)
              (post_records parse_media_type json p t)
            ≡ some r)
  unfolding post_request
  checked_request p t r h =
      let made =
        request_with p (parse_producer p.producer_id p.producer_epoch p.producer_seq)
          (post_records parse_media_type json p t) in
      elim (Bool-cases (refuses p)) [
        | inl refused ↦
            let e : none ≡ some r = sym (ap (λ b. if b then none else made) refused) ∙ h in cc
        | inr passed ↦ (passed, sym (ap (λ b. if b then none else made) passed) ∙ h)
      ]

  -- What a POST passes on to its streamer: either a body with a content type, or no body and the wish to
  -- close the stream; no producer, where its three headers are missing or empty, or the producer that all
  -- three name, none of them empty, with canonical numbers of at most 2 ^ 53 - 1; and records only for a body, on a stream that
  -- is open and has the same content type.
  pub post_request-passed :
      (p : Post) (t : Target) (r : AppendReq)
      → post_request parse_media_type json p t ≡ some r
      → IsFromHeaders p.producer_id p.producer_epoch p.producer_seq r.producer
        × (((r.has_body ≡ true) × (present (trim_space p.content_type) ≡ true))
            ⊎ ((r.has_body ≡ false) × (r.close_stream ≡ true)))
        × ((r.records ≡ [])
            ⊎ ((r.has_body ≡ true)
                × (t.closed ≡ false)
                × (content_type_matches parse_media_type t.content_type p.content_type ≡ true)))
  unfolding refuses
  post_request-passed p t r h =
      let (passed, made) = checked_request p t r h in
      let (producer, records, body, close) = request_with-some p _ _ r made in
      (
        parse_producer-IsFromHeaders p.producer_id p.producer_epoch p.producer_seq r.producer
            producer,
        elim (passes (present p.body) (header_true p.closed) (present (trim_space p.content_type))
            passed) [
              | inl with_body ↦ inl (body ∙ with_body.0, with_body.1)
              | inr without ↦ inr (body ∙ without.0, close ∙ without.1)
            ],
        elim (post_records-empty p t r.records records) [
          | inl empty ↦ inl empty
          | inr full ↦ let (has, still, same) = full in inr (body ∙ has, still, same)
        ],
      )
