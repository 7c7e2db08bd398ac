-- ===== src/Sqs/Codec/RoundTrip.antt =====
-- A payload survives EncodePayload and DecodePayload of sqs/SqsPlugin/SqsUtil.cpp.
use graftcode_extensions.Base.{
  ◌+◌, ◌<◌, ◌≤◌, ◌≡◌, refl, ap, ◌∙◌, [], ◌∷◌, ◌++◌, arith, Bytes, length, take, drop, bytes_eq_refl,
  All, ok, codes,
}
use graftcode_extensions.Sqs.Codec.{
  Base64, Span, span_bytes, prefix, max_encoded_body_bytes, encode_payload, decode_payload,
  decoded_payload,
}
use graftcode_extensions.Sqs.Codec.Alphabet.{IsBase64, is_valid_base64_iff}

abbrev pub IsByteString : Bytes → Type 0
IsByteString = All (λ c. c < 256)

-- What RFC 4648 says of the SDK's routines: the encoding uses the alphabet and pads to groups of
-- four, and decoding inverts it.
pub record IsRfc4648 (base64 : Base64) : Type 0 where
  pub well_formed : (bytes : Bytes) → All (λ c. c < 256) bytes → IsBase64 (base64.encode bytes)
  pub inverse :
      (bytes : Bytes) → All (λ c. c < 256) bytes → base64.decode (base64.encode bytes) ≡ bytes
  pub empty : base64.encode [] ≡ []

take-prefix : (e : Bytes) → take 17 (prefix ++ e) ≡ prefix
unfolding prefix codes
take-prefix e = refl

drop-prefix : (e : Bytes) → drop 17 (prefix ++ e) ≡ e
unfolding prefix codes
drop-prefix e = refl

length-prefix : (e : Bytes) → length (prefix ++ e) ≡ 17 + length e
unfolding prefix codes
length-prefix e = omega arith

module _ (base64 : Base64) where
  encode_payload-eq-ok :
      (s : Span) {body : Bytes}
      → encode_payload base64 s ≡ ok body
      → (body ≡ prefix ++ base64.encode (span_bytes s)) × (length body ≤ max_encoded_body_bytes)
  unfolding encode_payload
  encode_payload-eq-ok s h = ground arith

  decoded_payload_lem :
      (rfc : IsRfc4648 base64) (bytes : Bytes)
      → All (λ c. c < 256) bytes
      → decoded_payload base64 (base64.encode bytes) bytes ≡ ok bytes
  unfolding decoded_payload
  decoded_payload_lem rfc [] h = rw rfc.empty refl
  decoded_payload_lem rfc (c ∷ s) h = refl

  decode_payload-prefix :
      (rfc : IsRfc4648 base64) (bytes : Bytes)
      → All (λ c. c < 256) bytes
      → decode_payload base64 (prefix ++ base64.encode bytes) ≡ ok bytes
  unfolding decode_payload
  decode_payload-prefix rfc bytes h =
      let e = base64.encode bytes in
      ground (
        arith,
        take-prefix e,
        drop-prefix e,
        length-prefix e,
        bytes_eq_refl prefix,
        (is_valid_base64_iff e).1 (rfc.well_formed bytes h),
        rfc.inverse bytes h,
        decoded_payload_lem rfc bytes h,
      )

  -- With a Base64 as in RFC 4648, what EncodePayload gives for a payload DecodePayload reads back,
  -- byte for byte; and it is never longer than the limit of the queue.
  pub decode-encode_payload :
      (rfc : IsRfc4648 base64) (s : Span) {body : Bytes}
      → All (λ c. c < 256) (span_bytes s)
      → encode_payload base64 s ≡ ok body
      → (decode_payload base64 body ≡ ok (span_bytes s)) × (length body ≤ max_encoded_body_bytes)
  decode-encode_payload rfc s b h =
      let (e, limit) = encode_payload-eq-ok s h in
      (ap (decode_payload base64) e ∙ decode_payload-prefix rfc (span_bytes s) b, limit)
