-- ===== src/Tests/PubSub.antt =====
-- The Base64 routines of the Pub/Sub plugin on concrete texts.
mod Settings
mod Calls
use graftcode_extensions.Base.{
  Bytes, arith, ◌≡◌, refl, [], ◌∷◌, codes, pop_while, ok, throw, runtime_error,
}
use graftcode_extensions.Sqs.Codec.{span}
use graftcode_extensions.PubSub.Base64.RoundTrip.{base64_decode-encode}
use graftcode_extensions.PubSub.Base64.{
  base64_encode, encode_bytes, table_digit, base64_decode, filter_base64, decode_loop, base64_value,
  base64_url,
}

encodes : base64_encode (span (codes "Ma")) ≡ ok (codes "TWE=")
unfolding base64_encode encode_bytes table_digit codes
encodes = refl

decodes : base64_decode (codes "TW Fu/-8=") ≡ ok (77 ∷ 97 ∷ 110 ∷ 255 ∷ 239 ∷ [])
unfolding base64_decode filter_base64 decode_loop base64_value pop_while codes
decodes = refl

refuses :
    base64_decode (codes "T*")
    ≡ throw (runtime_error (codes "Pub/Sub plugin: message data is not valid base64"))
unfolding base64_decode filter_base64 decode_loop base64_value pop_while codes
refuses = refl

url_form : base64_url (255 ∷ 239 ∷ []) ≡ codes "_-8"
unfolding base64_url encode_bytes table_digit pop_while codes
url_form = refl

abbrev letters : Bytes
letters = 77 ∷ 97 ∷ []

abbrev encoded : Bytes
encoded = 84 ∷ 87 ∷ 69 ∷ 61 ∷ []

letters_encoded : base64_encode (span letters) ≡ ok encoded
unfolding base64_encode encode_bytes table_digit
letters_encoded = refl

base64_decode-encode_example : base64_decode encoded ≡ ok letters
base64_decode-encode_example =
    base64_decode-encode (span letters) (omega arith, (omega arith, tt)) letters_encoded
