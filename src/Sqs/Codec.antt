-- ===== src/Sqs/Codec.antt =====
-- sqs/SqsPlugin/SqsUtil.cpp: the encoding of payloads, ids, attributes and FIFO fields. The Base64
-- routines are the AWS SDK's and so a parameter; strings that pass through `c_str()` end at a NUL.
pub mod Alphabet
pub mod RoundTrip
pub mod Ids
use graftcode_extensions.Base.{
  c_str, ℕ, zero, suc, ◌+◌, ◌-◌, ◌*◌, ◌/◌, ◌%◌, ◌^◌, Bool, true, false, not, ◌&&◌, ◌||◌, Option,
  none, some, List, [], ◌∷◌, ◌++◌, Bytes, codes, length, is_empty, take, drop, bytes_eq, find,
  before_byte, ltb, leb, ◌==◌, if◌then◌else◌, Exception, runtime_error, invalid_argument, Result,
  ok, throw, ◌>>=◌, ◌>>◌, throw_if,
}
use graftcode_extensions.Sqs.Endpoint.{is_fifo_queue_url}

pub record Base64 : Type 0 where
  pub encode : Bytes → Bytes
  pub decode : Bytes → Bytes

-- A pointer and a size, as the arguments of a call: a null pointer, or the bytes pointed to.
pub data Span : Type 0 where
  null_span : ℕ → Span
  span : Bytes → Span

abbrev pub span_size : Span → ℕ
span_size (null_span n) = n
span_size (span bytes) = length bytes

abbrev pub is_null : Span → Bool
is_null (null_span _) = true
is_null (span _) = false

-- The bytes read through it; a null pointer stands for the empty string.
abbrev pub span_bytes : Span → Bytes
span_bytes (null_span _) = []
span_bytes (span bytes) = bytes

abbrev pub within : ℕ → ℕ → ℕ → Bool
within lo hi c = leb lo c && leb c hi

unfoldable pub is_alphabet : ℕ → Bool
is_alphabet c =
    within b'0' b'9' c || within b'A' b'Z' c || within b'a' b'z' c || c == b'+' || c == b'/'

-- One round of the loop: the next value of `padding`, or none for `return false`.
unfoldable pub base64_step : Bool → ℕ → Option Bool
unfolding is_alphabet
base64_step padding c =
    if c == b'='
    then some true
    else if padding
    then none
    else if is_alphabet c
    then some false
    else none

unfoldable pub base64_loop : Bool → Bytes → Bool
unfolding base64_step
base64_loop padding [] = true
base64_loop padding (c ∷ s) = elim (base64_step padding c) [
  | none ↦ false
  | some next ↦ base64_loop next s
]

unfoldable pub is_valid_base64 : Bytes → Bool
unfolding base64_loop
is_valid_base64 value =
    if is_empty value
    then true
    else if not (length value % 4 == 0)
    then false
    else base64_loop false value

abbrev pub max_encoded_body_bytes : ℕ
max_encoded_body_bytes = 1024 * 1024

unfoldable pub prefix : Bytes
prefix = codes "graftcode-base64:"

module _ (base64 : Base64) where
  unfoldable pub encode_payload : Span → Result Bytes
  unfolding prefix
  encode_payload s =
      let encoded = prefix ++ base64.encode (span_bytes s) in
      do
        throw_if (ltb 0 (span_size s) && is_null s)
            (invalid_argument (codes "SQS plugin: null payload with non-zero length"))
        throw_if (ltb max_encoded_body_bytes (length encoded))
            (runtime_error (codes "SQS plugin: encoded payload exceeds the 1 MiB SQS limit"))
        ok encoded

  decoded_payload : Bytes → Bytes → Result Bytes
  decoded_payload encoded [] =
      if not (is_empty encoded)
      then throw (runtime_error (codes "SQS plugin: failed to decode message body"))
      else ok []
  decoded_payload encoded (c ∷ s) = ok (c ∷ s)

  unfoldable pub decode_payload : Bytes → Result Bytes
  unfolding prefix decoded_payload bytes_eq
  decode_payload body =
      let encoded = drop 17 body in
      do
        throw_if (ltb (length body) 17 || not (bytes_eq (take 17 body) prefix))
            (runtime_error (codes "SQS plugin: message body has an unsupported encoding"))
        throw_if (not (is_valid_base64 encoded))
            (runtime_error (codes "SQS plugin: message body is not valid base64"))
        decoded_payload encoded (base64.decode encoded)

pub hex_digit : ℕ → ℕ
hex_digit n = if ltb n 10 then b'0' + n else b'a' + (n - 10)

-- `std::hex` with `setw(k)` and `setfill('0')`, of a number below 16 ^ k.
unfoldable pub hex_word : ℕ → ℕ → Bytes
unfolding hex_digit
hex_word zero n = []
hex_word (suc k) n = hex_word k (n / 16) ++ hex_digit (n % 16) ∷ []

-- The two words come from the random engine.
unfoldable pub new_correlation_id : ℕ → ℕ → Bytes
unfolding hex_word
new_correlation_id first second = hex_word 16 first ++ hex_word 16 second

-- A message's attributes, by name.
abbrev pub Attributes : Type 0
Attributes = List (Bytes × Bytes)

unfoldable pub get_string_attribute : Attributes → Bytes → Bytes
get_string_attribute attributes name = elim (find name attributes) [
  | none ↦ []
  | some value ↦ c_str value
]

unfoldable pub correlation_id_attribute : Bytes
correlation_id_attribute = codes "GraftcodeCorrelationId"

unfoldable pub reply_to_attribute : Bytes
reply_to_attribute = codes "GraftcodeReplyTo"

-- The fields of a SendMessageRequest that the plugin sets.
pub record SendRequest : Type 0 where
  pub queue_url : Bytes
  pub body : Bytes
  pub attributes : Attributes
  pub group_id : Option Bytes
  pub deduplication_id : Option Bytes

unfoldable pub configure_fifo_message : SendRequest → Bytes → Bytes → Bytes → SendRequest
unfolding is_fifo_queue_url c_str
configure_fifo_message request queue_url group_id deduplication_id =
    if not (is_fifo_queue_url queue_url) then request else record request {
      group_id = some (if is_empty group_id then codes "graftcode" else c_str group_id);
      deduplication_id = some (c_str deduplication_id);
    }
