-- ===== src/PubSub/Base64.antt =====
-- The Base64 routines of pubsub/PubSubPlugin/PubSubUtil.cpp. A char below 0 belongs to no alphabet,
-- and neither does a byte above 127.
pub mod RoundTrip
use graftcode_extensions.Base.{
  ℕ, ◌+◌, ◌-◌, ◌*◌, ◌/◌, ◌%◌, ◌^◌, Bool, true, false, ◌&&◌, ◌||◌, Option, none, some, [], ◌∷◌, ◌++◌,
  Bytes, codes, length, take, ltb, leb, ◌==◌, if◌then◌else◌, pop_while, map, runtime_error,
  invalid_argument, Result, ok, throw, ◌>>=◌,
}
use graftcode_extensions.Sqs.Codec.{Span, null_span, span}

-- `kTable[n]`, for n below 64.
unfoldable pub table_digit : ℕ → ℕ
table_digit n =
    if ltb n 26
    then b'A' + n
    else if ltb n 52
    then b'a' + (n - 26)
    else if ltb n 62
    then b'0' + (n - 52)
    else if n == 62
    then b'+'
    else b'/'

-- The digit at a bit of a 24-bit value.
abbrev digit_at : ℕ → ℕ → ℕ
digit_at value bit = table_digit (value / 2 ^ bit % 64)

unfoldable pub encode_bytes : Bytes → Bytes
unfolding table_digit
encode_bytes (a ∷ b ∷ c ∷ rest) =
    let value = a * 2 ^ 16 + b * 2 ^ 8 + c in
    digit_at value 18 ∷ digit_at value 12 ∷ digit_at value 6 ∷ digit_at value 0 ∷ encode_bytes rest
encode_bytes (a ∷ b ∷ []) =
    let value = a * 2 ^ 16 + b * 2 ^ 8 in
    digit_at value 18 ∷ digit_at value 12 ∷ digit_at value 6 ∷ b'=' ∷ []
encode_bytes (a ∷ []) =
    let value = a * 2 ^ 16 in digit_at value 18 ∷ digit_at value 12 ∷ b'=' ∷ b'=' ∷ []
encode_bytes [] = []

unfoldable pub base64_encode : Span → Result Bytes
unfolding encode_bytes
base64_encode (null_span n) =
    if n == 0
    then ok []
    else throw (invalid_argument (codes "Pub/Sub plugin: null payload with non-zero length"))
base64_encode (span bytes) = ok (encode_bytes bytes)

-- none is -1.
unfoldable pub base64_value : ℕ → Option ℕ
base64_value c =
    if leb b'A' c && leb c b'Z'
    then some (c - b'A')
    else if leb b'a' c && leb c b'z'
    then some (c - b'a' + 26)
    else if leb b'0' c && leb c b'9'
    then some (c - b'0' + 52)
    else if c == b'+' || c == b'-'
    then some 62
    else if c == b'/' || c == b'_'
    then some 63
    else none

abbrev is_space : ℕ → Bool
is_space c = c == b' ' || c == b'\n' || c == b'\r' || c == b'\t'

-- Whether the filter keeps a character, skips it, or refuses it.
keeps : ℕ → Option Bool
unfolding base64_value
keeps c = if c == b'=' then some true else elim (base64_value c) [
  | some v ↦ some true
  | none ↦ if is_space c then some false else none
]

abbrev not_base64 : Bytes
not_base64 = codes "Pub/Sub plugin: message data is not valid base64"

unfoldable pub filter_base64 : Bytes → Result Bytes
unfolding keeps
filter_base64 [] = ok []
filter_base64 (c ∷ s) =
    let rest = filter_base64 s in
    elim (keeps c) [
      | none ↦ throw (runtime_error not_base64)
      | some false ↦ rest
      | some true ↦ do filtered ← rest; ok (c ∷ filtered)
    ]

-- A byte goes out once there are eight bits.
push_byte : Bool → ℕ → Result Bytes → Result Bytes
push_byte false byte rest = rest
push_byte true byte rest = do decoded ← rest; ok (byte ∷ decoded)

-- The last loop: the accumulator is a 32-bit word, whose low six bits are free behind the shift.
unfoldable pub decode_loop : ℕ → ℕ → Bytes → Result Bytes
unfolding base64_value push_byte
decode_loop accumulator bits [] = ok []
decode_loop accumulator bits (c ∷ s) = elim (base64_value c) [
  | none ↦ throw (runtime_error not_base64)
  | some value ↦
      let word = accumulator * 2 ^ 6 % 2 ^ 32 + value in
      let full = leb 8 (bits + 6) in
      let left = if full then bits + 6 - 8 else bits + 6 in
      let rest = decode_loop word left s in push_byte full (word / 2 ^ left % 2 ^ 8) rest
]

abbrev is_padding : ℕ → Bool
is_padding c = c == b'='

unfoldable pub base64_decode : Bytes → Result Bytes
unfolding filter_base64 pop_while decode_loop
base64_decode encoded = do
  filtered ← filter_base64 encoded
  decode_loop 0 0 (pop_while is_padding filtered)

url_digit : ℕ → ℕ
url_digit c = if c == b'+' then b'-' else if c == b'/' then b'_' else c

unfoldable pub base64_url : Bytes → Bytes
unfolding url_digit encode_bytes pop_while
base64_url raw = pop_while is_padding (map url_digit (encode_bytes raw))

unfoldable pub truncate : Bytes → Bytes
truncate value = if leb (length value) 512 then value else take 512 value ++ codes "..."
