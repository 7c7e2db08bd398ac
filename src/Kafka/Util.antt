-- ===== src/Kafka/Util.antt =====
-- kafka/KafkaPlugin/KafkaUtil.h: ids, headers and settings. librdkafka's Headers are a parameter.
pub mod Uuid
use graftcode_extensions.Base.{
  ℕ, ◌+◌, ◌*◌, ◌/◌, ◌%◌, ◌^◌, ◌≡◌, ◌≢◌, Bool, true, false, not, Option, none, some, List, [], ◌∷◌,
  ◌++◌, Bytes, codes, is_empty, if◌then◌else◌, Result, ok, throw, runtime_error,
}
use graftcode_extensions.Sqs.Codec.{hex_word}

-- The bits of each `|` are apart, so it is a sum.
unfoldable pub make_uuid_v4 : ℕ → ℕ → Bytes
make_uuid_v4 a b =
    let time_low = a % 2 ^ 32 in
    let time_mid = a / 2 ^ 32 % 2 ^ 16 in
    let time_hi = a / 2 ^ 48 % 2 ^ 12 + 4 * 2 ^ 12 in
    let clock_seq = b / 2 ^ 48 % 2 ^ 14 + 2 * 2 ^ 14 in
    let node = b % 2 ^ 48 in
    hex_word 8 time_low
    ++ (b'-' ∷ hex_word 4 time_mid
        ++ (b'-' ∷ hex_word 4 time_hi
            ++ (b'-' ∷ hex_word 4 clock_seq ++ (b'-' ∷ hex_word 12 node))))

-- The values that `get` lists may be null pointers.
pub record HeaderLibrary : Type 1 where
  pub Headers : Type 0
  pub create : Headers
  pub add : Bytes → Bytes → Headers → Headers
  pub get : Headers → Bytes → List (Option Bytes)

-- What librdkafka documents: `get` lists the values of a key in the order in which they were added.
pub record KeepsHeaders (library : HeaderLibrary) : Type 0 where
  pub get_create : (key : Bytes) → library.get library.create key ≡ []
  pub get_add :
      (key value : Bytes) (h : library.Headers)
      → library.get (library.add key value h) key ≡ library.get h key ++ some value ∷ []
  pub get_add_other :
      (key other value : Bytes) (h : library.Headers)
      → key ≢ other
      → library.get (library.add key value h) other ≡ library.get h other

unfoldable pub first_value : List (Option Bytes) → Bytes
first_value (some value ∷ _) = value
first_value _ = []

module _ (library : HeaderLibrary) where
  open library use {Headers, create, add, get}

  unfoldable pub header_value : Option Headers → Bytes → Bytes
  unfolding first_value
  header_value none key = []
  header_value (some h) key = first_value (get h key)

  unfoldable pub make_rpc_headers : Bytes → Bytes → Headers
  make_rpc_headers correlation_id reply_to =
      let headers = add (codes "correlation-id") correlation_id create in
      if not (is_empty reply_to) then add (codes "reply-to") reply_to headers else headers

-- The settings that were made, the last one first.
abbrev pub Conf : Type 0
Conf = List (Bytes × Bytes)

-- `set` answers a setting with none, or with the text of its refusal.
unfoldable pub set_conf_or_throw :
    (Bytes → Bytes → Option Bytes) → Bytes → Bytes → Conf → Result Conf
set_conf_or_throw set key value conf = elim (set key value) [
  | none ↦ ok ((key, value) ∷ conf)
  | some refusal ↦
      throw
        (runtime_error (codes "librdkafka conf set '" ++ (key ++ (codes "' failed: " ++ refusal))))
]
