-- ===== src/Kafka/Transport.antt =====
-- kafka/KafkaPlugin/TransportKafka.cpp: the transport that the C ABI calls. `call` is the client's
-- call, of the size that it is given and of the data: none for a null pointer.
use graftcode_extensions.Base.{
  ℕ, ◌≤◌, ◌<◌, ◌^◌, ◌≡◌, ◌⊎◌, refl, ap, false, Option, some, [], ◌∷◌, arith, Bytes, length, ◌==◌,
  ==_iff, if◌then◌else◌, Bool-cases, inl, inr, c_str, length-c_str, runtime_error, Result, ok,
  throw, ◌>>=◌,
}
use graftcode_extensions.Base.Int.{ℤ, negsuc, to_size}
use graftcode_extensions.Abi.{transport_plugin_ok, transport_plugin_error, send_command, error_text}
use graftcode_extensions.Abi.Contract.{read_output, granted, send_command_lossless}
use graftcode_extensions.Json.{JsonLibrary}
use graftcode_extensions.Kafka.Config.{parse_client_config}
use graftcode_extensions.Kafka.Client.{KafkaClient, new_client}

-- The constructor; `instance_id` is the fresh UUID.
unfoldable pub new_transport : JsonLibrary → Bytes → Option Bytes → KafkaClient
new_transport json instance_id source = new_client instance_id (parse_client_config json source)

-- The `if` of SendCommand.
unfoldable pub checked_response : Bytes → Result Bytes
checked_response [] = ok []
checked_response (c ∷ rest) = if c == 255 then throw (runtime_error rest) else ok (c ∷ rest)

unfoldable pub send_kafka_command :
    (ℕ → Option Bytes → Result Bytes) → ℤ → Option Bytes → Result Bytes
unfolding checked_response
send_kafka_command call len message = do
  response ← call (to_size len) message
  checked_response response

-- With memory at hand and a reply below 2 GiB, whatever is passed as the length: a reply that
-- begins with the mark comes out of the ABI as an error with the rest of the reply, up to a NUL,
-- for its text; every other reply comes out as it is, with the status OK.
pub kafka_reply_reported :
    (call : ℕ → Option Bytes → Result Bytes) (len : ℤ) (message : Option Bytes) (bad reply : Bytes)
    → call (to_size len) message ≡ ok reply
    → length reply < 2 ^ 31
    → let r =
        send_command bad granted granted false false (some (send_kafka_command call len message)) in
      ((r.0 ≡ transport_plugin_ok) × (read_output r.1 ≡ some reply))
      ⊎ ((rest : Bytes) × (reply ≡ 255 ∷ rest)
          × (r.0 ≡ transport_plugin_error)
          × (read_output r.1 ≡ some (c_str rest)))
unfolding send_kafka_command checked_response error_text
kafka_reply_reported call len message bad [] h l =
    let k = send_command_lossless bad (some (ok [])) l in rw h (inl k)
kafka_reply_reported call len message bad (c ∷ rest) h l = elim (Bool-cases (c == 255)) [
  | inl y ↦
      let k =
        send_command_lossless bad (some (throw (runtime_error rest)))
          (omega (arith, length-c_str rest)) in
      rw (h, y) (inr (rest, ap (λ d. d ∷ rest) ((==_iff c 255).0 y), k.0, k.1))
  | inr n ↦ let k = send_command_lossless bad (some (ok (c ∷ rest))) l in rw (h, n) (inl k)
]

-- A negative length is passed on as a size of at least 2 ^ 63.
pub negative_length_passed :
    (call : ℕ → Option Bytes → Result Bytes) (n : ℕ) (message : Option Bytes)
    → n < 2 ^ 31
    → (size : ℕ) × (2 ^ 63 ≤ size)
      × (send_kafka_command call (negsuc n) message ≡ (call size message >>= checked_response))
unfolding send_kafka_command to_size
negative_length_passed call n message h = (to_size (negsuc n), omega arith, refl)
