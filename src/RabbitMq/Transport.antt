-- ===== src/RabbitMq/Transport.antt =====
-- rabbitmq/RabbitmqPlugin/TransportRabbitMq.cpp: the transport that the C ABI calls; and the static
-- SendRpc of RabbitMqClient.cpp. `call` is the Call of the client.
use graftcode_extensions.Base.{
  ℕ, Bool, true, false, Option, [], ◌∷◌, Bytes, codes, ◌==◌, if◌then◌else◌, runtime_error, Result,
  ok, throw, ◌>>=◌,
}
use graftcode_extensions.Base.Int.{ℤ, pos, negsuc}
use graftcode_extensions.Json.{JsonLibrary}
use graftcode_extensions.Sqs.Codec.{Span, span, null_span, is_null}
use graftcode_extensions.RabbitMq.Config.{default_client_config, apply_config_source}
use graftcode_extensions.RabbitMq.Client.{RabbitMqRpcClient, new_client}

-- A reply that begins with 255 is the text of an error.
unfoldable pub checked_response : Bytes → Result Bytes
checked_response [] = ok []
checked_response (c ∷ rest) = if c == 255 then throw (runtime_error rest) else ok (c ∷ rest)

-- A null pointer is refused even with length 0.
unfoldable pub invalid_payload : ℤ → Span → Bool
invalid_payload (negsuc _) message = true
invalid_payload (pos n) message = is_null message

unfoldable pub send_rabbit_command : (Span → Result Bytes) → ℤ → Span → Result Bytes
unfolding invalid_payload checked_response
send_rabbit_command call len message =
    if invalid_payload len message
    then throw (runtime_error (codes "invalid RabbitMQ payload"))
    else do response ← call message; checked_response response

-- The constructor: the address that the ABI passes counts where the settings name no other.
unfoldable pub new_transport :
    JsonLibrary → (Bytes → Option Bytes) → Bytes → ℕ → Bytes → RabbitMqRpcClient
new_transport json read_file host port source = new_client (
    apply_config_source json read_file source
      (record default_client_config { host = host; port = port }))

-- `call` runs on a client made for it. What is returned, and the response.
unfoldable pub send_rpc : (Span → Result Bytes) → Span → Bool × Bytes
send_rpc call payload = elim (call payload) [
  | ok response ↦ (true, response)
  | throw e ↦ (false, [])
]

-- The overload that takes a vector: an empty one is passed as a null pointer.
unfoldable pub vector_span : Bytes → Span
vector_span [] = null_span 0
vector_span (b ∷ payload) = span (b ∷ payload)
