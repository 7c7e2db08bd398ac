-- ===== src/ServiceBus/Transport.antt =====
-- servicebus/ServiceBusPlugin/TransportServiceBus.cpp: the transport that the C ABI calls; and the
-- static SendRpc and PublishOneWay of ServiceBusClient.cpp. `call` is the Call of the client.
use graftcode_extensions.Base.{
  Bool, true, false, Option, [], ◌∷◌, Bytes, codes, ◌==◌, if◌then◌else◌, is_empty, runtime_error,
  Result, ok, throw, ◌>>=◌,
}
use graftcode_extensions.Base.Int.{ℤ, pos, negsuc}
use graftcode_extensions.Json.{JsonLibrary}
use graftcode_extensions.Sqs.Codec.{Span, is_null}
use graftcode_extensions.ServiceBus.Config.{
  ServiceBusClientConfig, default_client_config, apply_config_source,
}
use graftcode_extensions.ServiceBus.Client.{ServiceBusRpcClient, new_client}

unfoldable pub checked_response : Bytes → Result Bytes
checked_response [] = ok []
checked_response (c ∷ rest) = if c == 255 then throw (runtime_error rest) else ok (c ∷ rest)

unfoldable pub invalid_payload : ℤ → Span → Bool
invalid_payload (negsuc _) message = true
invalid_payload (pos n) message = is_null message

unfoldable pub send_service_bus_command : (Span → Result Bytes) → ℤ → Span → Result Bytes
unfolding invalid_payload checked_response
send_service_bus_command call len message =
    if invalid_payload len message
    then throw (runtime_error (codes "invalid Service Bus payload"))
    else do response ← call message; checked_response response

-- The constructor: the host that the ABI passes counts where the settings name no other; the port
-- is not used. `session` is the fresh reply session id.
unfoldable pub new_transport :
    JsonLibrary → (Bytes → Option Bytes) → Bytes → Bytes → Bytes → ServiceBusRpcClient
new_transport json read_file session host source =
    new_client session
      (apply_config_source json read_file source (record default_client_config { host = host }))

-- `call` runs on a client made for it. What is returned, and the response.
unfoldable pub send_rpc : (Span → Result Bytes) → Span → Bool × Bytes
send_rpc call payload = elim (call payload) [
  | ok response ↦ (true, response)
  | throw e ↦ (false, [])
]

unfoldable pub publish_one_way : ServiceBusClientConfig → (Span → Result Bytes) → Span → Bool
publish_one_way config call payload =
    if is_empty config.topic then false else elim (call payload) [ ok _ ↦ true | throw e ↦ false ]
