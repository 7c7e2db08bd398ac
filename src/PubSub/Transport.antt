-- ===== src/PubSub/Transport.antt =====
-- pubsub/PubSubPlugin/TransportPubSub.cpp: the transport that the C ABI calls. `call` is the client's
-- Call.
use graftcode_extensions.Base.{
  Bool, true, ◌&&◌, Option, none, some, [], ◌∷◌, Bytes, codes, ◌==◌, if◌then◌else◌, ltb,
  runtime_error, invalid_argument, Result, ok, throw, ◌>>=◌, ◌>>◌,
}
use graftcode_extensions.Base.Int.{ℤ, pos, negsuc}
use graftcode_extensions.Json.{JsonLibrary}
use graftcode_extensions.Sqs.Codec.{Span, is_null}
use graftcode_extensions.PubSub.Config.{Environment}
use graftcode_extensions.PubSub.Config.Source.{parse_pubsub_config_source}
use graftcode_extensions.PubSub.Client.{PubSubClient, new_client}

unfoldable pub reject_gateway_error_payload : Bytes → Result (Unit {0})
reject_gateway_error_payload [] = ok tt
reject_gateway_error_payload (c ∷ rest) = if c == 255 then throw (runtime_error rest) else ok tt

invalid_request : ℤ → Span → Bool
invalid_request (negsuc _) message = true
invalid_request (pos n) message = ltb 0 n && is_null message

-- A length that passes the test fits the size that Call takes.
unfoldable pub send_pubsub_command : (Span → Result Bytes) → ℤ → Span → Result Bytes
unfolding invalid_request
send_pubsub_command call len message =
    if invalid_request len message
    then throw (invalid_argument (codes "Pub/Sub transport: invalid request payload"))
    else do response ← call message; reject_gateway_error_payload response; ok response

module _ (json : JsonLibrary) where
  source_of : Option Bytes → Bytes
  source_of none = []
  source_of (some source) = source

  -- The transport's constructor.
  unfoldable pub new_transport :
      (Bytes → Option Bytes) → Environment → Option Bytes → Result PubSubClient
  unfolding source_of
  new_transport read_file env config_source = do
    config ← parse_pubsub_config_source json read_file (source_of config_source)
    new_client env config
