-- ===== src/Tests/Sqs/Wire.antt =====
-- sqs/SqsPlugin/SqsUtil.cpp and SqsServer.cpp on concrete messages.
use graftcode_extensions.Base.{
  c_str, ◌≡◌, ◌≤◌, ◌<◌, refl, ◌⊎◌, ◌≢◌, true, false, none, some, List, [], ◌∷◌, ◌++◌, arith, Bytes,
  codes, length, find, before_byte, ok, All,
}
use graftcode_extensions.PendingReplies.{register, Ticket}
use graftcode_extensions.PendingReplies
use graftcode_extensions.Abi.{send_command, transport_plugin_ok, transport_plugin_error}
use graftcode_extensions.Abi.Contract.{read_output, granted}
use graftcode_extensions.Sqs.Config.{SqsConfig, default_config}
use graftcode_extensions.Sqs.Codec.{
  span, encode_payload, decode_payload, is_valid_base64, base64_loop, base64_step, is_alphabet,
  prefix, SendRequest, max_encoded_body_bytes,
}
use graftcode_extensions.Sqs.Codec.RoundTrip.{decode-encode_payload}
use graftcode_extensions.Sqs.Client.{
  Message, SqsClient, Started, begin_call, take_ticket, send_request, ensure_dispatcher,
}
use graftcode_extensions.Sqs.Server.{
  Surroundings, Processed, send_message, handle_message, delete_request, write_all, write_response,
}
use graftcode_extensions.Sqs.Server.Lifecycle.{
  new_server, Event, starts, sets_up, checks, leaves, asks, run, step, IsSound, new_server-IsSound,
  run-IsSound, stop_returns,
}
use graftcode_extensions.Sqs.Transport.{gateway_reply_reported, not_marked, sent}
use graftcode_extensions.Sqs.Client.Dispatch.{message_id}
use graftcode_extensions.Sqs.Rpc.{NoNul, delivered, rpc_round_trip}
use graftcode_extensions.Tests.Fixtures.{rfc, rfc-IsRfc4648}
use graftcode_extensions.PubSub.Base64.{encode_bytes, table_digit}

abbrev payload : Bytes
payload = 1 ∷ 0 ∷ 255 ∷ []

abbrev body : Bytes
body = prefix ++ encode_bytes payload

encoded : encode_payload rfc (span payload) ≡ ok body
unfolding encode_payload prefix codes encode_bytes table_digit
encoded = refl

payload_bytes : All (λ c. c < 256) payload
payload_bytes = (omega arith, (omega arith, (omega arith, tt)))

decode-encode_payload_example :
    (decode_payload rfc body ≡ ok payload) × (length body ≤ max_encoded_body_bytes)
decode-encode_payload_example =
    decode-encode_payload rfc rfc-IsRfc4648 (span payload) payload_bytes encoded

valid_padded : is_valid_base64 (codes "QQ==") ≡ true
unfolding is_valid_base64 base64_loop base64_step is_alphabet codes
valid_padded = refl

padding_inside : is_valid_base64 (codes "Q==Q") ≡ false
unfolding is_valid_base64 base64_loop base64_step is_alphabet codes
padding_inside = refl

abbrev server_config : SqsConfig
server_config = record default_config { request_queue_url = b'q' ∷ [] }

abbrev client_config : SqsConfig
client_config = record server_config { reply_queue_url = b'r' ∷ [] }

abbrev client : SqsClient
client = record {
  config = client_config;
  pending = PendingReplies.initial;
  started = false;
  stopping = false;
}

abbrev id : Bytes
id = b'i' ∷ []

abbrev answer : Bytes
answer = 9 ∷ 0 ∷ []

abbrev processed : Processed
processed = record { accepted = true; writes = span payload ∷ span answer ∷ [] }

abbrev env : Surroundings
env = record {
  process = λ request. ok processed;
  random_first = 1;
  random_second = 2;
  sent = none;
  deleted = none;
}

abbrev ticket : Ticket
ticket = record { owner = true; id = id; slot = 0 }

abbrev started : Started
started = record { request = send_request client_config id body; ticket = some ticket }

began : (begin_call rfc id (span payload) client).1 ≡ ok started
unfolding begin_call take_ticket ensure_dispatcher register find encode_payload prefix codes
    encode_bytes table_digit
began = refl

abbrev request : Message
request = delivered started.request []

abbrev answer_body : Bytes
answer_body = prefix ++ encode_bytes answer

answer_encoded : encode_payload rfc (span (write_all [] processed.writes)) ≡ ok answer_body
unfolding encode_payload prefix codes encode_bytes table_digit write_all write_response
answer_encoded = refl

answer_bytes : All (λ c. c < 256) (write_all [] processed.writes)
unfolding write_all write_response
answer_bytes = (omega arith, (omega arith, tt))

id_NoNul : NoNul id
id_NoNul = (refl, tt)

id_given : id ≢ []
id_given e = ground arith

reply_queue_given : c_str client_config.reply_queue_url ≢ []
unfolding c_str before_byte
reply_queue_given e = ground arith

rpc_round_trip_example :
    (reply : SendRequest) × (handle_message rfc server_config env request
      ≡ ok (send_message reply none ∷ delete_request server_config env request ∷ []))
    × (reply.queue_url ≡ c_str client_config.reply_queue_url)
    × (message_id (delivered reply []) ≡ id)
    × (decode_payload rfc (delivered reply []).body ≡ ok (write_all [] processed.writes))
rpc_round_trip_example =
    rpc_round_trip rfc rfc-IsRfc4648 id (span payload) client started ticket server_config env [] []
      processed answer_body began refl payload_bytes id_NoNul id_given reply_queue_given refl refl
      refl answer_bytes answer_encoded refl

abbrev calls : List Event
calls = starts ∷ asks ∷ []

run-IsSound_example : IsSound (run new_server calls)
run-IsSound_example = run-IsSound new_server calls new_server-IsSound

asked : (run new_server calls).asked ≡ true
unfolding run step
asked = refl

stop_returns_example :
    (run (run new_server calls) (sets_up (ok tt) ∷ checks ∷ leaves ∷ [])).running ≡ false
stop_returns_example =
    stop_returns (run new_server calls) (ok tt) (run-IsSound new_server calls new_server-IsSound)
      asked

abbrev marked : Bytes
marked = 255 ∷ 1 ∷ []

gateway_reply_reported_example :
    let r = send_command [] granted granted false false (some (sent (λ _. ok marked) payload)) in
    ((not_marked marked ≡ true) × (r.0 ≡ transport_plugin_ok) × (read_output r.1 ≡ some marked))
    ⊎ ((rest : Bytes) × (marked ≡ 255 ∷ rest)
        × (r.0 ≡ transport_plugin_error)
        × (read_output r.1 ≡ some (c_str rest)))
gateway_reply_reported_example =
    gateway_reply_reported (λ _. ok marked) payload [] marked refl (omega arith)
