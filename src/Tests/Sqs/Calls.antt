-- ===== src/Tests/Sqs/Calls.antt =====
-- sqs/SqsPlugin/SqsClient.cpp on concrete calls.
use graftcode_extensions.Base.{
  c_str, ◌≡◌, refl, ◌≢◌, true, false, none, some, List, [], ◌∷◌, ◌++◌, arith, Bytes, codes, find,
  bytes_eq, before_byte, ok, throw, invalid_argument,
}
use graftcode_extensions.PendingReplies.{wait_for_pending, PendingReplies, register, wait, Ticket}
use graftcode_extensions.PendingReplies
use graftcode_extensions.PendingReplies.Threads.{
  World, step, answer, fresh, Op, registers, completes, fails, closes, drops, run,
}
use graftcode_extensions.PendingReplies.Tickets.{Inv, run-Inv, fresh-Inv}
use graftcode_extensions.PendingReplies.Delivery.{session}
use graftcode_extensions.Sqs.Config.{SqsConfig, default_config}
use graftcode_extensions.Sqs.Codec.{
  span, null_span, encode_payload, decode_payload, prefix, correlation_id_attribute,
  get_string_attribute,
}
use graftcode_extensions.Sqs.Codec.RoundTrip.{decode-encode_payload}
use graftcode_extensions.Sqs.Client.{
  receive_failed, dispatch_round, Message, SqsClient, Started, AwsFailure, begin_call, take_ticket,
  send_request, end_call, ensure_dispatcher, dispatch_batch,
}
use graftcode_extensions.Sqs.Client.Calls.{call_delivered}
use graftcode_extensions.Sqs.Client.Rounds.{dispatch_round-answers}
use graftcode_extensions.Sqs.Client.Dispatch.{message_id, dispatch_batch-delivers}
use graftcode_extensions.Tests.Fixtures.{rfc, rfc-IsRfc4648}
use graftcode_extensions.PubSub.Base64.{encode_bytes, table_digit}

abbrev payload : Bytes
payload = 1 ∷ 0 ∷ 255 ∷ []

abbrev body : Bytes
body = prefix ++ encode_bytes payload

abbrev config : SqsConfig
config = record default_config { request_queue_url = b'q' ∷ []; reply_queue_url = b'r' ∷ [] }

abbrev client : SqsClient
client = record {
  config = config;
  pending = PendingReplies.initial;
  started = false;
  stopping = false;
}

abbrev id : Bytes
id = b'i' ∷ []

abbrev other : Bytes
other = b'j' ∷ []

other_ne_id : other ≢ id
other_ne_id e = ground arith

abbrev ticket : Ticket
ticket = record { owner = true; id = id; slot = 0 }

abbrev started : Started
started = record { request = send_request config id body; ticket = some ticket }

began : (begin_call rfc id (span payload) client).1 ≡ ok started
unfolding begin_call take_ticket ensure_dispatcher register find encode_payload prefix codes
    encode_bytes table_digit
began = refl

refused :
    (begin_call rfc id (null_span 3) client).1
    ≡ throw (invalid_argument (codes "SQS client: null payload with non-zero length"))
unfolding begin_call
refused = refl

abbrev failure : AwsFailure
failure = record { exception_name = b'E' ∷ []; message = b'm' ∷ [] }

abbrev before : List Op
before = registers other ∷ fails other [] ∷ drops other ∷ []

abbrev after : List Op
after = completes id [] ∷ closes [] ∷ []

call_delivered_example :
    let now = record client { pending = (run fresh (session id payload before after)).replies } in
    let r = end_call (λ n. []) (some ticket) now in
    (r.1 ≡ ok payload) × (find id r.0.pending.slots ≡ none)
call_delivered_example =
    call_delivered rfc id (span payload) (λ n. []) client fresh started ticket payload before after
      fresh-Inv refl began refl (tt, (other_ne_id, (other_ne_id, tt))) (tt, (tt, tt))

-- Message of this id and body.
abbrev reply : Bytes → Bytes → Message
reply name text = record {
  body = text;
  attributes = (correlation_id_attribute, name) ∷ [];
  receipt_handle = [];
}

reply_id : message_id (reply id body) ≡ id
unfolding get_string_attribute find bytes_eq correlation_id_attribute codes c_str before_byte
reply_id = refl

not_ours : message_id (reply other []) ≢ id
unfolding get_string_attribute find bytes_eq correlation_id_attribute codes c_str before_byte
not_ours e = ground arith

encoded : encode_payload rfc (span payload) ≡ ok body
unfolding encode_payload prefix codes encode_bytes table_digit
encoded = refl

readable : decode_payload rfc body ≡ ok payload
readable =
    (decode-encode_payload rfc rfc-IsRfc4648 (span payload)
      (omega arith, (omega arith, (omega arith, tt))) encoded).0

registered : (register id PendingReplies.initial).1 ≡ ok ticket
unfolding register find
registered = refl

dispatch_batch-delivers_example :
    (wait ticket (
      dispatch_batch rfc
        (register id PendingReplies.initial).0
        ((reply other [], none) ∷ (reply other body, some failure) ∷ (reply id body, none) ∷ []))).1
    ≡ ok (some payload)
dispatch_batch-delivers_example =
    dispatch_batch-delivers rfc fresh id payload ticket
      ((reply other [], none) ∷ (reply other body, some failure) ∷ []) [] (reply id body) fresh-Inv
      registered reply_id readable (not_ours, (not_ours, tt))

abbrev waiting_world : World
waiting_world = record { replies = (register id PendingReplies.initial).0; tickets = ticket ∷ [] }

waiting_world-Inv : Inv waiting_world
unfolding register find run step
waiting_world-Inv = run-Inv fresh (registers id ∷ []) fresh-Inv

abbrev waiting_client : SqsClient
waiting_client = record client { pending = waiting_world.replies }

waits_for_one : wait_for_pending waiting_client.pending ≡ true
unfolding wait_for_pending register find
waits_for_one = refl

dispatch_round-answers_example :
    answer id (record waiting_world {
      replies = (dispatch_round rfc (receive_failed failure) waiting_client).pending;
    })
    ≢ some (ok none)
dispatch_round-answers_example =
    dispatch_round-answers rfc waiting_client waiting_world failure id waiting_world-Inv refl refl
      waits_for_one
