-- ===== src/Sqs/Client.antt =====
-- sqs/SqsPlugin/SqsClient.h and SqsClient.cpp. What AWS answers is an argument: none for success,
-- or the error. The dispatcher thread is EnsureDispatcher's; its rounds are `dispatch_round`.
pub mod Calls
pub mod Dispatch
pub mod Rounds
use graftcode_extensions.Base.{
  c_str, ℕ, Bool, true, false, not, ◌&&◌, ◌||◌, Option, none, some, List, [], ◌∷◌, ◌++◌, Bytes,
  codes, is_empty, ltb, if◌then◌else◌, Exception, runtime_error, invalid_argument, Result, ok,
  throw, ◌>>=◌, ◌>>◌, throw_if,
}
use graftcode_extensions.PendingReplies.{
  PendingReplies, Ticket, register, complete, fail, fail_all, close, destroy, wait,
  wait_for_pending,
}
use graftcode_extensions.PendingReplies
use graftcode_extensions.Abi.{error_text}
use graftcode_extensions.Sqs.Config.{SqsConfig, validate_client_config}
use graftcode_extensions.Sqs.Aws.{create_aws_sqs_client}
use graftcode_extensions.Sqs.Codec.{
  Base64, Span, span_size, is_null, encode_payload, decode_payload, Attributes,
  get_string_attribute, correlation_id_attribute, reply_to_attribute, SendRequest,
  configure_fifo_message,
}

-- `started` is whether the dispatcher thread runs.
pub record SqsClient : Type 0 where
  pub config : SqsConfig
  pub pending : PendingReplies
  pub started : Bool
  pub stopping : Bool

pub record AwsFailure : Type 0 where
  pub exception_name : Bytes
  pub message : Bytes

-- Its `what()`; the SDK's strings pass through `c_str()`.
unfoldable pub aws_error : Bytes → AwsFailure → Bytes
unfolding c_str
aws_error operation e =
    codes "SQS "
    ++ (operation
        ++ (codes " failed: " ++ (c_str e.exception_name ++ (codes " - " ++ c_str e.message))))

unfoldable pub new_client : SqsConfig → Result SqsClient
new_client config = do
  validate_client_config config
  aws ← create_aws_sqs_client config
  ok (record {
    config = config;
    pending = PendingReplies.initial;
    started = false;
    stopping = false;
  })

-- The destructor, up to the join of the dispatcher.
unfoldable pub destroy_client : SqsClient → SqsClient
destroy_client c = record c {
  stopping = true;
  pending = close (codes "SQS client is shutting down") c.pending;
}

unfoldable pub ensure_dispatcher : SqsClient → SqsClient
ensure_dispatcher c = if c.started then c else record c { started = true }

-- `send` as Call fills it, before the FIFO fields.
unfoldable pub request_of : SqsConfig → Bytes → Bytes → SendRequest
request_of config id body = record {
  queue_url = c_str config.request_queue_url;
  body = body;
  attributes =
      if config.one_way
      then (correlation_id_attribute, c_str id) ∷ []
      else (correlation_id_attribute, c_str id)
        ∷ (reply_to_attribute, c_str config.reply_queue_url)
        ∷ [];
  group_id = none;
  deduplication_id = none;
}

unfoldable pub send_request : SqsConfig → Bytes → Bytes → SendRequest
send_request config id body =
    configure_fifo_message (request_of config id body) config.request_queue_url
      config.message_group_id id

-- The ticket dies where the function is left.
unfoldable pub drop_ticket : Option Ticket → SqsClient → SqsClient
drop_ticket none c = c
drop_ticket (some t) c = record c { pending = destroy t c.pending }

pub hold : SqsClient → PendingReplies → Result Ticket → SqsClient × Result (Option Ticket)
hold c s (ok t) = (record c { pending = s }, ok (some t))
hold c s (throw e) = (record c { pending = s }, throw e)

-- The first part of Call: the ticket, if the call waits for a reply.
unfoldable pub take_ticket : Bytes → SqsClient → SqsClient × Result (Option Ticket)
unfolding hold
take_ticket id c =
    if c.config.one_way
    then (c, ok none)
    else let r = register id c.pending in hold (ensure_dispatcher c) r.0 r.1

-- What Call sends, and the ticket that it holds meanwhile.
pub record Started : Type 0 where
  pub request : SendRequest
  pub ticket : Option Ticket

pub after_encode : SqsClient → Bytes → Option Ticket → Result Bytes → SqsClient × Result Started
after_encode c id ticket (throw e) = (drop_ticket ticket c, throw e)
after_encode c id ticket (ok body) =
    (c, ok (record { request = send_request c.config id body; ticket = ticket }))

module _ (base64 : Base64) where
  pub build_request : SqsClient → Bytes → Span → Option Ticket → SqsClient × Result Started
  unfolding after_encode
  build_request c id payload ticket = after_encode c id ticket (encode_payload base64 payload)

  pub continue_call : Bytes → Span → SqsClient → Result (Option Ticket) → SqsClient × Result Started
  continue_call id payload c (throw e) = (c, throw e)
  continue_call id payload c (ok ticket) = build_request c id payload ticket

  -- Call up to `SendMessage`; `id` is the fresh correlation id.
  unfoldable pub begin_call : Bytes → Span → SqsClient → SqsClient × Result Started
  unfolding build_request continue_call
  begin_call id payload c =
      if ltb 0 (span_size payload) && is_null payload
      then (c, throw (invalid_argument (codes "SQS client: null payload with non-zero length")))
      else let r = take_ticket id c in continue_call id payload r.0 r.1

-- Call behind `SendMessage`: none is left to do for a one-way call, and a ticket to wait on else.
unfoldable pub after_send :
    Option AwsFailure → Started → SqsClient → SqsClient × Result (Option Ticket)
after_send (some e) s c =
    (drop_ticket s.ticket c, throw (runtime_error (aws_error (codes "SendMessage") e)))
after_send none s c =
    if c.config.one_way then (drop_ticket s.ticket c, ok none) else (c, ok s.ticket)

-- `to_string` gives the decimal digits of a number.
pub timed_out : (ℕ → Bytes) → SqsConfig → Bytes → Bytes
timed_out to_string config id =
    codes "SQS RPC timed out after "
    ++ (to_string config.rpc_timeout_ms ++ (codes " ms waiting for correlation id " ++ id))

pub reply_or_throw : (ℕ → Bytes) → SqsConfig → Bytes → Result (Option Bytes) → Result Bytes
reply_or_throw to_string config id (ok (some response)) = ok response
reply_or_throw to_string config id (ok none) = throw (runtime_error (timed_out to_string config id))
reply_or_throw to_string config id (throw e) = throw e

-- The end of Call, in the state in which the wait of its ticket ends.
unfoldable pub end_call : (ℕ → Bytes) → Option Ticket → SqsClient → SqsClient × Result Bytes
unfolding reply_or_throw
end_call to_string none c = (c, ok [])
end_call to_string (some t) c =
    let r = wait t c.pending in
    (record c { pending = destroy t r.0 }, reply_or_throw to_string c.config t.id r.1)

-- A message of the reply queue.
pub record Message : Type 0 where
  pub body : Bytes
  pub attributes : Attributes
  pub receipt_handle : Bytes

-- What a ReceiveMessage call gives: an error, or messages.
pub data Received : Type 0 where
  receive_failed : AwsFailure → Received
  messages : List (Message × Option AwsFailure) → Received

-- The end of a round for one message whose removal succeeded.
pub finish_reply : Bytes → Result Bytes → PendingReplies → PendingReplies
finish_reply id (ok payload) s = (complete id payload s).0
finish_reply id (throw e) s = (fail id (error_text e) s).0

module _ (base64 : Base64) where
  -- One message of a batch, with what AWS answers to its removal.
  unfoldable pub dispatch_message : PendingReplies → Message × Option AwsFailure → PendingReplies
  unfolding finish_reply
  dispatch_message s (m, some e) =
      let id = get_string_attribute m.attributes correlation_id_attribute in
      (fail id (aws_error (codes "DeleteMessage") e) s).0
  dispatch_message s (m, none) =
      let id = get_string_attribute m.attributes correlation_id_attribute in
      finish_reply id (decode_payload base64 m.body) s

  unfoldable pub dispatch_batch :
      PendingReplies → List (Message × Option AwsFailure) → PendingReplies
  dispatch_batch s [] = s
  dispatch_batch s (m ∷ ms) = dispatch_batch (dispatch_message s m) ms

  -- One round of DispatchReplies. While nothing is pending it receives nothing.
  unfoldable pub dispatch_round : Received → SqsClient → SqsClient
  dispatch_round received c =
      if c.stopping || not (wait_for_pending c.pending) then c else elim received [
        | receive_failed e ↦ record c {
          pending = fail_all (aws_error (codes "ReceiveMessage") e) c.pending;
        }
        | messages ms ↦ record c { pending = dispatch_batch c.pending ms }
      ]
