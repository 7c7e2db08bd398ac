-- ===== src/ServiceBus/Client.antt =====
-- ServiceBusRpcClient of servicebus/ServiceBusPlugin/ServiceBusClient.cpp: the link, its dispatcher and
-- the calls. What the Azure SDK answers is an argument.
pub mod Calls
pub mod Replies
use graftcode_extensions.Base.{
  ℕ, Bool, true, false, not, ◌&&◌, ◌||◌, Option, none, some, List, [], ◌∷◌, ◌++◌, Bytes, codes,
  is_empty, ltb, ◌==◌, if◌then◌else◌, Exception, runtime_error, invalid_argument, Result, ok, throw,
}
use graftcode_extensions.PendingReplies.{
  PendingReplies, Ticket, register, complete, fail_all, close, destroy, wait,
}
use graftcode_extensions.PendingReplies
use graftcode_extensions.Sqs.Codec.{Span, span_size, span_bytes, is_null}
use graftcode_extensions.ServiceBus.Config.{ServiceBusClientConfig, build_connection_string}
use graftcode_extensions.ServiceBus.Amqp.{
  AmqpValue, null, string, MessageBody, binary, AmqpMessage, extract_message_body, string_value,
}

-- `link` is whether there is one, and then whether it is broken; `dispatching` whether the thread of
-- the newest link runs.
pub record ServiceBusRpcClient : Type 0 where
  pub config : ServiceBusClientConfig
  pub reply_session_id : Bytes
  pub pending : PendingReplies
  pub link : Option Bool
  pub dispatching : Bool

-- `session` is the id that BuildCorrelationId gives.
unfoldable pub new_client : Bytes → ServiceBusClientConfig → ServiceBusRpcClient
new_client session config = record {
  config = config;
  reply_session_id = session;
  pending = PendingReplies.initial;
  link = none;
  dispatching = false;
}

unfoldable pub destroy_client : ServiceBusRpcClient → ServiceBusRpcClient
destroy_client c = record c {
  pending = close (codes "Service Bus client is shutting down") c.pending;
  link = none;
  dispatching = false;
}

unfoldable pub is_one_way : ServiceBusClientConfig → Bool
is_one_way config = not (is_empty config.topic)

-- The link's constructor; `opened` is whether the sender could be opened.
unfoldable pub new_link : ServiceBusRpcClient → Bool → ServiceBusRpcClient × Result (Unit {0})
unfolding is_one_way
new_link c opened =
    if is_empty (build_connection_string c.config)
    then (
      record c { link = none; dispatching = false },
      throw (runtime_error (codes "Service Bus connection string is not configured")),
    )
    else if not (is_one_way c.config) && (is_empty c.config.queue || is_empty c.config.reply_queue)
    then (
      record c { link = none; dispatching = false },
      throw (runtime_error (codes "Service Bus queue and replyQueue must be configured")),
    )
    else if not opened
    then (
      record c { link = none; dispatching = false },
      throw (runtime_error (codes "failed to open Service Bus sender")),
    )
    else (record c { link = some false; dispatching = not (is_one_way c.config) }, ok tt)

unfoldable pub current_link :
    ServiceBusRpcClient → Bool → Option Bool → ServiceBusRpcClient × Result (Unit {0})
unfolding new_link
current_link c opened none = new_link c opened
current_link c opened (some broken) = if broken then new_link c opened else (c, ok tt)

-- The message of a call; its correlation id is its message id.
unfoldable pub request_message : ServiceBusRpcClient → Bytes → Bytes → AmqpMessage
unfolding is_one_way
request_message c id payload = record {
  body = binary (payload ∷ []);
  message_id = string id;
  correlation_id = null;
  reply_to = if is_one_way c.config then null else string c.config.reply_queue;
  reply_to_group_id = if is_one_way c.config then none else some c.reply_session_id;
  group_id = none;
  reply_to_session_id = none;
}

-- What a call meets: whether a sender can be opened, and whether the message is sent.
pub record Meets : Type 0 where
  pub opened : Bool
  pub accepted : Bool

-- Send; a failure marks the link, which the next call replaces.
unfoldable pub send : ServiceBusRpcClient → Bool → ServiceBusRpcClient × Result (Unit {0})
send c accepted =
    if not accepted
    then (
      record c { link = some true },
      throw (runtime_error (codes "failed to send Service Bus message")),
    )
    else (c, ok tt)

-- The message that was sent, and the ticket to wait on; none for a one-way call.
unfoldable pub sent_with :
    Ticket
    → AmqpMessage
    → ServiceBusRpcClient × Result (Unit {0})
    → ServiceBusRpcClient × Result (AmqpMessage × Option Ticket)
sent_with t m (c, throw e) = (record c { pending = destroy t c.pending }, throw e)
sent_with t m (c, ok _) = (c, ok (m, some t))

unfoldable pub sent_one_way :
    AmqpMessage
    → ServiceBusRpcClient × Result (Unit {0})
    → ServiceBusRpcClient × Result (AmqpMessage × Option Ticket)
sent_one_way m (c, throw e) = (c, throw e)
sent_one_way m (c, ok _) = (c, ok (m, none))

unfoldable pub with_ticket :
    Meets
    → AmqpMessage
    → ServiceBusRpcClient
    → PendingReplies × Result Ticket
    → ServiceBusRpcClient × Result (AmqpMessage × Option Ticket)
unfolding sent_with send
with_ticket meets m c (s, throw e) = (record c { pending = s }, throw e)
with_ticket meets m c (s, ok t) = sent_with t m (send (record c { pending = s }) meets.accepted)

unfoldable pub with_link :
    Meets
    → Bytes
    → Bytes
    → ServiceBusRpcClient × Result (Unit {0})
    → ServiceBusRpcClient × Result (AmqpMessage × Option Ticket)
unfolding with_ticket sent_one_way send request_message is_one_way
with_link meets id payload (c, throw e) = (c, throw e)
with_link meets id payload (c, ok _) =
    if is_one_way c.config
    then sent_one_way (request_message c id payload) (send c meets.accepted)
    else with_ticket meets (request_message c id payload) c (register id c.pending)

-- Call up to its wait; `id` is the fresh correlation id.
unfoldable pub begin_service_bus_call :
    Meets
    → Bytes
    → Span
    → ServiceBusRpcClient
    → ServiceBusRpcClient × Result (AmqpMessage × Option Ticket)
unfolding with_link
begin_service_bus_call meets id payload c =
    if ltb 0 (span_size payload) && is_null payload
    then (
      c,
      throw (invalid_argument (codes "Service Bus client: null payload with non-zero length")),
    )
    else with_link meets id (span_bytes payload) (current_link c meets.opened c.link)

unfoldable pub timeout_of : ServiceBusClientConfig → ℕ
timeout_of config = if config.rpc_timeout_ms == 0 then 30000 else config.rpc_timeout_ms

-- `to_string` gives the decimal digits of a number.
pub timed_out : (ℕ → Bytes) → ServiceBusClientConfig → Bytes → Bytes
unfolding timeout_of
timed_out to_string config id =
    codes "Service Bus RPC timed out after "
    ++ (to_string (timeout_of config) ++ (codes " ms waiting for correlation id " ++ id))

unfoldable pub reply_or_throw :
    (ℕ → Bytes) → ServiceBusClientConfig → Bytes → Result (Option Bytes) → Result Bytes
unfolding timed_out
reply_or_throw to_string config id (ok (some response)) = ok response
reply_or_throw to_string config id (ok none) = throw (runtime_error (timed_out to_string config id))
reply_or_throw to_string config id (throw e) = throw e

-- The end of Call, in the state in which the wait of its ticket ends.
unfoldable pub end_call :
    (ℕ → Bytes) → Bytes → Option Ticket → ServiceBusRpcClient → ServiceBusRpcClient × Result Bytes
unfolding reply_or_throw
end_call to_string id none c = (c, ok [])
end_call to_string id (some t) c =
    let r = wait t c.pending in
    (record c { pending = destroy t r.0 }, reply_or_throw to_string c.config id r.1)

-- The id that a reply names: its correlation id, or else its message id.
unfoldable pub reply_name : AmqpMessage → AmqpValue
reply_name m = elim m.correlation_id [ null ↦ m.message_id | named ↦ named ]

-- What the dispatcher does with a reply; a name that is no string throws, which is caught.
unfoldable pub dispatch_reply : PendingReplies → AmqpMessage → PendingReplies
unfolding reply_name string_value
dispatch_reply s m = elim (string_value (reply_name m)) [
  | none ↦ s
  | some id ↦ (complete id (extract_message_body m) s).0
]

unfoldable pub dispatch_replies : PendingReplies → List AmqpMessage → PendingReplies
unfolding dispatch_reply
dispatch_replies s [] = s
dispatch_replies s (m ∷ ms) = dispatch_replies (dispatch_reply s m) ms

-- Disconnect, with which the dispatcher ends.
unfoldable pub disconnect : Bytes → ServiceBusRpcClient → ServiceBusRpcClient
disconnect error c = record c {
  link = some true;
  dispatching = false;
  pending = fail_all error c.pending;
}

-- What `WaitForIncomingMessage` gives: it is cancelled at the deadline, throws, reports an error, or
-- gives a message or none.
pub data Incoming : Type 0 where
  cancelled : Incoming
  receiver_threw : Bytes → Incoming
  receive_error : Bytes → Incoming
  no_message : Incoming
  message : AmqpMessage → Incoming

unfoldable pub dispatch_incoming : ServiceBusRpcClient → Incoming → ServiceBusRpcClient
unfolding disconnect dispatch_reply
dispatch_incoming c cancelled = c
dispatch_incoming c (receiver_threw error) =
    disconnect (codes "Service Bus reply receiver failed: " ++ error) c
dispatch_incoming c (receive_error error) =
    disconnect (codes "Service Bus reply receiver failed: " ++ error) c
dispatch_incoming c no_message = c
dispatch_incoming c (message m) = record c { pending = dispatch_reply c.pending m }
