-- ===== src/RabbitMq/Client.antt =====
-- RabbitMqRpcClient of rabbitmq/RabbitmqPlugin/RabbitMqClient.cpp: the link, its I/O thread and the
-- calls. What the broker, AMQP-CPP and the socket answer are arguments.
pub mod Calls
pub mod Disconnects
use graftcode_extensions.Base.{
  ℕ, Bool, true, false, not, ◌&&◌, ◌||◌, Option, none, some, List, [], ◌∷◌, ◌++◌, Bytes, codes,
  is_empty, ltb, ◌==◌, if◌then◌else◌, Exception, runtime_error, invalid_argument, Result, ok, throw,
}
use graftcode_extensions.PendingReplies.{
  PendingReplies, Ticket, register, complete, fail_all, close, destroy, wait,
}
use graftcode_extensions.PendingReplies
use graftcode_extensions.Sqs.Codec.{Span, span_size, span_bytes, is_null}
use graftcode_extensions.RabbitMq.Config.{RabbitMqClientConfig}
use graftcode_extensions.RabbitMq.Stream.{Parser, Stream, receive_chunk}

-- One connection with its private reply queue.
pub record Link : Type 0 where
  pub queue : Bytes
  pub reply_queue : Bytes
  pub broken : Bool
  pub broken_error : Bytes

pub record RabbitMqRpcClient : Type 0 where
  pub config : RabbitMqClientConfig
  pub pending : PendingReplies
  pub link : Option Link

unfoldable pub new_client : RabbitMqClientConfig → RabbitMqRpcClient
new_client config = record { config = config; pending = PendingReplies.initial; link = none }

unfoldable pub destroy_client : RabbitMqRpcClient → RabbitMqRpcClient
destroy_client c = record c {
  pending = close (codes "RabbitMQ client is shutting down") c.pending;
  link = none;
}

-- How the constructor of a link ends: with the name of its reply queue once the consumer is ready,
-- with no socket, with an error that disconnected it meanwhile, or at the deadline.
pub data Attempt : Type 0 where
  consumer_ready : Bytes → Attempt
  unreachable : Attempt
  disconnected : Bytes → Attempt
  late : Attempt

-- `BrokenError`.
unfoldable pub error_or_default : Bytes → Bytes
error_or_default error =
    if is_empty error then codes "RabbitMQ: connection is not available" else error

-- `to_string` gives the decimal digits of a number.
unfoldable pub new_link :
    (ℕ → Bytes) → RabbitMqRpcClient → Attempt → RabbitMqRpcClient × Result Link
unfolding error_or_default
new_link to_string c (consumer_ready name) =
    let link : Link = record {
      queue = c.config.queue;
      reply_queue = name;
      broken = false;
      broken_error = [];
    } in
    (record c { link = some link }, ok link)
new_link to_string c unreachable = (
  record c { link = none },
  throw (
      runtime_error (
        codes "RabbitMQ: cannot connect to "
        ++ (c.config.host ++ (codes ":" ++ to_string c.config.port)))),
)
new_link to_string c (disconnected error) = (
  record c { link = none; pending = fail_all error c.pending },
  throw (runtime_error (error_or_default error)),
)
new_link to_string c late = (
  record c { link = none },
  throw (runtime_error (codes "RabbitMQ: timed out waiting for the reply consumer")),
)

unfoldable pub current_link :
    (ℕ → Bytes) → RabbitMqRpcClient → Attempt → Option Link → RabbitMqRpcClient × Result Link
unfolding new_link
current_link to_string c attempt none = new_link to_string c attempt
current_link to_string c attempt (some link) =
    if link.broken then new_link to_string c attempt else (c, ok link)

pub record Envelope : Type 0 where
  pub routing_key : Bytes
  pub body : Bytes
  pub reply_to : Bytes
  pub correlation_id : Bytes

-- Publish; `is_broken` is the flag when the call holds the mutex, `accepted` what AMQP-CPP answers.
unfoldable pub publish : Link → Bool → Bool → Bytes → Bytes → Result Envelope
unfolding error_or_default
publish link is_broken accepted id payload =
    if is_broken
    then throw (runtime_error (error_or_default link.broken_error))
    else if not accepted
    then throw (runtime_error (codes "RabbitMQ: failed to publish request to queue " ++ link.queue))
    else ok (record {
      routing_key = link.queue;
      body = payload;
      reply_to = link.reply_queue;
      correlation_id = id;
    })

-- Behind `Publish`: the ticket dies where it threw.
unfoldable pub published :
    RabbitMqRpcClient → Ticket → Result Envelope → RabbitMqRpcClient × Result (Envelope × Ticket)
published c t (throw e) = (record c { pending = destroy t c.pending }, throw e)
published c t (ok envelope) = (c, ok (envelope, t))

-- What a call meets on the way: how a link is made, whether it is broken when it publishes, and
-- what AMQP-CPP answers.
pub record Meets : Type 0 where
  pub attempt : Attempt
  pub is_broken : Bool
  pub accepted : Bool

unfoldable pub with_ticket :
    Meets
    → Bytes
    → Bytes
    → Link
    → RabbitMqRpcClient
    → PendingReplies × Result Ticket
    → RabbitMqRpcClient × Result (Envelope × Ticket)
unfolding published
with_ticket meets id payload link c (s, throw e) = (record c { pending = s }, throw e)
with_ticket meets id payload link c (s, ok t) =
    published (record c { pending = s }) t (publish link meets.is_broken meets.accepted id payload)

unfoldable pub with_link :
    Meets
    → Bytes
    → Bytes
    → RabbitMqRpcClient × Result Link
    → RabbitMqRpcClient × Result (Envelope × Ticket)
unfolding with_ticket
with_link meets id payload (c, throw e) = (c, throw e)
with_link meets id payload (c, ok link) =
    with_ticket meets id payload link c (register id c.pending)

-- Call up to its wait; `id` is the fresh correlation id.
unfoldable pub begin_rabbit_call :
    (ℕ → Bytes)
    → Meets
    → Bytes
    → Span
    → RabbitMqRpcClient
    → RabbitMqRpcClient × Result (Envelope × Ticket)
unfolding with_link
begin_rabbit_call to_string meets id payload c =
    if is_empty c.config.queue
    then (c, throw (runtime_error (codes "RabbitMQ queue is not configured")))
    else if ltb 0 (span_size payload) && is_null payload
    then (c, throw (invalid_argument (codes "RabbitMQ client: null payload with non-zero length")))
    else with_link meets id (span_bytes payload) (current_link to_string c meets.attempt c.link)

unfoldable pub timeout_of : RabbitMqClientConfig → ℕ
timeout_of config = if config.rpc_timeout_ms == 0 then 30000 else config.rpc_timeout_ms

pub timed_out : (ℕ → Bytes) → RabbitMqClientConfig → Bytes → Bytes
unfolding timeout_of
timed_out to_string config id =
    codes "RabbitMQ RPC timed out after "
    ++ (to_string (timeout_of config) ++ (codes " ms waiting for correlation id " ++ id))

unfoldable pub reply_or_throw :
    (ℕ → Bytes) → RabbitMqClientConfig → Bytes → Result (Option Bytes) → Result Bytes
unfolding timed_out
reply_or_throw to_string config id (ok (some response)) = ok response
reply_or_throw to_string config id (ok none) = throw (runtime_error (timed_out to_string config id))
reply_or_throw to_string config id (throw e) = throw e

-- The end of Call, in the state in which the wait of its ticket ends.
unfoldable pub end_call :
    (ℕ → Bytes) → Bytes → Ticket → RabbitMqRpcClient → RabbitMqRpcClient × Result Bytes
unfolding reply_or_throw
end_call to_string id t c =
    let r = wait t c.pending in
    (record c { pending = destroy t r.0 }, reply_or_throw to_string c.config id r.1)

-- A message of the reply queue; none where it has no correlation id.
pub record Reply : Type 0 where
  pub tag : ℕ
  pub correlation_id : Option Bytes
  pub body : Bytes

-- `onReceived`: the tag that it acknowledges, and the requests after it.
unfoldable pub on_received : PendingReplies → Reply → ℕ × PendingReplies
on_received s r = (r.tag, elim r.correlation_id [ none ↦ s | some id ↦ (complete id r.body s).0 ])

-- All that the reply queue delivers: what is acknowledged, in order, and the requests after it.
unfoldable pub receive_all : PendingReplies → List Reply → List ℕ × PendingReplies
unfolding on_received
receive_all s [] = ([], s)
receive_all s (r ∷ rs) =
    let first = on_received s r in let rest = receive_all first.1 rs in (first.0 ∷ rest.0, rest.1)

-- The first error stays; every waiting request fails with the one at hand.
unfoldable pub mark_broken : Bytes → Link → Link
mark_broken error link = record link {
  broken = true;
  broken_error = if is_empty link.broken_error then error else link.broken_error;
}

unfoldable pub disconnect : Bytes → RabbitMqRpcClient → Link → RabbitMqRpcClient × Link
unfolding mark_broken
disconnect error c link = (record c { pending = fail_all error c.pending }, mark_broken error link)

-- What one round of Run meets: the flags that the connection handler sets, how the wait for the
-- socket ends, and what `recv` gives.
pub data Io : Type 0 where
  connection_flagged : Io
  wait_timeout : Io
  wait_error : Io
  closed_by_broker : Io
  would_block : Io
  read_failed : Io
  chunk : Bytes → Io

-- A round of Run: the stream that it goes on with, or the error that it disconnects with.
unfoldable pub run_round : Parser → Stream → Io → Stream × Option Bytes
run_round parse s connection_flagged = (s, some (codes "RabbitMQ: connection lost"))
run_round parse s wait_timeout = (s, none)
run_round parse s wait_error = (s, some (codes "RabbitMQ: socket error"))
run_round parse s closed_by_broker = (s, some (codes "RabbitMQ: connection closed by broker"))
run_round parse s would_block = (s, none)
run_round parse s read_failed = (s, some (codes "RabbitMQ: socket read failed"))
run_round parse s (chunk bytes) = (receive_chunk parse s bytes, none)
