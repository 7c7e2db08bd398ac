-- ===== src/RabbitMq/Server.antt =====
-- rabbitmq/RabbitmqPlugin/RabbitMqServer.cpp: what the consumer does with a delivery, and its sockets.
-- The Gateway's callback and AMQP-CPP's answers are arguments.
pub mod Deliveries
use graftcode_extensions.Base.{
  ℕ, Bool, true, false, not, ◌&&◌, ◌||◌, Option, none, some, List, [], ◌∷◌, ◌++◌, Bytes, codes,
  is_empty, c_str, ◌==◌, if◌then◌else◌, Exception, runtime_error, invalid_argument, other_std,
  unknown, Result, ok, throw, ◌>>=◌, ◌>>◌, throw_if,
}
use graftcode_extensions.Json.{JsonLibrary}
use graftcode_extensions.Sqs.Server.{Processed, write_all}
use graftcode_extensions.RabbitMq.Address.{RabbitMqServerConfig, apply_config_from_json}

-- A delivery; none of the two where the message has no such property.
pub record Delivery : Type 0 where
  pub tag : ℕ
  pub body : Bytes
  pub reply_to : Option Bytes
  pub correlation_id : Option Bytes

pub record Response : Type 0 where
  pub routing_key : Bytes
  pub body : Bytes
  pub correlation_id : Option Bytes

-- `publishes` carries what AMQP-CPP answers.
pub data Effect : Type 0 where
  publishes : Response → Bool → Effect
  acks : ℕ → Effect
  requeues : ℕ → Effect

-- The callback at the time, and what AMQP-CPP answers to the publication.
pub record Surroundings : Type 0 where
  pub process : Option (Bytes → Result Processed)
  pub accepted : Bool

unfoldable pub reply_queue : Delivery → Option Bytes
reply_queue m = elim m.reply_to [ none ↦ none | some q ↦ if is_empty q then none else some q ]

unfoldable pub response_for : Delivery → Bytes → Bytes → Response
response_for m queue response = record {
  routing_key = queue;
  body = response;
  correlation_id = m.correlation_id;
}

abbrev pub not_published : Bytes → Exception
not_published queue =
    runtime_error
      (codes "RabbitMQ consumer: failed to publish response to reply_to queue: " ++ queue)

abbrev pub callback_failed : Exception
callback_failed =
    runtime_error (codes "RabbitMQ consumer: processMessage callback returned failure")

abbrev pub not_configured : Exception
not_configured =
    runtime_error (codes "RabbitMQ consumer: processMessage callback is not configured")

-- publishResponseIfRequested: its effects, and what it returns or throws.
unfoldable pub publish_to : Delivery → Bool → Bytes → Option Bytes → List Effect × Result Bool
unfolding response_for
publish_to m accepted response none = ([], ok true)
publish_to m accepted response (some queue) =
    if not accepted
    then (publishes (response_for m queue response) false ∷ [], throw (not_published queue))
    else (publishes (response_for m queue response) true ∷ [], ok true)

-- Behind the publication.
unfoldable pub settle : Delivery → List Effect × Result Bool → List Effect × Result (Unit {0})
settle m (effects, throw e) = (effects, throw e)
settle m (effects, ok true) = (effects ++ acks m.tag ∷ [], ok tt)
settle m (effects, ok false) = (effects ++ requeues m.tag ∷ [], ok tt)

unfoldable pub after_process : Delivery → Bool → Result Processed → List Effect × Result (Unit {0})
unfolding settle publish_to reply_queue
after_process m accepted (throw e) = ([], throw e)
after_process m accepted (ok p) =
    if not p.accepted
    then ([], throw callback_failed)
    else settle m (publish_to m accepted (write_all [] p.writes) (reply_queue m))

-- The body of the `try`.
unfoldable pub try_delivery :
    Delivery → Bool → Option (Bytes → Result Processed) → List Effect × Result (Unit {0})
unfolding after_process
try_delivery m accepted none = ([], throw not_configured)
try_delivery m accepted (some process) = after_process m accepted (process m.body)

-- What the handlers throw in place of an exception, with its `what()`; the `reject` behind each is not reached.
unfoldable pub rethrown : Exception → Exception
unfolding c_str
rethrown (runtime_error what) =
    runtime_error (codes "RabbitMQ consumer: processing failed: " ++ c_str what)
rethrown (invalid_argument what) =
    runtime_error (codes "RabbitMQ consumer: processing failed: " ++ c_str what)
rethrown (other_std what) =
    runtime_error (codes "RabbitMQ consumer: processing failed: " ++ c_str what)
rethrown unknown = runtime_error (codes "RabbitMQ consumer: processing failed with unknown error")

unfoldable pub caught : List Effect × Result (Unit {0}) → List Effect × Result (Unit {0})
unfolding rethrown
caught (effects, throw e) = (effects, throw (rethrown e))
caught (effects, ok u) = (effects, ok u)

unfoldable pub on_delivery : Surroundings → Delivery → List Effect × Result (Unit {0})
unfolding caught try_delivery
on_delivery env m =
    if is_empty m.body
    then (acks m.tag ∷ [], ok tt)
    else caught (try_delivery m env.accepted env.process)

-- The deliveries of one connection, in order: the first that throws ends it.
unfoldable pub connection_run : List (Surroundings × Delivery) → List Effect × Result (Unit {0})
unfolding on_delivery
connection_run [] = ([], ok tt)
connection_run ((env, m) ∷ deliveries) =
    let rest = connection_run deliveries in
    let r = on_delivery env m in elim r.1 [ throw e ↦ r | ok _ ↦ (r.0 ++ rest.0, rest.1) ]

-- The globals of the consumer; none is kInvalidSocket.
pub record Globals : Type 0 where
  pub config : RabbitMqServerConfig
  pub process_set : Bool
  pub stop_requested : Bool
  pub active_socket : Option ℕ
  pub closed_sockets : List ℕ

unfoldable pub configure : JsonLibrary → Option Bytes → Bool → Globals → Globals × Result (Unit {0})
configure json source has_callback g =
    if not has_callback
    then (g, throw (runtime_error (codes "RabbitMQ consumer: processMessage callback is required")))
    else elim (apply_config_from_json json (text source)) [
      | throw e ↦ (g, throw e)
      | ok config ↦ (record g { config = config; process_set = true }, ok tt)
    ]
  where
    text : Option Bytes → Bytes
    text none = []
    text (some s) = s

unfoldable pub set_active_socket : ℕ → Globals → Globals
set_active_socket socket g = record g { active_socket = some socket }

unfoldable pub same_socket : Option ℕ → ℕ → Bool
same_socket none socket = false
same_socket (some active) socket = active == socket

unfoldable pub clear_active_socket : ℕ → Globals → Globals
unfolding same_socket
clear_active_socket socket g =
    if same_socket g.active_socket socket then record g { active_socket = none } else g

unfoldable pub close_socket : ℕ → Globals → Globals
close_socket socket g = record g { closed_sockets = socket ∷ g.closed_sockets }

unfoldable pub close_active_socket : Globals → Globals
unfolding close_socket
close_active_socket g = elim g.active_socket [
  | none ↦ g
  | some socket ↦ record (close_socket socket g) { active_socket = none }
]

unfoldable pub stop : Globals → Globals
unfolding close_active_socket
stop g = close_active_socket (record g { stop_requested = true })
