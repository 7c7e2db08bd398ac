-- ===== src/PubSub/Client.antt =====
-- pubsub/PubSubPlugin/PubSubClient.h and PubSubClient.cpp. What a session's operation answers is an
-- argument of the client's operations, in the order in which the code asks.
pub mod Calls
pub mod Replies
use graftcode_extensions.Base.{
  ℕ, Bool, true, false, not, ◌&&◌, ◌||◌, Option, none, some, List, [], ◌∷◌, ◌++◌, Bytes, codes,
  find, is_empty, c_str, ltb, leb, ◌==◌, if◌then◌else◌, Exception, runtime_error, invalid_argument,
  other_std, unknown, Result, ok, throw, ◌>>=◌, ◌>>◌,
}
use graftcode_extensions.PendingReplies.{
  PendingReplies, Ticket, register, complete, fail_all, close, destroy, wait, wait_for_pending,
}
use graftcode_extensions.PendingReplies
use graftcode_extensions.Sqs.Codec.{Span, span_size, is_null}
use graftcode_extensions.PubSub.Config.{
  PubSubConfig, Environment, apply_runtime_environment, validate_client_config,
}
use graftcode_extensions.PubSub.Session.{Failure, http_error, plain, Outcome, failed, gave}
use graftcode_extensions.PubSub.Session.Messages.{PulledMessage, max_payload_bytes}

abbrev pub correlation_id_attribute : Bytes
correlation_id_attribute = codes "correlationId"

abbrev pub reply_to_attribute : Bytes
reply_to_attribute = codes "replyTo"

-- `dispatching` is whether the dispatcher thread runs.
pub record PubSubClient : Type 0 where
  pub config : PubSubConfig
  pub pending : PendingReplies
  pub started : Bool
  pub dispatching : Bool
  pub stopping : Bool

unfoldable pub new_client : Environment → PubSubConfig → Result PubSubClient
new_client env config = do
  ready ← apply_runtime_environment env config
  validate_client_config ready
  ok (record {
    config = ready;
    pending = PendingReplies.initial;
    started = false;
    dispatching = false;
    stopping = false;
  })

-- The destructor, up to the join of the dispatcher.
unfoldable pub destroy_client : PubSubClient → PubSubClient
destroy_client c = record c {
  stopping = true;
  pending = close (codes "Pub/Sub client is shutting down") c.pending;
}

-- The idle sessions, the last one released first; `create` makes a session.
unfoldable pub acquire_session {ℓ} : {S : Type ℓ} → S → List S → S × List S
acquire_session create [] = (create, [])
acquire_session create (s ∷ idle) = (s, idle)

unfoldable pub release_session {ℓ} : {S : Type ℓ} → S → List S → List S
release_session s idle = s ∷ idle

pub data Creates : Type 0 where
  creates_topic : Bytes → Creates
  creates_subscription : Bytes → Bytes → Creates

-- What EnsureStarted has the service create, in order.
unfoldable pub wanted : PubSubConfig → List Creates
wanted config =
    if config.auto_create
    then creates_topic config.request_topic
      ∷ (if config.one_way
          then []
          else creates_topic config.reply_topic
            ∷ creates_subscription config.reply_subscription config.reply_topic
            ∷ [])
    else []

-- The creations up to the first that fails.
unfoldable pub create_all : (Creates → Outcome (Unit {0})) → List Creates → Outcome (Unit {0})
create_all service [] = gave tt
create_all service (x ∷ xs) =
    let rest = create_all service xs in elim (service x) [ failed e ↦ failed e | gave _ ↦ rest ]

unfoldable pub after_create : PubSubClient → Outcome (Unit {0}) → PubSubClient × Outcome (Unit {0})
after_create c (failed e) = (c, failed e)
after_create c (gave _) = (
  record c { started = true; dispatching = if c.config.one_way then c.dispatching else true },
  gave tt,
)

unfoldable pub ensure_started :
    (Creates → Outcome (Unit {0})) → PubSubClient → PubSubClient × Outcome (Unit {0})
unfolding create_all after_create wanted
ensure_started service c =
    if c.started then (c, gave tt) else after_create c (create_all service (wanted c.config))

-- The attributes in the order of the std::map.
unfoldable pub attributes_for : PubSubConfig → Bytes → List (Bytes × Bytes)
attributes_for config id =
    if config.one_way
    then (correlation_id_attribute, id) ∷ []
    else (correlation_id_attribute, id) ∷ (reply_to_attribute, config.reply_topic) ∷ []

-- What is published, and the ticket that the call holds meanwhile.
pub record Publication : Type 0 where
  pub topic : Bytes
  pub payload : Span
  pub attributes : List (Bytes × Bytes)
  pub ticket : Option Ticket

unfoldable pub publication : PubSubConfig → Bytes → Span → Option Ticket → Publication
publication config id payload ticket = record {
  topic = config.request_topic;
  payload = payload;
  attributes = attributes_for config id;
  ticket = ticket;
}

unfoldable pub with_ticket :
    PubSubClient
    → Bytes
    → Span
    → PendingReplies × Result Ticket
    → PubSubClient × Outcome Publication
with_ticket c id payload (s, ok t) =
    (record c { pending = s }, gave (publication c.config id payload (some t)))
with_ticket c id payload (s, throw e) = (record c { pending = s }, failed (plain e))

unfoldable pub prepare :
    Bytes → Span → PubSubClient × Outcome (Unit {0}) → PubSubClient × Outcome Publication
unfolding with_ticket
prepare id payload (c, failed e) = (c, failed e)
prepare id payload (c, gave _) =
    if c.config.one_way
    then (c, gave (publication c.config id payload none))
    else with_ticket c id payload (register id c.pending)

-- Call up to the first `Publish`; `id` is the fresh correlation id.
unfoldable pub begin_pubsub_call :
    (Creates → Outcome (Unit {0}))
    → Bytes
    → Span
    → PubSubClient
    → PubSubClient × Outcome Publication
unfolding prepare
begin_pubsub_call service id payload c =
    if ltb max_payload_bytes (span_size payload)
    then (
      c,
      failed (
          plain (runtime_error (codes "Pub/Sub plugin: payload exceeds the 10 MiB Pub/Sub limit"))),
    )
    else if ltb 0 (span_size payload) && is_null payload
    then (
      c,
      failed (plain (invalid_argument (codes "Pub/Sub client: null payload with non-zero length"))),
    )
    else prepare id payload (ensure_started service c)

-- The loop of `Publish`: each attempt has its outcome, and whether the clock is before the deadline
-- when it ends. A 404 before the deadline is tried again.
pub retries : Failure → Bool → Bool
retries (http_error status _) early = status == 404 && early
retries (plain _) early = false

unfoldable pub publish_loop :
    List (Outcome (Unit {0}) × Bool) → Outcome (Unit {0}) → Outcome (Unit {0})
unfolding retries
publish_loop [] last = last
publish_loop ((gave _, early) ∷ attempts) last = gave tt
publish_loop ((failed e, early) ∷ attempts) last =
    let rest = publish_loop attempts last in if retries e early then rest else failed e

-- The ticket dies where the function is left.
unfoldable pub drop_ticket : Option Ticket → PubSubClient → PubSubClient
drop_ticket none c = c
drop_ticket (some t) c = record c { pending = destroy t c.pending }

-- Call behind the loop: none is left to do for a one-way call, and a ticket to wait on else.
unfoldable pub after_publish :
    Publication → Outcome (Unit {0}) → PubSubClient → PubSubClient × Outcome (Option Ticket)
unfolding drop_ticket
after_publish p (failed e) c = (drop_ticket p.ticket c, failed e)
after_publish p (gave _) c =
    if c.config.one_way then (drop_ticket p.ticket c, gave none) else (c, gave p.ticket)

-- `to_string` gives the decimal digits of a number.
pub timed_out : (ℕ → Bytes) → PubSubConfig → Bytes → Bytes
timed_out to_string config id =
    codes "Pub/Sub RPC timed out after "
    ++ (to_string config.rpc_timeout_ms ++ (codes " ms waiting for correlation id " ++ id))

unfoldable pub reply_or_throw :
    (ℕ → Bytes) → PubSubConfig → Bytes → Result (Option Bytes) → Result Bytes
reply_or_throw to_string config id (ok (some response)) = ok response
reply_or_throw to_string config id (ok none) = throw (runtime_error (timed_out to_string config id))
reply_or_throw to_string config id (throw e) = throw e

-- The end of Call, in the state in which the wait of its ticket ends.
unfoldable pub end_call : (ℕ → Bytes) → Option Ticket → PubSubClient → PubSubClient × Result Bytes
unfolding reply_or_throw
end_call to_string none c = (c, ok [])
end_call to_string (some t) c =
    let r = wait t c.pending in
    (record c { pending = destroy t r.0 }, reply_or_throw to_string c.config t.id r.1)

-- The `what()` that the dispatcher hands to FailAll; none where it tries again without. Exceptions
-- that are no std::exception leave the thread, so the model stops at them.
unfoldable pub pull_error : Failure → Option Bytes
unfolding c_str
pull_error (http_error status message) =
    if not (status == 429) && (ltb status 500 && not (status == 0))
    then some (c_str message)
    else none
pull_error (plain (runtime_error message)) = some (c_str message)
pull_error (plain (invalid_argument message)) = some (c_str message)
pull_error (plain (other_std message)) = some (c_str message)
pull_error (plain unknown) = none

unfoldable pub complete_message : PendingReplies → PulledMessage → PendingReplies
complete_message s m = elim (find correlation_id_attribute m.attributes) [
  | none ↦ s
  | some id ↦ (complete id m.message_data s).0
]

unfoldable pub complete_batch : PendingReplies → List PulledMessage → PendingReplies
unfolding complete_message
complete_batch s [] = s
complete_batch s (m ∷ ms) = complete_batch (complete_message s m) ms

-- The ids that a batch acknowledges, before it completes anything.
unfoldable pub acknowledged : List PulledMessage → List Bytes
acknowledged [] = []
acknowledged (m ∷ ms) =
    let rest = acknowledged ms in if is_empty m.ack_id then rest else m.ack_id ∷ rest

unfoldable pub fail_if : Option Bytes → PendingReplies → PendingReplies
fail_if none s = s
fail_if (some e) s = fail_all e s

-- One round of DispatchReplies: what it acknowledges, and the client after it. While nothing is
-- pending it pulls nothing.
unfoldable pub dispatch_round :
    Outcome (List PulledMessage) → PubSubClient → List Bytes × PubSubClient
unfolding pull_error complete_batch acknowledged fail_if
dispatch_round pulled c =
    if c.stopping || not (wait_for_pending c.pending) then ([], c) else elim pulled [
      | failed e ↦ ([], record c { pending = fail_if (pull_error e) c.pending })
      | gave batch ↦ (acknowledged batch, record c { pending = complete_batch c.pending batch })
    ]
