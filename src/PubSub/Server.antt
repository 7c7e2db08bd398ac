-- ===== src/PubSub/Server.antt =====
-- pubsub/PubSubPlugin/PubSubServer.h and PubSubServer.cpp: what the server does with a request and
-- its life cycle. What the session answers and what the Gateway's callback does are arguments.
pub mod Escapes
pub mod Messages
use graftcode_extensions.Base.{
  ℕ, Bool, true, false, not, ◌&&◌, ◌||◌, Option, none, some, List, [], ◌∷◌, ◌++◌, Bytes, codes,
  find, is_empty, if◌then◌else◌, Exception, runtime_error, invalid_argument, other_std, unknown,
  Result, ok, throw, ◌>>=◌, ◌>>◌, throw_if,
}
use graftcode_extensions.Json.{JsonLibrary}
use graftcode_extensions.Sqs.Server.{Processed, write_all}
use graftcode_extensions.PubSub.Config.{
  PubSubConfig, Environment, is_valid_resource_id, apply_runtime_environment,
  validate_server_config,
}
use graftcode_extensions.PubSub.Config.Source.{parse_pubsub_config_source}
use graftcode_extensions.PubSub.Session.{Failure, http_error, plain, Outcome, failed, gave}
use graftcode_extensions.PubSub.Session.Messages.{PulledMessage}
use graftcode_extensions.PubSub.Client.{correlation_id_attribute, reply_to_attribute}

unfoldable pub value_or_empty : Option Bytes → Bytes
value_or_empty none = []
value_or_empty (some value) = value

unfoldable pub attribute : List (Bytes × Bytes) → Bytes → Bytes
unfolding value_or_empty
attribute attributes name = value_or_empty (find name attributes)

-- What one message has the session do, with the session's answer.
pub data Effect : Type 0 where
  publishes : Bytes → Bytes → List (Bytes × Bytes) → Outcome (Unit {0}) → Effect
  acknowledges : Bytes → List Bytes → Outcome (Unit {0}) → Effect

-- What is not the server's own in the handling of one message.
pub record Surroundings : Type 0 where
  pub process : Bytes → Result Processed
  pub published : Outcome (Unit {0})
  pub acknowledged : Outcome (Unit {0})

-- Whether `catch (const std::exception&)` catches it.
unfoldable pub is_std : Exception → Bool
is_std unknown = false
is_std _ = true

-- What stands behind a failed operation of the session: nothing, if the failure is caught.
pub after_failure : Failure → Result (Unit {0})
after_failure (http_error _ _) = ok tt
after_failure (plain e) = if is_std e then ok tt else throw e

unfoldable pub after_acknowledge : Outcome (Unit {0}) → Result (Unit {0})
unfolding after_failure
after_acknowledge (gave _) = ok tt
after_acknowledge (failed e) = after_failure e

module _ (config : PubSubConfig) where
  unfoldable pub reply_to_of : PulledMessage → Bytes
  unfolding attribute
  reply_to_of m = if config.one_way then [] else attribute m.attributes reply_to_attribute

  -- An RPC request with no correlation id or with no valid topic to reply to.
  unfoldable pub unanswerable : PulledMessage → Bool
  unfolding attribute reply_to_of
  unanswerable m =
      not config.one_way
      && (is_empty (attribute m.attributes correlation_id_attribute)
          || not (is_valid_resource_id (reply_to_of m)))

module _ (config : PubSubConfig) (env : Surroundings) where
  unfoldable pub acknowledge_request : PulledMessage → List Effect × Result (Unit {0})
  acknowledge_request m = if is_empty m.ack_id then ([], ok tt) else (
    acknowledges config.request_subscription (m.ack_id ∷ []) env.acknowledged ∷ [],
    after_acknowledge env.acknowledged,
  )

  -- Behind `Publish`: the request is acknowledged unless the publication failed.
  unfoldable pub after_reply :
      PulledMessage → Effect → Outcome (Unit {0}) → List Effect × Result (Unit {0})
  unfolding after_failure acknowledge_request
  after_reply m reply (failed e) = (reply ∷ [], after_failure e)
  after_reply m reply (gave _) = let r = acknowledge_request m in (reply ∷ r.0, r.1)

  unfoldable pub reply_and_acknowledge : PulledMessage → Bytes → List Effect × Result (Unit {0})
  unfolding after_reply reply_to_of attribute
  reply_and_acknowledge m response =
      if not (is_empty (reply_to_of config m))
      then after_reply m
          (publishes (reply_to_of config m) response
            ((correlation_id_attribute, attribute m.attributes correlation_id_attribute) ∷ [])
            env.published)
          env.published
      else acknowledge_request m

  unfoldable pub after_process : PulledMessage → Result Processed → List Effect × Result (Unit {0})
  unfolding reply_and_acknowledge is_std
  after_process m (throw e) = ([], if is_std e then ok tt else throw e)
  after_process m (ok p) =
      if not p.accepted then ([], ok tt) else reply_and_acknowledge m (write_all [] p.writes)

  unfoldable pub handle_pubsub_message : PulledMessage → List Effect × Result (Unit {0})
  unfolding unanswerable after_process
  handle_pubsub_message m =
      if unanswerable config m then ([], ok tt) else after_process m (env.process m.message_data)

-- One round of the receiving loop: each message of a batch with its surroundings, and whether stop
-- was requested before it. What is no std::exception ends the server.
unfoldable pub receive_batch :
    PubSubConfig → List (Bool × PulledMessage × Surroundings) → List Effect × Result (Unit {0})
unfolding handle_pubsub_message
receive_batch config [] = ([], ok tt)
receive_batch config ((stopped, m, env) ∷ batch) =
    let rest = receive_batch config batch in
    let r = handle_pubsub_message config env m in
    if stopped then ([], ok tt) else elim r.1 [ throw e ↦ r | ok _ ↦ (r.0 ++ rest.0, rest.1) ]

-- `configured` is whether `configure` has set a callback.
pub record PubSubServer : Type 0 where
  pub config : Option PubSubConfig
  pub configured : Bool
  pub running : Bool
  pub stop_requested : Bool

unfoldable pub configure :
    JsonLibrary
    → (Bytes → Option Bytes)
    → Environment
    → Option Bytes
    → Bool
    → PubSubServer
    → PubSubServer × Result (Unit {0})
unfolding value_or_empty
configure json read_file env source has_callback s = elim (ready (value_or_empty source)) [
  | throw e ↦ (s, throw e)
  | ok config ↦
      if s.running
      then (s, throw (runtime_error (codes "Pub/Sub server: cannot configure while running")))
      else (record s { config = some config; configured = true }, ok tt)
]
  where
    ready : Bytes → Result PubSubConfig
    ready text = do
      throw_if (not has_callback)
          (runtime_error (codes "Pub/Sub server: processMessage callback is required"))
      parsed ← parse_pubsub_config_source json read_file text
      config ← apply_runtime_environment env parsed
      validate_server_config config
      ok config
