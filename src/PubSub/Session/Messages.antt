-- ===== src/PubSub/Session/Messages.antt =====
-- The operations of a session of pubsub/PubSubPlugin/PubSubUtil.cpp on topics and subscriptions.
use graftcode_extensions.Base.{
  ℕ, Bool, true, ◌&&◌, ◌||◌, Option, none, some, List, [], ◌∷◌, ◌++◌, Bytes, codes, is_empty, find,
  find_in, ltb, leb, ◌==◌, if◌then◌else◌, runtime_error, Result, ok, ◌>>=◌,
}
use graftcode_extensions.Json.{View, JsonLibrary, array, members, is_object}
use graftcode_extensions.Json.Read.{string_of, string_at, view_at, value_or}
use graftcode_extensions.Json.Value.{
  Value, Values, Fields, text, number, flag, items, fields, field, texts, text_fields,
}
use graftcode_extensions.Sqs.Codec.{Span, span_size}
use graftcode_extensions.PubSub.Base64.{base64_encode, base64_decode}
use graftcode_extensions.PubSub.Config.{PubSubConfig}
use graftcode_extensions.PubSub.Session.{
  plain, Outcome, failed, gave, from_result, PubSubSession, Net, HttpResult, resource_url,
  throw_if_http_failed, then_do,
}
use graftcode_extensions.PubSub.Session.Token.{TokenValues, send_authorized}

pub record PulledMessage : Type 0 where
  pub ack_id : Bytes
  pub message_data : Bytes
  pub attributes : List (Bytes × Bytes)

abbrev pub max_payload_bytes : ℕ
max_payload_bytes = 10485760

unfoldable pub topic_name : PubSubConfig → Bytes → Bytes
topic_name config topic = codes "projects/" ++ (config.project_id ++ (codes "/topics/" ++ topic))

unfoldable pub subscription_name : PubSubConfig → Bytes → Bytes
subscription_name config subscription =
    codes "projects/" ++ (config.project_id ++ (codes "/subscriptions/" ++ subscription))

unfoldable pub publish_body : Bytes → List (Bytes × Bytes) → Value
unfolding text_fields
publish_body encoded attributes = fields (
    field (codes "messages")
      (items (
        Values.cons
          (fields (
            field (codes "data") (text encoded)
              (field (codes "attributes") (fields (text_fields attributes)) Fields.end)))
          Values.nil))
      Fields.end)

unfoldable pub pull_body : ℕ → Value
pull_body max_messages = fields (
    field (codes "maxMessages") (number max_messages)
      (field (codes "returnImmediately") (flag true) Fields.end))

-- Whether the service says that what should be created is there.
unfoldable pub already_exists : HttpResult → Bool
unfolding find_in
already_exists result =
    result.status == 409 || (leb 400 result.status && find_in (codes "ALREADY_EXISTS") result.body)

module _ (json : JsonLibrary) where
  open json use {Json, view, parse}

  -- The string members of an object; the others are left out.
  unfoldable pub string_members : List (Bytes × Json) → List (Bytes × Bytes)
  string_members [] = []
  string_members ((k, v) ∷ m) =
      let rest = string_members m in
      elim (string_of (some (view v))) [ none ↦ rest | some s ↦ (k, s) ∷ rest ]

  unfoldable pub decoded_data : Option Bytes → Result Bytes
  decoded_data none = ok []
  decoded_data (some encoded) = base64_decode encoded

  unfoldable pub attributes_of : Option (View Json) → List (Bytes × Bytes)
  unfolding string_members members
  attributes_of none = []
  attributes_of (some v) = string_members (members v)

  -- What the message of an item adds to its ack id.
  unfoldable pub read_payload : Bytes → Option Json → Result PulledMessage
  unfolding decoded_data attributes_of is_object
  read_payload ack_id none = ok (record { ack_id = ack_id; message_data = []; attributes = [] })
  read_payload ack_id (some payload) =
      if is_object (view payload)
      then (do
        decoded ← decoded_data (string_at json (codes "data") payload)
        ok (record {
          ack_id = ack_id;
          message_data = decoded;
          attributes = attributes_of (view_at json (codes "attributes") payload);
        }))
      else ok (record { ack_id = ack_id; message_data = []; attributes = [] })

  unfoldable pub read_item : Json → Result PulledMessage
  unfolding read_payload value_or
  read_item item =
      read_payload (value_or [] (string_at json (codes "ackId") item))
        (find (codes "message") (members (view item)))

  unfoldable pub read_items : List Json → Result (List PulledMessage)
  unfolding read_item is_object
  read_items [] = ok []
  read_items (item ∷ rest) =
      let others = read_items rest in
      if is_object (view item) then (do m ← read_item item; ms ← others; ok (m ∷ ms)) else others

  unfoldable pub read_received : Option (View Json) → Result (List PulledMessage)
  unfolding read_items
  read_received (some (array received)) = read_items received
  read_received _ = ok []

  -- The messages of a reply to Pull; none is a reply that is no JSON.
  unfoldable pub read_messages : Option Json → Result (List PulledMessage)
  unfolding read_received
  read_messages none = ok []
  read_messages (some reply) = read_received (view_at json (codes "receivedMessages") reply)

module _ (json : JsonLibrary) (values : TokenValues json) (net : Net) (to_string : ℕ → Bytes) where
  open json use {Json, view, parse}
  open values use {dump}

  unfoldable pub created : Bytes → PubSubSession → HttpResult → PubSubSession × Outcome (Unit {0})
  unfolding already_exists
  created operation s result =
      if already_exists result
      then (s, gave tt)
      else (s, throw_if_http_failed to_string operation result)

  unfoldable pub ensure_topic : Bytes → PubSubSession → PubSubSession × Outcome (Unit {0})
  unfolding created topic_name
  ensure_topic topic s =
      then_do
        (send_authorized json values net to_string s (codes "PUT")
          (resource_url s.config (codes "topics") topic)
          (dump (fields (field (codes "name") (text (topic_name s.config topic)) Fields.end)))
          15000)
        (created (codes "CreateTopic"))

  unfoldable pub ensure_subscription :
      Bytes → Bytes → PubSubSession → PubSubSession × Outcome (Unit {0})
  unfolding created topic_name subscription_name
  ensure_subscription subscription topic s =
      then_do
        (send_authorized json values net to_string s (codes "PUT")
          (resource_url s.config (codes "subscriptions") subscription)
          (dump (
            fields (
              field (codes "name") (text (subscription_name s.config subscription)) (
                field (codes "topic") (text (topic_name s.config topic)) (
                  field (codes "ackDeadlineSeconds") (number s.config.ack_deadline_seconds)
                    Fields.end)))))
          15000)
        (created (codes "CreateSubscription"))

  unfoldable pub publish_encoded :
      Bytes
      → List (Bytes × Bytes)
      → PubSubSession
      → Outcome Bytes
      → PubSubSession × Outcome (Unit {0})
  unfolding publish_body
  publish_encoded topic attributes s (failed e) = (s, failed e)
  publish_encoded topic attributes s (gave encoded) =
      then_do
        (send_authorized json values net to_string s (codes "POST")
          (resource_url s.config (codes "topics") topic ++ codes ":publish")
          (dump (publish_body encoded attributes)) 15000)
        (λ s' result. (s', throw_if_http_failed to_string (codes "Publish " ++ topic) result))

  unfoldable pub publish :
      Bytes → Span → List (Bytes × Bytes) → PubSubSession → PubSubSession × Outcome (Unit {0})
  unfolding publish_encoded
  publish topic payload attributes s =
      if ltb max_payload_bytes (span_size payload)
      then (
        s,
        failed (
            plain
              (runtime_error (codes "Pub/Sub plugin: payload exceeds the 10 MiB Pub/Sub limit"))),
      )
      else publish_encoded topic attributes s (from_result (base64_encode payload))

  unfoldable pub pulled_result : Bytes → HttpResult → Outcome (List PulledMessage)
  unfolding read_messages
  pulled_result subscription result =
      if result.timed_out
      then gave []
      else elim (throw_if_http_failed to_string (codes "Pull " ++ subscription) result) [
        | failed e ↦ failed e
        | gave _ ↦ from_result (read_messages json (parse result.body))
      ]

  unfoldable pub pull : Bytes → ℕ → PubSubSession → PubSubSession × Outcome (List PulledMessage)
  unfolding pull_body pulled_result
  pull subscription max_messages s =
      then_do
        (send_authorized json values net to_string s (codes "POST")
          (resource_url s.config (codes "subscriptions") subscription ++ codes ":pull")
          (dump (pull_body max_messages)) 2000)
        (λ s' result. (s', pulled_result subscription result))

  unfoldable pub acknowledge :
      Bytes → List Bytes → PubSubSession → PubSubSession × Outcome (Unit {0})
  unfolding texts
  acknowledge subscription ack_ids s =
      if is_empty ack_ids
      then (s, gave tt)
      else then_do
          (send_authorized json values net to_string s (codes "POST")
            (resource_url s.config (codes "subscriptions") subscription ++ codes ":acknowledge")
            (dump (fields (field (codes "ackIds") (items (texts ack_ids)) Fields.end))) 15000)
          (λ s' result.
            (s', throw_if_http_failed to_string (codes "Acknowledge " ++ subscription) result))
