-- ===== src/PubSub/Rpc.antt =====
-- A whole call over pubsub/PubSubPlugin: the client publishes, the server answers, and the client
-- returns the answer.
use graftcode_extensions.Base.{
  ℕ, ◌≡◌, ◌≢◌, ◌<◌, refl, ap, ◌∙◌, true, false, not, ◌||◌, some, List, [], ◌∷◌, ◌++◌, arith, Bytes,
  codes, find, bytes_eq, is_empty, All, ok,
}
use graftcode_extensions.Json.{JsonLibrary, members, is_object}
use graftcode_extensions.Json.Read.{string_at, view_at, value_or}
use graftcode_extensions.PendingReplies.{Ticket, wait_for_pending}
use graftcode_extensions.PendingReplies.Threads.{World}
use graftcode_extensions.PendingReplies.Tickets.{Inv}
use graftcode_extensions.Sqs.Codec.{Span, span, span_bytes}
use graftcode_extensions.Sqs.Server.{Processed, write_all}
use graftcode_extensions.PubSub.Base64.{base64_encode, base64_decode}
use graftcode_extensions.PubSub.Base64.RoundTrip.{base64_decode-encode}
use graftcode_extensions.PubSub.Config.{PubSubConfig, is_valid_resource_id}
use graftcode_extensions.PubSub.Session.{Outcome, gave}
use graftcode_extensions.PubSub.Session.Messages.{
  PulledMessage, decoded_data, attributes_of, read_payload, read_item,
}
use graftcode_extensions.PubSub.Client.{
  PubSubClient, Creates, Publication, begin_pubsub_call, correlation_id_attribute,
  reply_to_attribute, attributes_for, dispatch_round, end_call,
}
use graftcode_extensions.PubSub.Client.Calls.{pubsub_call_waits}
use graftcode_extensions.PubSub.Client.Replies.{correlation, pubsub_call_returns}
use graftcode_extensions.PubSub.Server.{
  attribute, value_or_empty, Effect, publishes, Surroundings, acknowledge_request, reply_to_of,
  unanswerable, handle_pubsub_message,
}
use graftcode_extensions.PubSub.Server.Messages.{replied_lem}

module _ (json : JsonLibrary) where
  open json use {Json, view}

  -- What the service documents of an item of a reply to Pull: it holds the published message, its
  -- data as the Base64 text and its attributes as strings.
  pub record Carries (item : Json) (payload : Span) (attributes : List (Bytes × Bytes))
      : Type 0 where
    pub message : Json
    pub text : Bytes
    pub holds : find (codes "message") (members (view item)) ≡ some message
    pub object : is_object (view message) ≡ true
    pub encoded : base64_encode payload ≡ ok text
    pub with_data : string_at json (codes "data") message ≡ some text
    pub with_attributes :
        attributes_of json (view_at json (codes "attributes") message) ≡ attributes

  read_carried :
      (item : Json) (payload : Span) (attributes : List (Bytes × Bytes))
      (c : Carries item payload attributes)
      → base64_decode c.text ≡ ok (span_bytes payload)
      → read_item json item
        ≡ ok (record {
          ack_id = value_or [] (string_at json (codes "ackId") item);
          message_data = span_bytes payload;
          attributes = attributes;
        })
  unfolding read_item read_payload decoded_data
  read_carried item payload attributes c d =
      simp (c.holds, c.object, c.with_data, d, c.with_attributes)

  -- What is published is what is pulled.
  pub read-Carries :
      (item : Json) (payload : Span) (attributes : List (Bytes × Bytes))
      → All (λ b. b < 256) (span_bytes payload)
      → Carries item payload attributes
      → read_item json item
        ≡ ok (record {
          ack_id = value_or [] (string_at json (codes "ackId") item);
          message_data = span_bytes payload;
          attributes = attributes;
        })
  read-Carries item payload attributes a c =
      read_carried item payload attributes c (base64_decode-encode payload a c.encoded)

rpc_attributes :
    (config : PubSubConfig) (id : Bytes)
    → config.one_way ≡ false
    → attributes_for config id
      ≡ (correlation_id_attribute, id) ∷ (reply_to_attribute, config.reply_topic) ∷ []
unfolding attributes_for
rpc_attributes config id o = simp o

attribute_id :
    (config : PubSubConfig) (id : Bytes)
    → attribute
        ((correlation_id_attribute, id) ∷ (reply_to_attribute, config.reply_topic) ∷ [])
        correlation_id_attribute
      ≡ id
unfolding attribute value_or_empty find bytes_eq codes
attribute_id config id = refl

attribute_reply_to :
    (config : PubSubConfig) (id : Bytes)
    → attribute
        ((correlation_id_attribute, id) ∷ (reply_to_attribute, config.reply_topic) ∷ [])
        reply_to_attribute
      ≡ config.reply_topic
unfolding attribute value_or_empty find bytes_eq codes
attribute_reply_to config id = refl

reply_to_lem :
    (server : PubSubConfig) (m : PulledMessage)
    → server.one_way ≡ false
    → reply_to_of server m ≡ attribute m.attributes reply_to_attribute
unfolding reply_to_of
reply_to_lem server m o = simp o

answerable :
    (server : PubSubConfig) (m : PulledMessage)
    → is_empty (attribute m.attributes correlation_id_attribute) ≡ false
    → is_valid_resource_id (reply_to_of server m) ≡ true
    → unanswerable server m ≡ false
unfolding unanswerable
answerable server m e v = ground arith

valid-given : (s : Bytes) → is_valid_resource_id s ≡ true → is_empty s ≡ false
unfolding is_valid_resource_id
valid-given [] v = absurd (cc)
valid-given (c ∷ s) v = refl

given : (id : Bytes) → id ≢ [] → is_empty id ≡ false
given [] n = absurd (n refl)
given (c ∷ id) n = refl

module _ (server : PubSubConfig) (env : Surroundings) (id : Bytes) (config : PubSubConfig) where
  -- The server's part: the first thing that it does is to publish the reply to the topic and under
  -- the id that the request names.
  served :
      (m : PulledMessage) (result : Processed)
      → server.one_way ≡ false
      → id ≢ []
      → is_valid_resource_id config.reply_topic ≡ true
      → m.attributes
        ≡ (correlation_id_attribute, id) ∷ (reply_to_attribute, config.reply_topic) ∷ []
      → env.process m.message_data ≡ ok result
      → result.accepted ≡ true
      → env.published ≡ gave tt
      → (rest : List Effect) × ((handle_pubsub_message server env m).0
          ≡ publishes config.reply_topic
              (write_all [] result.writes)
              ((correlation_id_attribute, id) ∷ [])
              (gave tt)
            ∷ rest)
  served m result o n v a h k s =
      let to : reply_to_of server m ≡ config.reply_topic =
        reply_to_lem server m o
        ∙ ap (λ x. attribute x reply_to_attribute) a
        ∙ attribute_reply_to config id in
      let name : attribute m.attributes correlation_id_attribute ≡ id =
        ap (λ x. attribute x correlation_id_attribute) a ∙ attribute_id config id in
      let open_ : unanswerable server m ≡ false =
        answerable server m (ap is_empty name ∙ given id n) (ap is_valid_resource_id to ∙ v) in
      let rest = (acknowledge_request server env m).0 in
      (
        rest,
        replied_lem server env m result open_ h k
              (ap is_empty to ∙ valid-given config.reply_topic v) s
            ∙ ap
                (λ (x : Bytes × Bytes).
                  publishes x.0 (write_all [] result.writes) ((correlation_id_attribute, x.1) ∷ [])
                    (gave tt)
                  ∷ rest)
                (λ i. (to i, name i)),
      )

correlation_lem :
    (id ack response : Bytes)
    → correlation (record {
      ack_id = ack;
      message_data = response;
      attributes = (correlation_id_attribute, id) ∷ [];
    })
      ≡ some id
unfolding find bytes_eq codes
correlation_lem id ack response = refl

module _ (json : JsonLibrary) (to_string : ℕ → Bytes) (service : Creates → Outcome (Unit {0}))
    (id request : Bytes) (server : PubSubConfig) (env : Surroundings) where
  open json use {Json}

  -- A call over Pub/Sub, both sides not one-way. The service delivers what was published: the server
  -- pulls an item that carries the call's publication, and the client pulls one that carries the
  -- server's reply, behind messages of other ids. If the Gateway takes the request and the reply is
  -- published, the server's first act is to publish, to the client's reply topic and under the
  -- call's id, just what the Gateway wrote, and the call returns these bytes.
  pub pubsub_round_trip :
      (c : PubSubClient) (w : World) (p : Publication) (t : Ticket) (item reply : Json)
      (result : Processed) (front back : List PulledMessage)
      → Inv w
      → c.pending ≡ w.replies
      → (begin_pubsub_call service id (span request) c).1 ≡ gave p
      → p.ticket ≡ some t
      → (let began = (begin_pubsub_call service id (span request) c).0 in
          (began.stopping || not (wait_for_pending began.pending)) ≡ false)
      → c.config.one_way ≡ false
      → server.one_way ≡ false
      → id ≢ []
      → is_valid_resource_id c.config.reply_topic ≡ true
      → All (λ b. b < 256) request
      → All (λ b. b < 256) (write_all [] result.writes)
      → Carries json item p.payload p.attributes
      → env.process request ≡ ok result
      → result.accepted ≡ true
      → env.published ≡ gave tt
      → Carries json reply (span (write_all [] result.writes)) ((correlation_id_attribute, id) ∷ [])
      → All (λ x. correlation x ≢ some id) front
      → (m : PulledMessage) × (n : PulledMessage) × (rest : List Effect) × (read_item json item
          ≡ ok m)
        × ((handle_pubsub_message server env m).0
            ≡ publishes c.config.reply_topic
                (write_all [] result.writes)
                ((correlation_id_attribute, id) ∷ [])
                (gave tt)
              ∷ rest)
        × (read_item json reply ≡ ok n)
        × (let began = (begin_pubsub_call service id (span request) c).0 in
            (end_call to_string (some t) (dispatch_round (gave (front ++ n ∷ back)) began).1).1
            ≡ ok (write_all [] result.writes))
  pubsub_round_trip c w p t item reply result front back v e b k opened o so n valid rb wb ci h a s
        cr apart =
      let (_, payload, attributes) = pubsub_call_waits id (span request) service c p t b k in
      let named = attributes ∙ rpc_attributes c.config id o in
      let m : PulledMessage = record {
        ack_id = value_or [] (string_at json (codes "ackId") item);
        message_data = span_bytes p.payload;
        attributes = p.attributes;
      } in
      let n' : PulledMessage = record {
        ack_id = value_or [] (string_at json (codes "ackId") reply);
        message_data = write_all [] result.writes;
        attributes = (correlation_id_attribute, id) ∷ [];
      } in
      let got : span_bytes p.payload ≡ request = ap span_bytes payload in
      let (rest, effect) =
        served server env id c.config m result so n valid named (ap env.process got ∙ h) a s in
      let (answer, _) =
        pubsub_call_returns to_string service id (span request) c w p t front back n' v e b k opened
          (correlation_lem id n'.ack_id n'.message_data) apart in
      (
        m,
        n',
        rest,
        read-Carries json item p.payload p.attributes (rw got rb) ci,
        effect,
        read-Carries json reply (span (write_all [] result.writes)) _ wb cr,
        answer,
      )
