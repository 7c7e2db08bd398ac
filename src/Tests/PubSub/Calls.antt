-- ===== src/Tests/PubSub/Calls.antt =====
-- Calls and requests of the Pub/Sub plugin on concrete inputs.
use graftcode_extensions.Base.{
  ◌≡◌, ◌<◌, All, refl, true, false, not, ◌||◌, some, List, [], ◌∷◌, ◌++◌, arith, Bytes, codes, find,
  bytes_eq, ok, runtime_error,
}
use graftcode_extensions.Json.{members, is_object}
use graftcode_extensions.Json.Read.{string_at, view_at, string_of}
use graftcode_extensions.PendingReplies
use graftcode_extensions.PendingReplies.{
  PendingReplies, Ticket, register, wait_for_pending, mark_done,
}
use graftcode_extensions.PendingReplies.Threads.{fresh}
use graftcode_extensions.PendingReplies.Tickets.{fresh-Inv}
use graftcode_extensions.Sqs.Codec.{span}
use graftcode_extensions.Sqs.Server.{write_all}
use graftcode_extensions.PubSub.Base64.{base64_encode, encode_bytes, table_digit}
use graftcode_extensions.PubSub.Config.{PubSubConfig, is_valid_resource_id, every, front_is_alpha}
use graftcode_extensions.PubSub.Session.{Outcome, gave, plain, Failure}
use graftcode_extensions.PubSub.Session.Messages.{
  PulledMessage, attributes_of, string_members, read_item,
}
use graftcode_extensions.PubSub.Client.{
  PubSubClient, Creates, Publication, publication, prepare, with_ticket, ensure_started, create_all,
  after_create, wanted, attributes_for, begin_pubsub_call, after_publish, dispatch_round, end_call,
  correlation_id_attribute, reply_to_attribute,
}
use graftcode_extensions.PubSub.Client.Calls.{pubsub_call_throws}
use graftcode_extensions.PubSub.Server.{publishes, Effect, Surroundings, handle_pubsub_message}
use graftcode_extensions.PubSub.Server.Messages.{Ends, handle_pubsub_message-Ends}
use graftcode_extensions.PubSub.Rpc.{Carries, pubsub_round_trip}
use graftcode_extensions.Tests.Fixtures.{
  Doc, text, blank, member, doc_library, doc_view, doc_members,
}

abbrev config : PubSubConfig
config = record {
  name = [];
  project_id = codes "p";
  request_topic = codes "requests";
  request_subscription = codes "requests-sub";
  reply_topic = codes "replies";
  reply_subscription = codes "replies-sub";
  emulator_host = codes "h";
  credentials_file = [];
  access_token = [];
  rpc_timeout_ms = 30000;
  ack_deadline_seconds = 60;
  max_messages = 10;
  one_way = false;
  auto_create = true;
  auto_create_specified = true;
  verify_ssl = true;
  emulator_use_https = false;
}

abbrev client : PubSubClient
client = record {
  config = config;
  pending = PendingReplies.initial;
  started = false;
  dispatching = false;
  stopping = false;
}

abbrev id : Bytes
id = b'i' ∷ []

abbrev letters : Bytes
letters = 77 ∷ 97 ∷ []

abbrev encoded : Bytes
encoded = 84 ∷ 87 ∷ 69 ∷ 61 ∷ []

letters_encoded : base64_encode (span letters) ≡ ok encoded
unfolding base64_encode encode_bytes table_digit
letters_encoded = refl

abbrev creates : Creates → Outcome (Unit {0})
creates _ = gave tt

abbrev ticket : Ticket
ticket = record { owner = true; id = id; slot = 0 }

abbrev pairs : List (Bytes × Bytes)
pairs = (correlation_id_attribute, id) ∷ (reply_to_attribute, config.reply_topic) ∷ []

abbrev published : Publication
published = record {
  topic = config.request_topic;
  payload = span letters;
  attributes = pairs;
  ticket = some ticket;
}

begun : (begin_pubsub_call creates id (span letters) client).1 ≡ gave published
unfolding begin_pubsub_call prepare with_ticket ensure_started create_all after_create wanted
    publication attributes_for register find
begun = refl

abbrev error : Failure
error = plain (runtime_error (codes "down"))

pubsub_call_throws_example :
    ((begin_pubsub_call creates id (span letters) client).1 ≡ Outcome.failed error
      → (begin_pubsub_call creates id (span letters) client).0.pending.slots ≡ client.pending.slots)
    × ((p : Publication)
        → (begin_pubsub_call creates id (span letters) client).1 ≡ gave p
        → let r =
            after_publish p
              (Outcome.failed error)
              (begin_pubsub_call creates id (span letters) client).0 in
          (r.0.pending.slots ≡ client.pending.slots) × (r.1 ≡ Outcome.failed error))
pubsub_call_throws_example = pubsub_call_throws id (span letters) creates client error

abbrev echo : Surroundings
echo = record {
  process = λ request. ok (record { accepted = true; writes = span request ∷ [] });
  published = gave tt;
  acknowledged = gave tt;
}

abbrev request : PulledMessage
request = record { ack_id = b'a' ∷ []; message_data = letters; attributes = pairs }

handle_pubsub_message-Ends_example :
    Ends config echo request (handle_pubsub_message config echo request)
handle_pubsub_message-Ends_example = handle_pubsub_message-Ends config echo request

-- What the service delivers of a message: its data and its attributes.
abbrev delivered : Bytes → Doc → Doc
delivered payload attributes =
    member (codes "message")
      (member (codes "data") (text payload) (member (codes "attributes") attributes blank))
      (member (codes "ackId") (text (codes "a")) blank)

abbrev to_server : Doc
to_server = delivered encoded (
    member correlation_id_attribute (text id)
      (member reply_to_attribute (text config.reply_topic) blank))

abbrev to_client : Doc
to_client = delivered encoded (member correlation_id_attribute (text id) blank)

request_carried : Carries (doc_library blank) to_server (span letters) pairs
unfolding find bytes_eq codes members doc_view doc_members is_object string_at view_at string_of
    attributes_of string_members
request_carried = record {
  message = member (codes "data") (text encoded) (
      member (codes "attributes")
        (member correlation_id_attribute (text id)
          (member reply_to_attribute (text config.reply_topic) blank))
        blank);
  text = encoded;
  holds = refl;
  object = refl;
  encoded = letters_encoded;
  with_data = refl;
  with_attributes = refl;
}

reply_carried :
    Carries (doc_library blank) to_client (span letters) ((correlation_id_attribute, id) ∷ [])
unfolding find bytes_eq codes members doc_view doc_members is_object string_at view_at string_of
    attributes_of string_members
reply_carried = record {
  message =
      member (codes "data") (text encoded)
        (member (codes "attributes") (member correlation_id_attribute (text id) blank) blank);
  text = encoded;
  holds = refl;
  object = refl;
  encoded = letters_encoded;
  with_data = refl;
  with_attributes = refl;
}

dispatcher_pulls :
    (let began = (begin_pubsub_call creates id (span letters) client).0 in
      (began.stopping || not (wait_for_pending began.pending)) ≡ false)
unfolding begin_pubsub_call prepare with_ticket ensure_started create_all after_create wanted
    register find wait_for_pending
dispatcher_pulls = refl

valid_reply_topic : is_valid_resource_id config.reply_topic ≡ true
unfolding is_valid_resource_id every front_is_alpha codes
valid_reply_topic = refl

bytes_written : All (λ b. b < 256) (write_all [] (span letters ∷ []))
unfolding write_all
bytes_written = (omega arith, (omega arith, tt))

reply_written :
    Carries
      (doc_library blank)
      to_client
      (span (write_all [] (span letters ∷ [])))
      ((correlation_id_attribute, id) ∷ [])
unfolding write_all
reply_written = reply_carried

pubsub_round_trip_example :
    (m : PulledMessage) × (n : PulledMessage) × (rest : List Effect) × (read_item
        (doc_library blank)
        to_server
      ≡ ok m)
    × ((handle_pubsub_message config echo m).0
        ≡ publishes config.reply_topic
            (write_all [] (span letters ∷ []))
            ((correlation_id_attribute, id) ∷ [])
            (gave tt)
          ∷ rest)
    × (read_item (doc_library blank) to_client ≡ ok n)
    × (let began = (begin_pubsub_call creates id (span letters) client).0 in
        (end_call (λ n. []) (some ticket) (dispatch_round (gave ([] ++ n ∷ [])) began).1).1
        ≡ ok (write_all [] (span letters ∷ [])))
pubsub_round_trip_example =
    pubsub_round_trip (doc_library blank) (λ n. []) creates id letters config echo client fresh
      published ticket to_server to_client (record { accepted = true; writes = span letters ∷ [] })
      [] [] fresh-Inv refl begun refl dispatcher_pulls refl refl (λ e. cc) valid_reply_topic
      (omega arith, (omega arith, tt)) bytes_written request_carried refl refl refl reply_written tt
