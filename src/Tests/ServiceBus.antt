-- ===== src/Tests/ServiceBus.antt =====
-- The Service Bus plugin on concrete inputs.
use graftcode_extensions.Base.{
  ◌≡◌, ◌≢◌, refl, true, false, some, [], ◌∷◌, Bytes, codes, find, erase, bytes_eq, starts_with,
  back, ok, Result,
}
use graftcode_extensions.PendingReplies.{Ticket, register}
use graftcode_extensions.PendingReplies.Threads.{fresh}
use graftcode_extensions.PendingReplies.Tickets.{fresh-Inv}
use graftcode_extensions.Sqs.Codec.{span}
use graftcode_extensions.Sqs.Server.{Processed, write_all}
use graftcode_extensions.ServiceBus.Config.{
  ServiceBusClientConfig, default_client_config, build_connection_string, with_scheme, with_slash,
}
use graftcode_extensions.ServiceBus.Amqp.{AmqpMessage}
use graftcode_extensions.ServiceBus.Client.{
  ServiceBusRpcClient, new_client, Meets, request_message, begin_service_bus_call, with_link,
  with_ticket, sent_with, send, current_link, new_link, is_one_way, dispatch_replies, end_call,
}
use graftcode_extensions.ServiceBus.Server
use graftcode_extensions.ServiceBus.Server.{
  ServiceBusServerConfig, publishes, handle_service_bus_message,
}
use graftcode_extensions.ServiceBus.Server.Senders.{
  empty_cache, Attempt, publish, publish_loop, acquire, acquire_found, try_send, open_sender,
  emplace, assign, evict, close_found, is_stale,
}
use graftcode_extensions.ServiceBus.Server.Senders.Outcome.{Publishes}
use graftcode_extensions.ServiceBus.Server.Senders.Sound.{IsCache, OnlyAt, publish-IsCache}
use graftcode_extensions.ServiceBus.Rpc.{service_bus_round_trip}

abbrev host_config : ServiceBusClientConfig
host_config = record default_client_config {
  host = codes "h";
  shared_access_key_name = codes "n";
  shared_access_key = codes "k";
  queue = codes "q";
  reply_queue = codes "r";
}

connection :
    build_connection_string host_config
    ≡ codes "Endpoint=sb://h/;SharedAccessKeyName=n;SharedAccessKey=k"
unfolding build_connection_string with_scheme with_slash starts_with back codes
connection = refl

abbrev id : Bytes
id = b'i' ∷ []

abbrev client : ServiceBusRpcClient
client = new_client (b's' ∷ []) (record default_client_config {
  connection_string = b'c' ∷ [];
  queue = b'q' ∷ [];
  reply_queue = b'r' ∷ [];
})

abbrev meets : Meets
meets = record { opened = true; accepted = true }

abbrev ticket : Ticket
ticket = record { owner = true; id = id; slot = 0 }

begun :
    (begin_service_bus_call meets id (span (b'1' ∷ [])) client).1
    ≡ ok (request_message client id (b'1' ∷ []), some ticket)
unfolding begin_service_bus_call with_link with_ticket sent_with send current_link new_link
    new_client is_one_way build_connection_string register find request_message
begun = refl

abbrev server : ServiceBusServerConfig
server = record {
  name = [];
  connection_string = b'c' ∷ [];
  host = [];
  shared_access_key_name = [];
  shared_access_key = [];
  queue = b'q' ∷ [];
  reply_queue = [];
  topic = [];
  subscription = [];
  use_development_emulator = false;
  rpc_timeout_ms = 30000;
}

replying : Server.is_one_way server ≡ false
unfolding Server.is_one_way
replying = refl

abbrev echo : Bytes → Result Processed
echo request = ok (record { accepted = true; writes = span request ∷ [] })

fresh_client : client.pending ≡ fresh.replies
unfolding new_client
fresh_client = refl

queue_given : client.config.reply_queue ≢ []
unfolding new_client
queue_given e = cc

session_given : client.reply_session_id ≢ []
unfolding new_client
session_given e = cc

service_bus_round_trip_example :
    let m = request_message client id (b'1' ∷ []) in
    (response : AmqpMessage) × (handle_service_bus_message server (some echo) m
      ≡ ok (publishes client.config.reply_queue response))
    × (response.group_id ≡ some client.reply_session_id)
    × (let began = (begin_service_bus_call meets id (span (b'1' ∷ [])) client).0 in
        let now = record began { pending = dispatch_replies began.pending (response ∷ []) } in
        (end_call (λ n. []) id (some ticket) now).1 ≡ ok (write_all [] (span (b'1' ∷ []) ∷ [])))
service_bus_round_trip_example =
    service_bus_round_trip (λ n. []) meets id (b'1' ∷ []) server echo client fresh
      (request_message client id (b'1' ∷ [])) ticket
      (record { accepted = true; writes = span (b'1' ∷ []) ∷ [] }) [] [] fresh-Inv fresh_client
      begun (λ e. cc) queue_given session_given replying refl refl tt

-- The first send fails, the second goes out over a new sender.
abbrev failing : Attempt
failing = record { now = 1; opened = some 1; sent = false; sent_at = 1 }

abbrev working : Attempt
working = record { now = 2; opened = some 2; sent = true; sent_at = 3 }

retried :
    publish id failing working empty_cache
    ≡ (record { senders = (id, 2) ∷ []; last_used = (id, 3) ∷ []; closed = 1 ∷ [] }, true)
unfolding publish publish_loop acquire acquire_found try_send open_sender emplace assign evict
    close_found is_stale find erase bytes_eq
retried = refl

empty-IsCache : IsCache empty_cache
unfolding find
empty-IsCache = record { senders_once = tt; uses_once = tt; dated = λ k n. absurd (n refl) }

publish-IsCache_example :
    Publishes id failing working (publish id failing working empty_cache)
    × IsCache (publish id failing working empty_cache).0
    × OnlyAt id empty_cache (publish id failing working empty_cache).0
publish-IsCache_example = publish-IsCache id failing working empty_cache empty-IsCache
