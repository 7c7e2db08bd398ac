-- ===== src/Lib.antt =====
-- Graftcode plugins: a Gateway's calls carried over a message broker. A plugin is a shared library
-- with a C ABI. On the caller's side the ABI calls a transport, the transport a client, and the
-- client sends a request under a fresh correlation id and waits for the reply, which a dispatcher
-- thread hands over. On the other side a server receives requests, runs the Gateway's callback on
-- them, replies and removes them.
--
-- The files, with the code that they model:
--   PendingReplies        sqs/GraftcodePluginsInterfaces/PendingReplies.h, the same file in all five
--                         plugins: the slots on a heap, the map and the tickets. Its children hold
--                         the interleavings (Threads) and what holds in all of them.
--   Abi                   sqs/GraftcodePluginsInterfaces/TransportPluginExports.h and
--                         TransportPluginAbi.h: CreateTransport and SendCommand.
--   Json                  what the plugins use of the JSON library.
--   Sqs.Config            sqs/SqsPlugin/SqsConfig.h and SqsConfig.cpp: ParseSqsConfigSource down to
--                         FindSqsNode and the validation functions.
--   Sqs.Endpoint          ParseEndpointOverride and IsFifoQueueUrl of the same file.
--   Sqs.Codec, Sqs.Aws    sqs/SqsPlugin/SqsUtil.cpp: payloads, ids, attributes, FIFO fields; and the
--                         settings of the AWS client.
--   Sqs.Client            sqs/SqsPlugin/SqsClient.cpp: Call as begin_call, after_send and end_call;
--                         DispatchReplies as dispatch_round.
--   Sqs.Server            sqs/SqsPlugin/SqsServer.cpp: one message (handle_message); configure, and
--                         start() and stop() as critical sections (Lifecycle).
--   Sqs.Transport         sqs/SqsPlugin/TransportSqs.cpp.
--   Sqs.Rpc               a request through client and server.
--   Kafka.Util            kafka/KafkaPlugin/KafkaUtil.h.
--   Kafka.Config          the settings: KafkaClient::Config, parseClientConfig of TransportKafka.cpp,
--                         configure of KafkaServer.cpp and applySecurity.
--   Kafka.Client          kafka/KafkaPlugin/KafkaClient.cpp: ensureStarted, call (begin_kafka_call and
--                         end_call), and the dispatcher with its delivery reports (dispatch_all).
--   Kafka.Server          kafka/KafkaPlugin/KafkaServer.cpp: one message, a session of messages, and
--                         a round of the outer loop (attempt).
--   Kafka.Transport       kafka/KafkaPlugin/TransportKafka.cpp.
--   Kafka.Rpc             a request through client and server.
--   PubSub.Base64         the Base64 routines of pubsub/PubSubPlugin/PubSubUtil.cpp.
--   Json.Search           the search for a plugin's settings that FindSqsNode, FindPubSubNode,
--                         FindRabbitMqNode and FindServiceBusNode have in common.
--   PubSub.Config         pubsub/PubSubPlugin/PubSubConfig.cpp: the checks; its child Source holds
--                         ParsePubSubConfigSource.
--   PubSub.Session        pubsub/PubSubPlugin/PubSubUtil.cpp: the requests; Token and Messages hold the
--                         bearer token and the operations on topics and subscriptions.
--   PubSub.Client         pubsub/PubSubPlugin/PubSubClient.cpp: Call as begin_pubsub_call,
--                         after_publish and end_call; DispatchReplies as dispatch_round.
--   PubSub.Server         pubsub/PubSubPlugin/PubSubServer.cpp: HandleMessage, a batch, configure.
--   PubSub.Transport      pubsub/PubSubPlugin/TransportPubSub.cpp.
--   RabbitMq.Config       rabbitmq/RabbitmqPlugin/RabbitMqClient.cpp: ApplyConfigSource.
--   RabbitMq.Stream       the reading and writing loops of the same file and of RabbitMqServer.cpp.
--   RabbitMq.Client       Link and RabbitMqRpcClient of the same file; Disconnects interleaves calls
--                         with the loss of the connection.
--   RabbitMq.Relaxed, RabbitMq.Address, RabbitMq.Server
--                         rabbitmq/RabbitmqPlugin/RabbitMqServer.cpp: normalizeRelaxedJson, the
--                         settings with the broker's address, and a delivery.
--   ServiceBus.Config     servicebus/ServiceBusPlugin/ServiceBusClient.cpp: ApplyConfigSource and
--                         BuildConnectionString.
--   ServiceBus.Amqp       what both sides read from an AMQP message.
--   ServiceBus.Client     Link and ServiceBusRpcClient of ServiceBusClient.cpp.
--   ServiceBus.Server     servicebus/ServiceBusPlugin/ServiceBusServer.cpp: the settings and a message;
--                         Senders is its ReplySenderCache.
--   RabbitMq.Transport, ServiceBus.Transport
--                         TransportRabbitMq.cpp and TransportServiceBus.cpp, and the static SendRpc of
--                         both plugins.
--   PubSub.Rpc, ServiceBus.Rpc
--                         a request through client and server.
--   Tests                 runs on concrete inputs, with stand-ins for the third-party code.
--
-- How the code is modelled. Bytes are numbers in lists; a `std::exception` is its text, and `what()`
-- is read up to a NUL. Code that throws gives a Result. Integers of a fixed width keep their wrap
-- (Base.Int). What a lock guards is one step, and a run is any list of steps, so a theorem over all
-- lists is one over all interleavings; a timed wait is modelled by the state in which it ends.
-- The search of a JSON value recurses on its size, and one more than that size is enough. The loop
-- that parses received bytes runs on their number, since each round removes a byte at least.
--
-- Parameters: the JSON library, the file system, the SDK's Base64, random words, libcurl, OpenSSL,
-- the clock, AMQP-CPP's parser, the Gateway's callback, and what a broker's SDK answers to a call.
-- Their assumed behaviour stands in the theorems' hypotheses.
--
-- Not modelled: logging, sleeping, the start and stop of the SDKs, memory release, the connecting of
-- sockets, how Call of the Pub/Sub client uses its pool of idle sessions, the loops that reconnect
-- the Pub/Sub, RabbitMQ and Service Bus servers, and the libraries under observability/.
pub mod Base
pub mod PendingReplies
pub mod Abi
pub mod Json
pub mod Sqs
pub mod Kafka
pub mod PubSub
pub mod RabbitMq
pub mod ServiceBus
mod Tests
