-- ===== src/Kafka.antt =====
-- kafka/KafkaPlugin: the transport over Apache Kafka.
pub mod Util
pub mod Config
pub mod Client
pub mod Server
pub mod Transport
pub mod Rpc
