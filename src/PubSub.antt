-- ===== src/PubSub.antt =====
-- The Pub/Sub plugin, pubsub/PubSubPlugin.
pub mod Base64
pub mod Config
pub mod Session
pub mod Client
pub mod Server
pub mod Rpc
pub mod Transport
