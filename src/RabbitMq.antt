-- ===== src/RabbitMq.antt =====
-- The RabbitMQ plugin, rabbitmq/RabbitmqPlugin.
pub mod Config
pub mod Stream
pub mod Client
pub mod Relaxed
pub mod Address
pub mod Server
pub mod Transport
