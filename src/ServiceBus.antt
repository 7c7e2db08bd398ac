-- ===== src/ServiceBus.antt =====
-- The Service Bus plugin, servicebus/ServiceBusPlugin.
pub mod Config
pub mod Amqp
pub mod Client
pub mod Server
pub mod Transport
pub mod Rpc
