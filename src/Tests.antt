-- ===== src/Tests.antt =====
-- Runs of the definitions on concrete inputs, and each theorem applied to one.
mod Fixtures
mod Pending
mod Abi
mod Sqs
mod Kafka
mod PubSub
mod RabbitMq
mod ServiceBus
