-- ===== src/Sqs.antt =====
-- sqs/SqsPlugin: the transport over Amazon SQS.
pub mod Config
pub mod Endpoint
pub mod Codec
pub mod Aws
pub mod Client
pub mod Server
pub mod Transport
pub mod Rpc
