-- ===== src/Tests/Sqs.antt =====
-- The SQS plugin on concrete inputs.
mod Settings
mod Wire
mod Calls
