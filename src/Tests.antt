-- ===== src/Tests.antt =====
-- Runs of the model on concrete contracts, trades, queues and bytes.
pub mod Data
pub mod Groups
pub mod Queues
pub mod Streams
pub mod Requests
pub mod Datagrams
pub mod Codes
pub mod Files
pub mod Logs
pub mod Startup
pub mod Losses
pub mod Detections
