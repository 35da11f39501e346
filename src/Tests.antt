-- ===== src/Tests.antt =====
-- Concrete runs of the theorems.
pub mod Data
pub mod Tasks
pub mod Accounts
pub mod Uploads
pub mod Scheduling
pub mod Streaming
pub mod Speech
pub mod Ingestion
pub mod Channels
pub mod Voice
pub mod Inbox
pub mod Shorts
pub mod Portal
