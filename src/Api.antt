-- ===== src/Api.antt =====
-- prod/app/api: request handlers of the HTTP API. A handler reads and writes the database and
-- returns a response or an HTTP error; rate limits and the audit log are not part of the model.
pub mod Schemas
pub mod Tasks
pub mod Channels
