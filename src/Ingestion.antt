-- ===== src/Ingestion.antt =====
-- prod/shared/ingestion/dle: posts of DLE sites, from their database to tasks.
pub mod Xfields
pub mod Client
pub mod Pipeline
pub mod Sources
