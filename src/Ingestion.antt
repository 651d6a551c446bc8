-- ===== src/Ingestion.antt =====
-- The ingestion service (services/ingestion): deduplication of alerts and their publishing.
pub mod Dedup
pub mod Process
pub mod Batch
pub mod Lost
pub mod Normalize
pub mod Webhook
mod Tests
