-- ===== src/Ingest.antt =====
-- internal/ingest: the bounded queue and the duplicate filter in front of the session engine.
pub mod Queue
pub mod Dedupe
pub mod Collector
mod Tests
