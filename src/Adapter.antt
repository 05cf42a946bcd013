-- ===== src/Adapter.antt =====
-- adapter/go: the public library for adapters.
pub mod Path
mod Tests
