-- ===== src/Protocol.antt =====
-- protocol/go: the event contract that every other part of the program speaks.
pub mod Value
pub mod Event
pub mod Metadata
pub mod Validate
pub mod Samples
pub mod Zero
mod Tests
