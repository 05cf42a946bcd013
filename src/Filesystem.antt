-- ===== src/Filesystem.antt =====
-- The filesystem observer (internal/adapters/filesystem/observer.go): which pending changes are
-- ready, and how a batch of them becomes events.
pub mod Change
pub mod Accept
pub mod Renames
pub mod Ready
pub mod Events
pub mod Batch
mod Tests
