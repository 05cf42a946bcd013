-- ===== src/Diff.antt =====
-- internal/diff: line deltas, by structured counts, patches, snapshots and git.
pub mod Kinds
pub mod Lines
pub mod Patch
pub mod Request
pub mod Pipeline
pub mod Batch
pub mod Snapshot
mod Tests
