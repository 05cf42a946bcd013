-- ===== src/Wrapper.antt =====
-- The process wrapper (adapter/go/wrapper): the evidence gate and the tap on the child's output.
pub mod Evidence
pub mod Stream
pub mod Delivery
mod Tests
