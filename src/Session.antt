-- ===== src/Session.antt =====
-- internal/session: live session state.
pub mod Interval
pub mod State
pub mod Engine
mod Tests
