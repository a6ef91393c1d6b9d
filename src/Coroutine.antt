-- ===== src/Coroutine.antt =====
-- The coroutine layer: coroutine/*.hpp.
pub mod Scheduler
pub mod Task
pub mod Generator
pub mod Sync
mod Tests
