-- ===== src/Controller.antt =====
-- The execution controller's parts: packages/teraslice/lib/workers/execution-controller.
pub mod Slice
pub mod Recovery
pub mod SliceStats
pub mod Scheduler
pub mod Analytics
pub mod Dispatch
pub mod Status
pub mod Watchdogs
pub mod Lifecycle
pub mod Tests
