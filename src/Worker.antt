-- ===== src/Worker.antt =====
-- The worker of an execution.
pub mod SliceRun
pub mod Process
pub mod Tests
