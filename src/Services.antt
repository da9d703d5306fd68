-- ===== src/Services.antt =====
-- The services of the cluster master.
pub mod ExecutionService
pub mod JobsService
pub mod Tests
