-- ===== src/Execution.antt =====
-- Executions: the records, the storage of their status and the service that drives them.
-- packages/teraslice/lib/cluster/storage/execution.js and packages/teraslice/lib/cluster/services/execution.js
pub mod Status
pub mod DateUtils
pub mod Record
pub mod Backend
pub mod Store
pub mod Phases
pub mod StateStore
pub mod Update
pub mod History
pub mod Tests
