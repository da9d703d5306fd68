-- ===== src/Services/ExecutionService/Laws.antt =====
-- How stopping, recovering and provisioning of packages/teraslice/lib/cluster/services/execution.js change
-- the status of an execution.
use teraslice.Execution.Status.{Status}
use teraslice.Execution.Record.{Execution}
use teraslice.Execution.Backend.{Backend}
