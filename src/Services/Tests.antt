-- ===== src/Services/Tests.antt =====
-- packages/teraslice/lib/cluster/services/execution.js on a store of one execution.
use teraslice.Execution.Status.{running}
use teraslice.Execution.Backend.{listed}
use teraslice.Execution.Store.{get_execution}
use teraslice.Execution.Tests.{docs}
use teraslice.Services.ExecutionService.{stop_execution, cluster_stop}
use teraslice.Base.{◌≡◌, refl, some, [], ◌∷◌}

-- Where the cluster does not stop the execution, nothing waits for it.
not_stopped :
    (stop_execution listed (docs running) 5 "e1" (some "no answer")).1 ≡ cluster_stop "e1" ∷ []
unfolding stop_execution get_execution
not_stopped = refl
