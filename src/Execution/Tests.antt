-- ===== src/Execution/Tests.antt =====
-- packages/teraslice/lib/cluster/storage/execution.js on a store of one execution.
use teraslice.Execution.Status.{Status, pending, running, stopping, completed}
use teraslice.Execution.Record.{Execution, no_metadata}
use teraslice.Execution.Backend.{listed}
use teraslice.Execution.Store.{set_status, caught, from_terminal}
use teraslice.Execution.History.{Request, IsPast, run, run_keeps_order}
use teraslice.Base.{List, some, String, ◌≡◌, ◌∷◌, [], none, arith, refl}

abbrev pub sample : Status → Execution
sample s = record {
  ex_id = some "e1";
  job_id = "j1";
  status = some s;
  lifecycle = "once";
  slicers = 1;
  workers = 3;
  operations = [];
  slicer_hostname = none;
  slicer_port = none;
  has_errors = none;
  slicer_stats = none;
  failure_reason = none;
  recovered_slice_state = none;
  recovered_execution = none;
  recovered_slice_type = none;
  created = none;
  updated = none;
}

abbrev pub docs : Status → List (String × Execution)
docs s = ("e1", sample s) ∷ []

abbrev stop_request : Request listed
stop_request = record { now = 5; id = "e1"; status = stopping; meta = no_metadata }

abbrev restart : Request listed
restart = record { now = 6; id = "e1"; status = pending; meta = no_metadata }

run_keeps_order_example :
    IsPast listed running (run listed (docs running) (stop_request ∷ restart ∷ [])) "e1"
run_keeps_order_example =
    run_keeps_order listed (docs running) (stop_request ∷ restart ∷ []) "e1" (sample running)
      running refl refl (omega arith)

-- An ended execution is not restarted, and the refusal is a value.
restart_ended :
    (set_status listed (docs completed) 6 "e1" pending no_metadata).1
    ≡ caught (from_terminal completed pending)
unfolding set_status
restart_ended = refl
