-- ===== src/Controller/Status/Tests.antt =====
-- The end of an execution of packages/teraslice/lib/workers/execution-controller/index.js.
use teraslice.Controller.Scheduler.{make_scheduler}
use teraslice.Controller.Status.{Ending, Counts, finish_execution}
use teraslice.Controller.Status.Completed.{Stored, finish_execution-completed}
use teraslice.Controller.Status.Failing.{finishes, fails, step, run, terminal_error-run}
use teraslice.Controller.Watchdogs.{Watched}
use teraslice.Execution.Status.{running, completed, failed}
use teraslice.Execution.Backend.{listed}
use teraslice.Execution.Store.{get_status}
use teraslice.Execution.Tests.{docs, sample}
use teraslice.Base.{ℕ, String, ◌≡◌, refl, ◌↔◌, true, false, none, some, [], ◌∷◌, arith, ok}

abbrev no_text : ℕ → String
no_text n = "n"

abbrev ending : Ending listed
ending = record {
  docs = docs running;
  scheduler = make_scheduler false 10 "once";
  is_done_processing = true;
  slicer_failed = false;
  is_execution_finished = false;
  is_execution_done = false;
}

abbrev no_errors : Counts
no_errors = record { errors = ok 0; started = ok 0 }

abbrev running_stored : Stored listed (docs running) "e1" running
running_stored = record {
  named = refl;
  execution = sample running;
  found = refl;
  has = refl;
  writes = λ p. (_, refl);
}

finish_execution-completed_example :
    (get_status listed (finish_execution listed no_text 7 "e1" none no_errors ending).docs "e1"
      ≡ ok (some completed))
    ↔ ((ending.slicer_failed ≡ false)
        × (ending.is_done_processing ≡ true)
        × (no_errors.errors ≡ ok 0)
        × (no_errors.started ≡ ok 0))
finish_execution-completed_example =
    finish_execution-completed listed no_text 7 "e1" none no_errors ending running running_stored
      (omega arith) refl

abbrev watched : Watched listed
watched = record { ending = ending; watch_dog = none }

terminal_error-run_example :
    let w' =
      run listed "e1"
        (finishes no_text 9 none no_errors ∷ [])
        (step listed "e1" (fails 8 none "failed") watched) in
    get_status listed w'.ending.docs "e1" ≡ ok (some failed)
terminal_error-run_example =
    terminal_error-run listed 8 "e1" none "failed" watched running
      (finishes no_text 9 none no_errors ∷ []) running_stored (omega arith) refl
