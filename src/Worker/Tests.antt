-- ===== src/Worker/Tests.antt =====
-- packages/teraslice/lib/workers/worker/slice.js on one slice.
use teraslice.Worker.SliceRun.{returns, Answers, run, is_finalized, run_finalizes_iff}
use teraslice.Base.{◌≡◌, ◌↔◌, true, false, none, some, any_of}

abbrev answers : Answers
answers = record {
  completed = none;
  error = none;
  on_failed = none;
  log = some "no index";
  on_finalizing = none;
}

run_finalizes_iff_example :
    (any_of is_finalized (run false (returns "[]") true answers).events ≡ true) ↔ (true ≡ false)
run_finalizes_iff_example = run_finalizes_iff (returns "[]") true answers
