-- ===== src/Worker/Process/Tests.antt =====
-- A worker of packages/teraslice/lib/workers/worker/index.js with one slice.
use teraslice.Controller.Slice.{Slice}
use teraslice.Worker.Process.{Worker, Failure, make_worker, run_once, closed, shutdown}
use teraslice.Worker.Process.Fatal.{
  Resolved, Rejected, watched, listener_fails, run_once-ends, run_once-shutdown,
}
use teraslice.Base.{◌≡◌, refl, ◌⊎◌, true, false, none, some, [], ◌∷◌}

abbrev slice : Slice
slice = record { slice_id = "s1"; slicer_id = 0; slicer_order = 1; request = "{}"; created = none }

abbrev failure : Failure
failure = record { message = "bad"; is_fatal = false }

abbrev fatal : Failure
fatal = record { message = "worse"; is_fatal = true }

abbrev ready : Worker
ready = record make_worker { is_initialized = true }

run_once-ends_example :
    Resolved (listener_fails failure) ready (run_once (some slice) (listener_fails failure) ready)
    ⊎ Rejected ready (run_once (some slice) (listener_fails failure) ready)
run_once-ends_example = run_once-ends slice (listener_fails failure) ready

run_once-shutdown_example :
    let w' = (run_once (some slice) (listener_fails fatal) ready).0 in
    let seen =
      watched ((some slice, listener_fails failure) ∷ []) (record w' { is_shutting_down = true }) in
    (shutdown false seen none 0 w').1 ≡ closed 1
unfolding make_worker run_once
run_once-shutdown_example =
    run_once-shutdown slice (listener_fails fatal) ready fatal
      ((some slice, listener_fails failure) ∷ []) none 0 refl refl refl refl
