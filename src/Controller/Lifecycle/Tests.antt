-- ===== src/Controller/Lifecycle/Tests.antt =====
-- An execution that is pending, and the shutdown of its controller.
use teraslice.Controller.Lifecycle.{
  finish_shutdown, Controller, make_controller, Starts, initialize, begin_shutdown, returned,
  blocked, stopping, stopped, Ends, is_answered,
}
use teraslice.Controller.Lifecycle.Initializing.{starts, initialize-begin_shutdown}
use teraslice.Controller.Lifecycle.Stopping.{end_shutdown-blocked, begin_shutdown-twice}
use teraslice.Execution.Status.{pending}
use teraslice.Base.{◌≡◌, refl, true, none, some, if◌then◌else◌, ok, err}

abbrev answers : Starts
answers = record {
  ex_store = none;
  client = none;
  status = ok pending;
  finished_sent = none;
  ex_store_shutdown = none;
  client_shutdown = none;
  state_store = none;
  server = none;
}

initialize-begin_shutdown_example :
    let c = (initialize answers (make_controller true)).1 in
    (c.is_initialized ≡ starts answers)
    × ((begin_shutdown true c).0 ≡ (if starts answers then stopping else returned))
initialize-begin_shutdown_example = initialize-begin_shutdown answers true true

abbrev started : Controller
started = record (make_controller true) {
  is_initialized = true;
  has_ex_store = true;
  has_state_store = true;
}

abbrev ends : Ends
ends = record {
  slicer_analytics = none;
  execution_analytics = some "no answer";
  client = none;
  scheduler = none;
  server = none;
  ex_store = some "closed";
  state_store = none;
}

end_shutdown-blocked_example :
    ((begin_shutdown true (stopped started)).0 ≡ blocked)
    × (is_answered (finish_shutdown none ends started).1 ≡ is_answered started)
unfolding make_controller
end_shutdown-blocked_example = end_shutdown-blocked none ends started refl refl

begin_shutdown-twice_example : (begin_shutdown true (begin_shutdown true started).1).0 ≡ stopping
unfolding begin_shutdown make_controller
begin_shutdown-twice_example = begin_shutdown-twice true true started refl

-- Where the scheduler does not stop, nothing is closed.
unstopped : finish_shutdown (some "no answer") ends started ≡ (err "no answer", started)
unfolding finish_shutdown make_controller
unstopped = refl
