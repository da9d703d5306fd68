-- ===== src/Controller/Dispatch/Tests.antt =====
-- Dispatching of packages/teraslice/lib/workers/execution-controller/index.js with two slices.
use teraslice.Controller.Slice.{Slice}
use teraslice.Controller.Scheduler.{make_scheduler}
use teraslice.Controller.Dispatch.{
  Controller, accepted, dequeue_and_dispatch, dispatch_slice, slice_complete,
}
use teraslice.Controller.Dispatch.Conserved.{count_if, dispatched, dequeue_and_dispatch-count}
use teraslice.Controller.Dispatch.Counters.{here, next, settles, completes, Steps-Counted, Counted}
use teraslice.Messaging.Workers.{Server}
use teraslice.Base.{
  ◌+◌, String, ◌≡◌, refl, true, false, Option, none, some, [], ◌∷◌, if◌then◌else◌, ◌===◌, pos,
  negsuc,
}

abbrev slice_of : String → Slice
slice_of id = record {
  slice_id = id;
  slicer_id = 0;
  slicer_order = 1;
  request = "{}";
  created = none;
}

abbrev server : Server
server = record { clients = []; timeout = 5; queue = "w1" ∷ "w2" ∷ []; active_workers = [] }

-- The first slice asks for a worker that is not there.
abbrev asked_worker : Slice → Option String
asked_worker s = if s.slice_id === "s1" then some "w9" else none

abbrev controller : Controller
controller = record {
  scheduler = record (make_scheduler false 10 "once") {
    queue = slice_of "s1" ∷ slice_of "s2" ∷ [];
  };
  server = server;
  pending_dispatches = 0;
  pending_slices = pos 0;
  is_paused = false;
  is_shutting_down = false;
  is_execution_done = false;
  dispatching = [];
  accepted = 0;
  completions = 0;
}

dequeue_and_dispatch-count_example :
    let c' = dequeue_and_dispatch asked_worker controller in
    count_if (λ _. true) (dispatched c'.dispatching) + count_if (λ _. true) c'.scheduler.queue
    ≡ count_if (λ _. true) (dispatched controller.dispatching)
      + count_if (λ _. true) controller.scheduler.queue
unfolding make_scheduler
dequeue_and_dispatch-count_example =
    dequeue_and_dispatch-count (λ _. true) asked_worker controller refl (refl, (refl, tt))

abbrev sending : Controller
sending = record controller {
  pending_dispatches = 1;
  pending_slices = pos 1;
  dispatching = (slice_of "s3", "w1") ∷ [];
}

-- The slice is accepted and completed twice: pendingSlices is below 0.
abbrev twice : Controller
twice = slice_complete (slice_complete (dispatch_slice accepted (slice_of "s3") [] sending))

twice_pending : twice.pending_slices ≡ negsuc 0
unfolding slice_complete dispatch_slice
twice_pending = refl

Steps-Counted_example : Counted twice
Steps-Counted_example =
    Steps-Counted
      (next (next (next here (settles accepted [] [] (slice_of "s3") "w1" refl)) completes)
        completes)
      (refl, refl)
