-- ===== src/Controller/Dispatch.antt =====
-- How the execution controller gives slices to workers: _runDispatch, _dispatchSlice and the handlers of
-- completed slices in packages/teraslice/lib/workers/execution-controller/index.js. `dispatching` holds the
-- calls of dispatchSlice that have not settled, `accepted` counts those that workers have accepted, and
-- `completions` the messages slice:complete, also of slices that are completed twice or whose dispatch failed.
pub mod Conserved
pub mod Counters
pub mod Tests
use teraslice.Controller.Slice.{Slice}
use teraslice.Controller.Scheduler
use teraslice.Controller.Scheduler.{Scheduler, enqueue_slices, enqueue_slice, is_finished}
use teraslice.Messaging.Workers.{Server, worker_dequeue}
use teraslice.Base.{
  ℕ, zero, suc, ◌+◌, ◌-◌, ◌*◌, ◌≤◌, ◌<◌, String, ◌≡◌, refl, sym, ap, subst, ◌∙◌, ◌≢◌, ◌↔◌, ◌⊎◌, inl,
  inr, Bool, true, false, not, ◌&&◌, ◌||◌, Option, none, some, List, [], ◌∷◌, ◌++◌, map, arith, ltb,
  leb, ◌==◌, if◌then◌else◌, ltb→lt, lt→ltb, leb→le, ==_iff, Bool-cases, Option-cases, ◌===◌,
  ===_iff, length, keep_if, any_of, All, length-append, length-map, length-keep_if-le, All-append,
  Result, ok, err, ◌>>=◌, map_err, map_ok, is_ok, min, ℤ, plus, pos, negsuc,
}

pub record Controller : Type 0 where
  pub scheduler : Scheduler
  pub server : Server
  pub pending_dispatches : ℕ
  pub pending_slices : ℤ
  pub is_paused : Bool
  pub is_shutting_down : Bool
  pub is_execution_done : Bool
  pub dispatching : List (Slice × String)
  pub accepted : ℕ
  pub completions : ℕ

-- The two lists that the loop over the slices fills, and the server.
pub record Split : Type 0 where
  pub dispatch : List (Slice × String)
  pub reenqueue : List Slice
  pub server : Server

abbrev pub placed : Slice → Option String × Server → (Server → Split) → Split
placed slice (none, server) rest =
    let r = rest server in record r { reenqueue = slice ∷ r.reenqueue }
placed slice (some id, server) rest =
    let r = rest server in record r { dispatch = (slice, id) ∷ r.dispatch }

-- `request_worker` reads the worker that a slice's request names.
unfoldable pub dispatch_each : (Slice → Option String) → List Slice → Server → Split
unfolding worker_dequeue
dispatch_each request_worker [] server = record { dispatch = []; reenqueue = []; server = server }
dispatch_each request_worker (slice ∷ slices) server =
    placed slice (worker_dequeue (request_worker slice) server)
      (dispatch_each request_worker slices)

unfoldable pub dequeue_and_dispatch : (Slice → Option String) → Controller → Controller
unfolding dispatch_each Scheduler.get_slices enqueue_slices
dequeue_and_dispatch request_worker c =
    let r = Scheduler.get_slices (length c.server.queue) c.scheduler in
    let d = dispatch_each request_worker r.0 c.server in
    record c {
      scheduler = if ltb 0 (length d.reenqueue) then enqueue_slices d.reenqueue true r.1 else r.1;
      server = d.server;
      pending_dispatches = c.pending_dispatches + length d.dispatch;
      pending_slices = plus c.pending_slices (pos (length d.dispatch));
      dispatching = c.dispatching ++ d.dispatch;
    }

unfoldable pub is_running : Controller → Bool
unfolding is_finished
is_running c =
    not c.is_shutting_down
    && not c.is_execution_done
    && not (is_finished c.scheduler && c.pending_dispatches == 0)

unfoldable pub can_dispatch : Controller → Bool
can_dispatch c = ltb 0 (length c.server.queue) && ltb 0 (length c.scheduler.queue)

-- A run of the dispatch interval: whether it goes on, and the state.
unfoldable pub dispatch_tick : (Slice → Option String) → Controller → Bool × Controller
unfolding is_running can_dispatch dequeue_and_dispatch
dispatch_tick request_worker c =
    if not (is_running c)
    then (false, c)
    else if c.is_paused
    then (true, c)
    else if can_dispatch c
    then (true, dequeue_and_dispatch request_worker c)
    else (true, c)

-- How a call of dispatchSlice settles.
pub data Dispatched : Type 0 where
  accepted refused failed : Dispatched

-- `rest` is what is still dispatched.
unfoldable pub dispatch_slice : Dispatched → Slice → List (Slice × String) → Controller → Controller
unfolding enqueue_slice
dispatch_slice accepted slice rest c = record c {
  pending_dispatches = c.pending_dispatches - 1;
  dispatching = rest;
  accepted = c.accepted + 1;
}
dispatch_slice refused slice rest c = record c {
  scheduler = enqueue_slice slice true c.scheduler;
  pending_dispatches = c.pending_dispatches - 1;
  pending_slices = plus c.pending_slices (negsuc 0);
  dispatching = rest;
}
dispatch_slice failed slice rest c = record c {
  pending_dispatches = c.pending_dispatches - 1;
  pending_slices = plus c.pending_slices (negsuc 0);
  dispatching = rest;
}

-- The handlers of a message slice:complete, with success or failure, whichever slice it names.
unfoldable pub slice_complete : Controller → Controller
slice_complete c = record c {
  pending_slices = plus c.pending_slices (negsuc 0);
  completions = c.completions + 1;
}

abbrev pub is_zero : ℤ → Bool
is_zero (pos n) = n == 0
is_zero (negsuc n) = false

unfoldable pub pause : Controller → Controller
unfolding Scheduler.pause
pause c =
    if c.is_paused
    then c
    else record c { is_paused = true; scheduler = Scheduler.pause c.scheduler }

unfoldable pub resume : Controller → Controller
unfolding Scheduler.start
resume c =
    if not c.is_paused
    then c
    else record c { is_paused = false; scheduler = Scheduler.start c.scheduler }

-- Whether `checkPendingSlices` ends.
unfoldable pub pending_slices_done : ℕ → Controller → Bool
pending_slices_done online c = c.is_shutting_down || is_zero c.pending_slices || online == 0
