-- ===== src/Controller/Scheduler.antt =====
-- The scheduler of slices: packages/teraslice/lib/workers/execution-controller/scheduler.js.
-- The queue is the list that `Queue` is proved to hold. `slicer` is the queue of the slicer core
-- (packages/job-components/src/operations/core/slicer-core.ts); what a slicer puts there is the
-- user's code. `in_flight` holds the slices of `_createSlices` whose promises have not settled,
-- `again` counts the calls of `_drainPendingSlices(false)` that are to drain once more, and
-- `handling` is the `_handling` of the interval that runs the slicers.
pub mod Drain
pub mod Step
pub mod Unique
pub mod Bounds
pub mod Reachable
pub mod Order
pub mod Stopping
pub mod Stranded
use teraslice.Controller.Slice.{Slice, take_slices}
use teraslice.Controller.Recovery
use teraslice.Controller.Recovery.{Recovery, exit_after_complete, starting_positions}
use teraslice.Base.{
  ℕ, zero, suc, ◌+◌, ◌-◌, ◌*◌, ◌≤◌, ◌<◌, String, ◌≡◌, refl, sym, ap, subst, ◌∙◌, ◌≢◌, ◌↔◌, ◌⊎◌, inl,
  inr, Bool, true, false, not, ◌&&◌, ◌||◌, Option, none, some, List, [], ◌∷◌, ◌++◌, map, arith, ltb,
  leb, ◌==◌, if◌then◌else◌, ltb→lt, lt→ltb, leb→le, ==_iff, Bool-cases, Option-cases, ◌===◌,
  ===_iff, length, keep_if, any_of, All, length-append, length-map, length-keep_if-le, All-append,
  Result, ok, err, ◌>>=◌, map_err, map_ok, is_ok, min,
}

-- What the scheduler tells the rest of the controller.
pub data Event : Type 0 where
  slicers_queued : ℕ → Event
  slicers_registered : ℕ → Event
  slice_enqueued : String → Event
  slicers_finished : Bool → Event

pub record Scheduler : Type 0 where
  pub recover_execution : Bool
  pub recovering : Bool
  pub creating : ℕ
  pub ready : Bool
  pub paused : Bool
  pub stopped : Bool
  pub slicers_done : Bool
  pub slicers_failed : Bool
  pub queue : List Slice
  pub starting_points : List ℕ
  pub recover : Option Recovery
  pub slicer : List Slice
  pub max_queue_length : ℕ
  pub lifecycle : String
  pub in_flight : List Slice
  pub again : ℕ
  pub handling : Bool
  pub create_interval : Bool
  pub handle_interval : Bool
  pub events : List Event

-- The constructor, with what the slicer first answers to maxQueueLength: `can_recover` is both tests of it.
unfoldable pub make_scheduler : Bool → ℕ → String → Scheduler
make_scheduler can_recover max lifecycle = record {
  recover_execution = can_recover;
  recovering = can_recover;
  creating = 0;
  ready = false;
  paused = true;
  stopped = false;
  slicers_done = false;
  slicers_failed = false;
  queue = [];
  starting_points = [];
  recover = none;
  slicer = [];
  max_queue_length = max;
  lifecycle = lifecycle;
  in_flight = [];
  again = 0;
  handling = false;
  create_interval = true;
  handle_interval = true;
  events = [];
}

-- The getter asks the slicer each time, whose answer can change: here it is kept in a field.
unfoldable pub set_max_queue_length : ℕ → Scheduler → Scheduler
set_max_queue_length max s = record s { max_queue_length = max }

abbrev pub emit : Event → Scheduler → Scheduler
emit e s = record s { events = e ∷ s.events }

unfoldable pub start : Scheduler → Scheduler
start s = record s { paused = false }

unfoldable pub pause : Scheduler → Scheduler
pause s = record s { paused = true }

-- `this.recovering && this.recover`
abbrev pub active_recovery : Bool → Option Recovery → Option Recovery
active_recovery true r = r
active_recovery false r = none

unfoldable pub pending_slicer_count : Scheduler → ℕ
unfolding Recovery.slice_count
pending_slicer_count s = if not s.ready then 0 else (elim (active_recovery s.recovering s.recover) [
  | some r ↦ Recovery.slice_count r
  | none ↦ length s.slicer
])

unfoldable pub pending_slices : Scheduler → ℕ
pending_slices s = length s.queue + s.creating

unfoldable pub is_queue_full : Scheduler → Bool
unfolding pending_slices pending_slicer_count
is_queue_full s = ltb s.max_queue_length (pending_slices s + pending_slicer_count s)

-- A negative remainder is 0, as subtraction on ℕ has it.
unfoldable pub queue_remainder : Scheduler → ℕ
unfolding pending_slices
queue_remainder s = s.max_queue_length - pending_slices s

unfoldable pub is_finished : Scheduler → Bool
unfolding pending_slices
is_finished s = (s.slicers_done || s.slicers_failed || s.stopped) && pending_slices s == 0

unfoldable pub can_allocate_slice : Scheduler → Bool
unfolding is_queue_full
can_allocate_slice s = s.ready && not s.paused && not (is_queue_full s)

unfoldable pub can_complete : Scheduler → Bool
can_complete s = s.ready && s.lifecycle === "once" && not s.recovering

unfoldable pub is_recovering : Scheduler → Bool
is_recovering s = s.ready && s.recovering

unfoldable pub get_slices : ℕ → Scheduler → List Slice × Scheduler
unfolding take_slices
get_slices limit s =
    if length s.queue == 0
    then ([], s)
    else if ltb limit 1
    then ([], s)
    else (let t = take_slices limit s.queue in
        let s' : Scheduler = record s { queue = t.rest } in
        (
          t.slices,
          if ltb 0 (length t.slices) then emit (slicers_queued (length t.rest)) s' else s',
        ))

abbrev pub has_id : String → Slice → Bool
has_id id s = s.slice_id === id

-- The body of the `forEach` of `enqueueSlices`.
unfoldable pub enqueue_one : Bool → Slice → Scheduler → Scheduler
enqueue_one add_to_start slice s =
    if any_of (has_id slice.slice_id) s.queue
    then s
    else if add_to_start
    then record s { queue = slice ∷ s.queue }
    else emit (slice_enqueued slice.slice_id) (record s { queue = s.queue ++ slice ∷ [] })

abbrev pub enqueue_each : Bool → List Slice → Scheduler → Scheduler
enqueue_each add_to_start [] s = s
enqueue_each add_to_start (slice ∷ l) s =
    enqueue_each add_to_start l (enqueue_one add_to_start slice s)

unfoldable pub enqueue_slices : List Slice → Bool → Scheduler → Scheduler
unfolding enqueue_one
enqueue_slices slices add_to_start s =
    if s.stopped
    then s
    else (let s' = enqueue_each add_to_start slices s in emit (slicers_queued (length s'.queue)) s')

unfoldable pub enqueue_slice : Slice → Bool → Scheduler → Scheduler
unfolding enqueue_slices
enqueue_slice slice add_to_start s = enqueue_slices (slice ∷ []) add_to_start s
