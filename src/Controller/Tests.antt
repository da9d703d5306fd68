-- ===== src/Controller/Tests.antt =====
-- The recovery and the scheduler of packages/teraslice/lib/workers/execution-controller on small runs.
use teraslice.Controller.Slice.{Slice}
use teraslice.Controller.Recovery.{
  initialize, make_recovery, handle, Recovery, enqueue_all, check_batch, slice_complete,
}
use teraslice.Controller.Recovery.Coverage
use teraslice.Controller.Recovery.Coverage.{
  recovery_queries_first, batch_waits, started, AllDone, complete_all,
}
use teraslice.Controller.Scheduler.{
  Scheduler, make_scheduler, set_max_queue_length, pending_slices, enqueue_slice, start, get_slices,
}
use teraslice.Controller.Scheduler.Stranded.{Reach-stranded}
use teraslice.Controller.Scheduler.Drain.{on_slicer_finished, create_tick}
use teraslice.Controller.Scheduler.Step.{creates}
use teraslice.Controller.Scheduler.{queue_remainder}
use teraslice.Controller.Scheduler.Step.{Reach, limits, peak, starts, next, here, gives_back}
use teraslice.Controller.Scheduler.Unique.{Unique}
use teraslice.Controller.Scheduler.Reachable.{Reach-bounded}
use teraslice.Controller.Scheduler.Order.{get_slices-take}
use teraslice.Base.{
  ℕ, ◌+◌, ◌≤◌, String, ◌≡◌, refl, ◌⊎◌, true, false, Option, none, List, [], ◌∷◌, ◌++◌, length, min,
  some,
}

abbrev slice : Slice
slice = record { slice_id = "s1"; slicer_id = 0; slicer_order = 1; request = "{}"; created = none }

abbrev store : String → ℕ → Option String → List Slice
store ex_id slicer cleanup = slice ∷ []

abbrev recovery : Recovery
recovery = record {
  slicers_to_recover = 2;
  cleanup_type = none;
  recover_execution = "e0";
  recover_complete = false;
  is_shutdown = false;
  retry_state = [];
  recovery_queue = [];
  slicer_id = 0;
  handling = none;
  queried = [];
}

-- The recovery while it waits for a batch.
abbrev handling : Recovery
handling = record recovery { handling = some false }

batch_waits_example :
    let r' = complete_all ("s1" ∷ []) (enqueue_all (slice ∷ []) handling) in
    (AllDone ("s1" ∷ []) (slice ∷ []) × ((check_batch r').0.recover_complete ≡ true))
    ⊎ ((r'.is_shutdown ≡ true) × ((check_batch r').0.recover_complete ≡ false))
unfolding check_batch enqueue_all slice_complete complete_all
batch_waits_example = batch_waits (slice ∷ []) ("s1" ∷ []) handling false refl

-- `handle` asks for a slice, the slice succeeds, the wait for the batch ends, and `handle` is called again.
abbrev recovered : Recovery
recovered =
    (handle store
      (check_batch (slice_complete (handle store (started store 2 none "e0")).0 "s1")).0).0

recovery_queries_first_example : (recovered.queried ≡ []) ⊎ (recovered.queried ≡ 0 ∷ [])
unfolding initialize make_recovery handle slice_complete check_batch
recovery_queries_first_example = recovery_queries_first store 2 none "e0" recovered (
    Coverage.next
      (Coverage.next
        (Coverage.next (Coverage.next Coverage.here (Coverage.calls refl))
          (Coverage.completes "s1"))
        (Coverage.checks false refl))
      (Coverage.calls refl))

abbrev queued : Scheduler
queued = record (make_scheduler false 10 "once") { queue = slice ∷ [] }

-- The limit shrinks before a slice is given back.
abbrev shrunk :
    Reach
      (make_scheduler false 10 "once")
      1
      (enqueue_slice slice true (set_max_queue_length 2 (start (make_scheduler false 10 "once"))))
shrunk = gives_back slice (next (next here starts) (limits 2))

Reach-bounded_example :
    let s = start (make_scheduler false 10 "once") in
    let t = enqueue_slice slice true (set_max_queue_length 2 s) in
    Unique t.queue × ((t.creating ≡ length t.in_flight) × (pending_slices t ≤ peak shrunk + 1))
Reach-bounded_example = Reach-bounded false 10 "once" 1 _ shrunk

get_slices-take_example :
    let r = get_slices 3 queued in
    (r.0 ++ r.1.queue ≡ queued.queue) × (length r.0 ≡ min 3 (length queued.queue))
get_slices-take_example = get_slices-take 3 queued

-- The queue has no room, and the slicer still holds a slice.
abbrev full : Scheduler
full = record (make_scheduler false 1 "once") {
  queue = slice ∷ [];
  ready = true;
  slicer = record slice { slice_id = "s2" } ∷ [];
}

Reach-stranded_example :
    let t = create_tick 9 (on_slicer_finished 8 full) in
    (t.slicer ≡ record slice { slice_id = "s2" } ∷ []) ⊎ (t.stopped ≡ true)
unfolding queue_remainder make_scheduler
Reach-stranded_example =
    Reach-stranded 8 full 0 (create_tick 9 (on_slicer_finished 8 full)) refl refl refl refl
      (next here (creates 9))
