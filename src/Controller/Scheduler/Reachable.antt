-- ===== src/Controller/Scheduler/Reachable.antt =====
-- The bound on the queue of packages/teraslice/lib/workers/execution-controller/scheduler.js along every
-- interleaving.
use teraslice.Controller.Recovery.{exit_after_complete}
use teraslice.Controller.Scheduler.{
  Scheduler, make_scheduler, start, pending_slices, pause, can_allocate_slice, pending_slicer_count,
}
use teraslice.Controller.Scheduler.Drain.{
  drain_again, cleanup, on_finished_event, handle_tick, make_slices_failed, create_tick, stop,
  recover_slices, recovery_complete, run_ready,
}
use teraslice.Controller.Scheduler.Unique.{Unique}
use teraslice.Base.{
  ℕ, ◌+◌, ◌≤◌, String, ◌≡◌, refl, Bool, true, false, not, ◌||◌, ◌++◌, ◌==◌, length, arith,
}
use teraslice.Controller.Scheduler.Step.{
  Reach, next, Step, gives_back, runs, makes, fails, creates, drains, settles, finishes, gives,
  stops, recovery_starts, recovers, recovery_ends, limits, peak,
}
use teraslice.Controller.Scheduler.Bounds.{
  Inv, make_scheduler-Inv, if-Inv, drain_pending_slices-Inv, settle-Inv, gives_back-Inv,
  get_slices-Inv, finish-Inv, make_slices-Inv, Same-Inv, Inv-le, limits-Inv,
}
use teraslice.Controller.Scheduler.Step.{
  Step, Reach, starts, pauses, runs, handles, makes, fails, creates, drains, settles, finishes,
  gives, stops, recovery_starts, recovers, recovery_ends, here, next, gives_back,
}
use teraslice.Controller.Scheduler.{
  pending_slices, can_allocate_slice, pending_slicer_count, start, pause, set_max_queue_length,
}

pub Step-Inv :
    {max n : ℕ} {s t : Scheduler} → Step s t → t.max_queue_length ≤ max → Inv max n s → Inv max n t
unfolding set_max_queue_length start pause run_ready handle_tick make_slices_failed create_tick
    drain_again on_finished_event stop cleanup recover_slices recovery_complete
Step-Inv starts g i = Same-Inv (refl, refl, refl, refl) i
Step-Inv pauses g i = Same-Inv (refl, refl, refl, refl) i
Step-Inv (runs slicers) g i = Same-Inv (refl, refl, refl, refl) i
Step-Inv {s = s} handles g i =
    if-Inv (not s.handle_interval || not (can_allocate_slice s)) (λ _. i)
      (λ _. if-Inv s.handling (λ _. i) (λ _. Same-Inv (refl, refl, refl, refl) i))
Step-Inv {max} {n} {s} (makes now made finished h) g i = make_slices-Inv now made finished max n s i
Step-Inv {max} {n} {s} (fails now made h) g i =
    finish-Inv now max n (record s { slicer = s.slicer ++ made; handling = false })
      (Same-Inv (refl, refl, refl, refl) i)
Step-Inv {max} {n} {s} (creates now) g i =
    if-Inv (not s.create_interval || pending_slicer_count s == 0) (λ _. i)
      (λ _. drain_pending_slices-Inv true now max n s i)
Step-Inv {max} {n} (drains now h) g i =
    drain_pending_slices-Inv true now max n _ (Same-Inv (refl, refl, refl, refl) i)
Step-Inv {max} {n} {s} (settles saved before after slice h) g i =
    settle-Inv saved before after slice max n s h i
Step-Inv (finishes true) g i = Same-Inv (refl, refl, refl, refl) i
Step-Inv (finishes false) g i = Same-Inv (refl, refl, refl, refl) i
Step-Inv {max} {n} {s} (gives limit) g i = get_slices-Inv limit max n s i
Step-Inv {max} {n} {s} (stops now) g i =
    if-Inv s.stopped (λ _. i)
      (λ _.
        Same-Inv (refl, refl, refl, refl)
          (drain_pending_slices-Inv false now max n _ (Same-Inv (refl, refl, refl, refl) i)))
Step-Inv (recovery_starts slicers cleanup_type execution) g i = Same-Inv (refl, refl, refl, refl) i
Step-Inv (recovers r) g i = Same-Inv (refl, refl, refl, refl) i
Step-Inv (recovery_ends r) g i =
    if-Inv (exit_after_complete r) (λ _. Same-Inv (refl, refl, refl, refl) i)
      (λ _. Same-Inv (refl, refl, refl, refl) i)
Step-Inv {max} {n} {s} (limits limit) g i = limits-Inv limit max n s g i

Reach-Inv :
    {max : ℕ} {s : Scheduler}
    → Inv max 0 s
    → {n : ℕ} {t : Scheduler} (r : Reach s n t) → peak r ≤ max
    → Inv max n t
Reach-Inv i here h = i
Reach-Inv i (next r p) h = Step-Inv p (ground (arith, h)) (Reach-Inv i r (ground (arith, h)))
Reach-Inv {max} i (gives_back {n} {t} slice r) h = gives_back-Inv slice max n t (Reach-Inv i r h)

start-peak : {s t : Scheduler} {n : ℕ} (r : Reach s n t) → s.max_queue_length ≤ peak r
start-peak here = omega arith
start-peak (next r p) = ground (arith, start-peak r)
start-peak (gives_back slice r) = start-peak r

start-peak_of :
    (can_recover : Bool) (max : ℕ) (lifecycle : String) {t : Scheduler} {n : ℕ}
    (r : Reach (make_scheduler can_recover max lifecycle) n t)
    → max ≤ peak r
unfolding make_scheduler
start-peak_of can_recover max lifecycle r = start-peak r

-- Whatever order the callbacks run in, from the constructor on, and however the slicer's limit changes
-- between them: no two queued slices have one id, the count of slices being created is the number in
-- flight, and the queue with those never exceeds the highest limit so far by more than the number of
-- slices that were given back to its start.
pub Reach-bounded :
    (can_recover : Bool) (max : ℕ) (lifecycle : String) (n : ℕ) (t : Scheduler)
    (r : Reach (make_scheduler can_recover max lifecycle) n t)
    → Unique t.queue × ((t.creating ≡ length t.in_flight) × (pending_slices t ≤ peak r + n))
unfolding pending_slices
Reach-bounded can_recover max lifecycle n t r =
    let i =
      Reach-Inv
        (Inv-le (start-peak_of can_recover max lifecycle r)
          (make_scheduler-Inv can_recover max lifecycle))
        r (omega arith) in
    (i.unique, (i.counted, i.bounded))
