-- ===== src/Controller/Scheduler/Step.antt =====
-- Every interleaving of the callbacks of packages/teraslice/lib/workers/execution-controller/scheduler.js.
use teraslice.Controller.Slice.{Slice}
use teraslice.Controller.Recovery.{Recovery}
use teraslice.Controller.Scheduler.{
  Scheduler, set_max_queue_length, start, pause, get_slices, enqueue_slice,
}
use teraslice.Controller.Scheduler.Drain.{
  settle, drain_again, on_finished_event, handle_tick, make_slices, make_slices_failed, create_tick,
  stop, recover_slices, recovery_complete, run_ready,
}
use teraslice.Base.{
  ℕ, suc, ◌<◌, String, ◌≡◌, Bool, true, Option, some, List, ◌∷◌, ◌++◌, ltb, if◌then◌else◌,
}

-- `recovers` lets the recovery change in any way, `limits` the answer of the slicer's maxQueueLength.
pub data Step (s : Scheduler) : Scheduler → Type 0 where
  starts : Step s (start s)
  pauses : Step s (pause s)
  runs : (slicers : ℕ) → Step s (run_ready slicers s)
  handles : Step s (handle_tick s)
  makes :
      (now : ℕ) (made : List Slice) (finished : Bool)
      → s.handling ≡ true
      → Step s (make_slices now made finished s)
  fails : (now : ℕ) (made : List Slice) → s.handling ≡ true → Step s (make_slices_failed now made s)
  creates : (now : ℕ) → Step s (create_tick now s)
  drains : (now : ℕ) → 0 < s.again → Step s (drain_again now s)
  settles :
      (saved : Bool) (before after : List Slice) (slice : Slice)
      → s.in_flight ≡ before ++ slice ∷ after
      → Step s (settle saved slice (before ++ after) s)
  finishes : (failed : Bool) → Step s (on_finished_event failed s)
  gives : (limit : ℕ) → Step s (get_slices limit s).1
  stops : (now : ℕ) → Step s (stop now s)
  recovery_starts :
      (slicers : ℕ) (cleanup_type : Option String) (execution : String)
      → Step s (recover_slices slicers cleanup_type execution s)
  recovers : (r : Recovery) → Step s (record s { recover = some r })
  recovery_ends : (r : Recovery) → Step s (recovery_complete r s)
  limits : (max : ℕ) → Step s (set_max_queue_length max s)

-- The execution controller may also give a dispatched slice back, to the start of the queue. The
-- number counts the slices that were given back.
pub data Reach (s : Scheduler) : ℕ → Scheduler → Type 0 where
  here : Reach s 0 s
  next : {n : ℕ} {t u : Scheduler} → Reach s n t → Step t u → Reach s n u
  gives_back :
      {n : ℕ} {t : Scheduler} (slice : Slice)
      → Reach s n t
      → Reach s (suc n) (enqueue_slice slice true t)

-- The highest of the limits that the slicer has given on the way.
abbrev pub peak : {s t : Scheduler} {n : ℕ} → Reach s n t → ℕ
peak {s} here = s.max_queue_length
peak (next {u = u} r p) =
    let m = peak r in if ltb m u.max_queue_length then u.max_queue_length else m
peak (gives_back slice r) = peak r
