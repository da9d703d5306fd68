-- ===== src/Controller/Scheduler/Stopping.antt =====
-- A scheduler that has stopped stays so: packages/teraslice/lib/workers/execution-controller/scheduler.js.
use teraslice.Controller.Slice.{Slice, take_slices}
use teraslice.Controller.Recovery.{exit_after_complete}
use teraslice.Controller.Scheduler.{
  Scheduler, start, pause, get_slices, enqueue_slice, pending_slicer_count, can_allocate_slice,
  can_complete,
}
use teraslice.Controller.Scheduler.Drain.{
  on_slicer_finished, drain_pending_slices, get_pending_slices, cleanup, create_slices, settle,
  on_finished_event, handle_tick, make_slices, make_slices_failed, create_tick, drain_again, stop,
  recover_slices, recovery_complete, run_ready,
}
use teraslice.Controller.Scheduler.Bounds.{get_pending_slices_lem}
use teraslice.Controller.Scheduler.Unique.{enqueue_slice_rest}
use teraslice.Controller.Scheduler.{set_max_queue_length}
use teraslice.Controller.Scheduler.Step.{
  limits, Step, starts, pauses, runs, handles, makes, fails, creates, drains, settles, finishes,
  gives, stops, recovery_starts, recovers, recovery_ends,
}
use teraslice.Base.{
  ℕ, ◌-◌, ◌≡◌, refl, ap, ◌∙◌, Bool, true, false, not, ◌||◌, List, ◌++◌, ltb, ◌==◌, if◌then◌else◌,
  length,
}

pub record Stopped (s : Scheduler) : Type 0 where
  pub holds : s.stopped ≡ true

keep : {s t : Scheduler} → t.stopped ≡ s.stopped → Stopped s → Stopped t
keep e h = record { holds = e ∙ h.holds }

if-Stopped : {s t : Scheduler} (b : Bool) → Stopped s → Stopped t → Stopped (if b then s else t)
if-Stopped true h k = h
if-Stopped false h k = k

pair-Stopped :
    (p q : List Slice × Scheduler) (b : Bool)
    → Stopped p.1
    → Stopped q.1
    → Stopped (if b then p else q).1
pair-Stopped p q true h k = h
pair-Stopped p q false h k = k

drain-Stopped :
    (once : Bool) (now : ℕ) (s : Scheduler) → Stopped s → Stopped (drain_pending_slices once now s)
unfolding drain_pending_slices create_slices
drain-Stopped once now s h =
    let k : Stopped (get_pending_slices s).1 =
      keep (ap (λ (t : Scheduler). t.stopped) ((get_pending_slices_lem s).1)) h in
    if-Stopped (length (get_pending_slices s).0 == 0) k
      (if-Stopped once (keep refl k) (keep refl k))

pub enqueue_slice-Stopped :
    (slice : Slice) (add_to_start : Bool) (s : Scheduler)
    → Stopped s
    → Stopped (enqueue_slice slice add_to_start s)
enqueue_slice-Stopped slice add_to_start s h =
    keep (ap (λ (t : Scheduler). t.stopped) (enqueue_slice_rest slice add_to_start s)) h

get_slices-Stopped : (limit : ℕ) (s : Scheduler) → Stopped s → Stopped (get_slices limit s).1
unfolding get_slices
get_slices-Stopped limit s h = pair-Stopped _ _ (length s.queue == 0) h (
    pair-Stopped _ _ (ltb limit 1) h
      (if-Stopped (ltb 0 (length (take_slices limit s.queue).slices)) (keep refl h) (keep refl h)))

make_slices-Stopped :
    (now : ℕ) (made : List Slice) (finished : Bool) (s : Scheduler)
    → Stopped s
    → Stopped (make_slices now made finished s)
unfolding make_slices on_slicer_finished cleanup
make_slices-Stopped now made finished s h =
    let s1 : Scheduler = record s { slicer = s.slicer ++ made; handling = false } in
    let s2 : Scheduler = if not s1.recovering then record s1 { handle_interval = false } else s1 in
    let k1 : Stopped s1 = keep refl h in
    let k2 : Stopped s2 = if-Stopped (not s1.recovering) (keep refl h) k1 in
    if-Stopped (not finished) k1
      (if-Stopped (can_complete s2) (drain-Stopped false now (cleanup s2) (keep refl k2)) k2)

pub Step-Stopped : {s t : Scheduler} → Step s t → Stopped s → Stopped t
unfolding set_max_queue_length start pause run_ready handle_tick make_slices_failed
    on_slicer_finished create_tick drain_again on_finished_event stop cleanup recover_slices
    recovery_complete settle
Step-Stopped starts h = keep refl h
Step-Stopped pauses h = keep refl h
Step-Stopped (limits max) h = keep refl h
Step-Stopped (runs slicers) h = keep refl h
Step-Stopped {s} handles h =
    if-Stopped (not s.handle_interval || not (can_allocate_slice s)) h
      (if-Stopped s.handling h (keep refl h))
Step-Stopped {s} (makes now made finished g) h = make_slices-Stopped now made finished s h
Step-Stopped {s} (fails now made g) h =
    drain-Stopped false now (cleanup (record s { slicer = s.slicer ++ made; handling = false }))
      (keep refl h)
Step-Stopped {s} (creates now) h =
    if-Stopped (not s.create_interval || pending_slicer_count s == 0) h (drain-Stopped true now s h)
Step-Stopped {s} (drains now g) h =
    drain-Stopped true now (record s { again = s.again - 1 }) (keep refl h)
Step-Stopped {s} (settles true before after slice g) h =
    keep refl (enqueue_slice-Stopped slice false s h)
Step-Stopped (settles false before after slice g) h = keep refl h
Step-Stopped (finishes true) h = keep refl h
Step-Stopped (finishes false) h = keep refl h
Step-Stopped {s} (gives limit) h = get_slices-Stopped limit s h
Step-Stopped {s} (stops now) h =
    if-Stopped s.stopped h
      (keep refl (drain-Stopped false now (record s { stopped = true }) (record { holds = refl })))
Step-Stopped (recovery_starts slicers cleanup_type execution) h = keep refl h
Step-Stopped (recovers r) h = keep refl h
Step-Stopped (recovery_ends r) h = if-Stopped (exit_after_complete r) (keep refl h) (keep refl h)

stopped_or :
    {s t : Scheduler} (b : Bool) → (b ≡ true → Stopped s) → Stopped t → Stopped (if b then s else t)
stopped_or true h k = h refl
stopped_or false h k = k

pub stop-Stopped : (now : ℕ) (s : Scheduler) → Stopped (stop now s)
unfolding stop cleanup
stop-Stopped now s =
    stopped_or s.stopped (λ h. record { holds = h })
      (keep refl (drain-Stopped false now (record s { stopped = true }) (record { holds = refl })))
