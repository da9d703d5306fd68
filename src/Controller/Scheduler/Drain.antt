-- ===== src/Controller/Scheduler/Drain.antt =====
-- How the scheduler moves slices from the slicer to its queue, and how it ends:
-- packages/teraslice/lib/workers/execution-controller/scheduler.js from `run` to `shutdown` and from
-- `_processSlicers` on.
use teraslice.Controller.Slice.{Slice, take_slices}
use teraslice.Controller.Recovery
use teraslice.Controller.Recovery.{Recovery, make_recovery, exit_after_complete, starting_positions}
use teraslice.Controller.Scheduler.{
  Scheduler, emit, slicers_registered, slicers_finished, start, active_recovery, queue_remainder,
  pending_slicer_count, can_allocate_slice, can_complete, enqueue_slice, has_id,
}
use teraslice.Base.{
  ℕ, ◌+◌, ◌-◌, String, Bool, true, false, not, ◌||◌, Option, none, some, List, [], ◌∷◌, ◌++◌, map,
  ltb, ◌==◌, if◌then◌else◌, ◌===◌, length, keep_if,
}

-- `slicer().getSlices(max)` of the slicer core.
unfoldable pub slicer_get_slices : ℕ → List Slice → List Slice × List Slice
unfolding take_slices
slicer_get_slices max q =
    let t = take_slices (if ltb (length q) max then length q else max) q in (t.slices, t.rest)

unfoldable pub get_pending_slices : Scheduler → List Slice × Scheduler
unfolding slicer_get_slices queue_remainder Recovery.get_slices
get_pending_slices s =
    if not s.ready then ([], s) else (elim (active_recovery s.recovering s.recover) [
      | some r ↦
          let (slices, r') = Recovery.get_slices (queue_remainder s) r in
          (slices, record s { recover = some r' })
      | none ↦
          let (slices, rest) = slicer_get_slices (queue_remainder s) s.slicer in
          (slices, record s { slicer = rest })
    ])

-- `_ensureSliceState` marks the slice; its request to the state store is in flight.
unfoldable pub ensure_slice_state : ℕ → Slice → Slice
ensure_slice_state now slice = elim slice.created [
  | some t ↦ slice
  | none ↦ record slice { created = some now }
]

unfoldable pub create_slices : ℕ → List Slice → Scheduler → Scheduler
unfolding ensure_slice_state
create_slices now slices s = record s {
  creating = s.creating + length slices;
  in_flight = s.in_flight ++ map (ensure_slice_state now) slices;
}

-- The promise of one slice settles: `rest` is what stays in flight.
unfoldable pub settle : Bool → Slice → List Slice → Scheduler → Scheduler
unfolding enqueue_slice
settle saved slice rest s =
    let s1 = if saved then enqueue_slice slice false s else s in
    record s1 { creating = s1.creating - 1; in_flight = rest }

-- `_drainPendingSlices`, up to its wait.
unfoldable pub drain_pending_slices : Bool → ℕ → Scheduler → Scheduler
unfolding get_pending_slices create_slices
drain_pending_slices once now s =
    let (slices, s1) = get_pending_slices s in
    if length slices == 0
    then s1
    else (let s2 = create_slices now slices s1 in
        if once then s2 else record s2 { again = s2.again + 1 })

-- The second drain of a call with `once` false.
unfoldable pub drain_again : ℕ → Scheduler → Scheduler
unfolding drain_pending_slices
drain_again now s = drain_pending_slices true now (record s { again = s.again - 1 })

-- `_processCleanup`
unfoldable pub cleanup : Scheduler → Scheduler
cleanup s = record s { create_interval = false; handle_interval = false }

-- `onSlicerFinished` and `onSlicerFailure`, up to the wait for their drain.
unfoldable pub on_slicer_finished : ℕ → Scheduler → Scheduler
unfolding cleanup drain_pending_slices
on_slicer_finished now s = drain_pending_slices false now (cleanup s)

-- What follows the wait: the event, and the handler that `run` gave it.
unfoldable pub on_finished_event : Bool → Scheduler → Scheduler
on_finished_event failed s =
    emit (slicers_finished failed)
      (if failed then record s { slicers_failed = true } else record s { slicers_done = true })

-- A run of the handle interval that starts `makeSlices`.
unfoldable pub handle_tick : Scheduler → Scheduler
unfolding can_allocate_slice
handle_tick s =
    if not s.handle_interval || not (can_allocate_slice s)
    then s
    else if s.handling
    then s
    else record s { handling = true }

-- `makeSlices` after `handle()` has answered; `made` is what the slicer enqueued by then.
unfoldable pub make_slices : ℕ → List Slice → Bool → Scheduler → Scheduler
unfolding can_complete on_slicer_finished
make_slices now made finished s =
    let s1 : Scheduler = record s { slicer = s.slicer ++ made; handling = false } in
    if not finished
    then s1
    else (let s2 : Scheduler =
          if not s1.recovering then record s1 { handle_interval = false } else s1 in
        if can_complete s2 then on_slicer_finished now s2 else s2)

unfoldable pub make_slices_failed : ℕ → List Slice → Scheduler → Scheduler
unfolding on_slicer_finished
make_slices_failed now made s =
    on_slicer_finished now (record s { slicer = s.slicer ++ made; handling = false })

-- A run of the create interval.
unfoldable pub create_tick : ℕ → Scheduler → Scheduler
unfolding pending_slicer_count drain_pending_slices
create_tick now s =
    if not s.create_interval || pending_slicer_count s == 0
    then s
    else drain_pending_slices true now s

unfoldable pub stop : ℕ → Scheduler → Scheduler
unfolding cleanup drain_pending_slices
stop now s =
    if s.stopped then s else cleanup (drain_pending_slices false now (record s { stopped = true }))

-- `queue.each` with a callback that removes the visited slice's id, on the list: see `Queue.Walk`.
abbrev pub forget_each : List Slice → List Slice → List Slice
forget_each [] q = q
forget_each (v ∷ vs) q =
    forget_each vs (if v.slice_id === "" then q else keep_if (λ w. not (has_id v.slice_id w)) q)

-- `shutdown`: after `stop` and the shutdown of the recovery each slice is removed from the queue.
unfoldable pub shutdown : ℕ → Scheduler → Scheduler
unfolding stop Recovery.shutdown
shutdown now s =
    let s1 = stop now s in
    let s2 : Scheduler = record s1 {
      recover = elim s1.recover [ none ↦ none | some r ↦ some (Recovery.shutdown r) ];
    } in
    record s2 { queue = forget_each s2.queue s2.queue }

-- `_recoverSlices`, up to the wait for the recovery.
unfoldable pub recover_slices : ℕ → Option String → String → Scheduler → Scheduler
unfolding make_recovery start Recovery.initialize
recover_slices slicers cleanup_type execution s =
    let r : Recovery = elim s.recover [
      | none ↦ make_recovery slicers cleanup_type execution
      | some r ↦ r
    ] in
    start (record (emit (slicers_registered 1) s) {
      recover = some (Recovery.initialize r);
      ready = true;
    })

-- `_recoveryComplete`
unfoldable pub recovery_complete : Recovery → Scheduler → Scheduler
unfolding exit_after_complete cleanup starting_positions
recovery_complete r s =
    let s1 : Scheduler = record s { recovering = false; ready = false } in
    if exit_after_complete r
    then cleanup (record s1 { slicers_done = true })
    else record s1 { starting_points = starting_positions r }

-- `run` once the slicer is initialized.
unfoldable pub run_ready : ℕ → Scheduler → Scheduler
unfolding start
run_ready slicers s = start (record (emit (slicers_registered slicers) s) { ready = true })
