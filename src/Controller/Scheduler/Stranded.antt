-- ===== src/Controller/Scheduler/Stranded.antt =====
-- The slices that are still with the slicer when the slicers finish:
-- packages/teraslice/lib/workers/execution-controller/scheduler.js, onSlicerFinished and what runs after it.
use teraslice.Controller.Slice.{Slice, take_slices}
use teraslice.Controller.Recovery.{exit_after_complete}
use teraslice.Controller.Scheduler.{
  Scheduler, start, pause, queue_remainder, get_slices, enqueue_slice, pending_slicer_count,
  can_allocate_slice,
}
use teraslice.Controller.Scheduler.Drain.{
  on_slicer_finished, drain_pending_slices, get_pending_slices, slicer_get_slices, cleanup, settle,
  on_finished_event, handle_tick, create_tick, recover_slices, recovery_complete, run_ready,
}
use teraslice.Controller.Scheduler.Bounds.{get_pending_slices_lem}
use teraslice.Controller.Scheduler.Unique.{enqueue_slice_rest}
use teraslice.Controller.Scheduler.{set_max_queue_length}
use teraslice.Controller.Scheduler.Step.{
  limits, Step, Reach, starts, pauses, runs, handles, makes, fails, creates, drains, settles,
  finishes, gives, stops, recovery_starts, recovers, recovery_ends, here, next, gives_back,
}
use teraslice.Base.{
  ℕ, ◌≡◌, refl, ap, ◌∙◌, ◌⊎◌, inl, inr, Bool, true, false, not, ◌||◌, List, arith, ltb, ◌==◌,
  if◌then◌else◌, Bool-cases, length,
}
use teraslice.Controller.Scheduler.Stopping.{
  Stopped, Step-Stopped, stop-Stopped, enqueue_slice-Stopped,
}

-- Neither interval runs, no drain is left, and the slicer still holds `rest`.
record Over (rest : List Slice) (s : Scheduler) : Type 0 where
  handling : s.handling ≡ false
  create : s.create_interval ≡ false
  handle : s.handle_interval ≡ false
  again : s.again ≡ 0
  slicer : s.slicer ≡ rest

over :
    {rest : List Slice} {s t : Scheduler}
    → (t.handling ≡ s.handling)
      × (t.create_interval ≡ s.create_interval)
      × (t.handle_interval ≡ s.handle_interval)
      × (t.again ≡ s.again)
      × (t.slicer ≡ s.slicer)
    → Over rest s
    → Over rest t
over e o = record {
  handling = e.0 ∙ o.handling;
  create = e.1 ∙ o.create;
  handle = e.2 ∙ o.handle;
  again = e.3 ∙ o.again;
  slicer = e.4 ∙ o.slicer;
}

if-Over :
    {rest : List Slice} {s t : Scheduler} (b : Bool)
    → (b ≡ true → Over rest s)
    → (b ≡ false → Over rest t)
    → Over rest (if b then s else t)
if-Over true h k = h refl
if-Over false h k = k refl

pair-Over :
    {rest : List Slice} (p q : List Slice × Scheduler) (b : Bool)
    → Over rest p.1
    → Over rest q.1
    → Over rest (if b then p else q).1
pair-Over p q true h k = h
pair-Over p q false h k = k

enqueue_slice-Over :
    {rest : List Slice} (slice : Slice) (add_to_start : Bool) (s : Scheduler)
    → Over rest s
    → Over rest (enqueue_slice slice add_to_start s)
enqueue_slice-Over slice add_to_start s o =
    rw (enqueue_slice_rest slice add_to_start s) (over (refl, refl, refl, refl, refl) o)

get_slices-Over :
    {rest : List Slice} (limit : ℕ) (s : Scheduler) → Over rest s → Over rest (get_slices limit s).1
unfolding get_slices
get_slices-Over limit s o = pair-Over _ _ (length s.queue == 0) o (
    pair-Over _ _ (ltb limit 1) o (
      if-Over (ltb 0 (length (take_slices limit s.queue).slices))
        (λ _. over (refl, refl, refl, refl, refl) o) (λ _. over (refl, refl, refl, refl, refl) o)))

-- What a step of a scheduler that is over leads to.
Kept : List Slice → Scheduler → Type 0
Kept rest s = Over rest s ⊎ Stopped s

Step-Over : {rest : List Slice} {s t : Scheduler} → Step s t → Over rest s → Kept rest t
unfolding Kept set_max_queue_length start pause run_ready handle_tick create_tick on_finished_event
    cleanup recover_slices recovery_complete settle
Step-Over starts o = inl (over (refl, refl, refl, refl, refl) o)
Step-Over pauses o = inl (over (refl, refl, refl, refl, refl) o)
Step-Over (limits max) o = inl (over (refl, refl, refl, refl, refl) o)
Step-Over (runs slicers) o = inl (over (refl, refl, refl, refl, refl) o)
Step-Over {rest} {s} handles o = inl (
    if-Over (not s.handle_interval || not (can_allocate_slice s)) (λ _. o)
      (λ b. absurd (ground (arith, o.handle))))
Step-Over (makes now made finished g) o = absurd (ground (arith, o.handling))
Step-Over (fails now made g) o = absurd (ground (arith, o.handling))
Step-Over {rest} {s} (creates now) o = inl (
    if-Over (not s.create_interval || pending_slicer_count s == 0) (λ _. o)
      (λ b. absurd (ground (arith, o.create))))
Step-Over (drains now g) o = absurd (ground (arith, o.again))
Step-Over {rest} {s} (settles true before after slice g) o =
    inl (over (refl, refl, refl, refl, refl) (enqueue_slice-Over slice false s o))
Step-Over (settles false before after slice g) o = inl (over (refl, refl, refl, refl, refl) o)
Step-Over (finishes true) o = inl (over (refl, refl, refl, refl, refl) o)
Step-Over (finishes false) o = inl (over (refl, refl, refl, refl, refl) o)
Step-Over {rest} {s} (gives limit) o = inl (get_slices-Over limit s o)
Step-Over {rest} {s} (stops now) o = inr (stop-Stopped now s)
Step-Over (recovery_starts slicers cleanup_type execution) o =
    inl (over (refl, refl, refl, refl, refl) o)
Step-Over (recovers r) o = inl (over (refl, refl, refl, refl, refl) o)
Step-Over {rest} {s} (recovery_ends r) o = inl (
    if-Over (exit_after_complete r)
      (λ _. record {
        handling = o.handling;
        create = refl;
        handle = refl;
        again = o.again;
        slicer = o.slicer;
      })
      (λ _. over (refl, refl, refl, refl, refl) o))

Step-Kept : (rest : List Slice) {s t : Scheduler} → Step s t → Kept rest s → Kept rest t
unfolding Kept
Step-Kept rest p (inl o) = Step-Over p o
Step-Kept rest p (inr h) = inr (Step-Stopped p h)

Reach-Kept :
    {rest : List Slice} {s : Scheduler}
    → Over rest s
    → {n : ℕ} {t : Scheduler} → Reach s n t
    → Kept rest t
unfolding Kept
Reach-Kept o here = inl o
Reach-Kept o (next r p) = Step-Kept _ p (Reach-Kept o r)
Reach-Kept o (gives_back {n} {t} slice r) = elim (Reach-Kept o r) [
  | inl k ↦ inl (enqueue_slice-Over slice true t k)
  | inr h ↦ inr (enqueue_slice-Stopped slice true t h)
]

slicer_get_slices-zero : (q : List Slice) → (slicer_get_slices 0 q).1 ≡ q
unfolding slicer_get_slices take_slices
slicer_get_slices-zero q = elim (Bool-cases (ltb (length q) 0)) [
  | inl h ↦ absurd (ground arith)
  | inr h ↦ rw h refl
]

get_pending_slices-full :
    (s : Scheduler)
    → s.recovering ≡ false
    → queue_remainder s ≡ 0
    → (get_pending_slices s).1.slicer ≡ s.slicer
unfolding get_pending_slices
get_pending_slices-full s h r = elim (Bool-cases s.ready) [
  | inl k ↦ ground (arith, h, k, r, slicer_get_slices-zero s.slicer)
  | inr k ↦ ground arith
]

-- With no room in the queue, finishing the slicers fetches nothing.
on_slicer_finished-Over :
    (now : ℕ) (s : Scheduler)
    → s.recovering ≡ false
    → s.handling ≡ false
    → s.again ≡ 0
    → queue_remainder s ≡ 0
    → Over s.slicer (on_slicer_finished now s)
unfolding on_slicer_finished drain_pending_slices cleanup queue_remainder
on_slicer_finished-Over now s h k a r =
    let c : Scheduler = cleanup s in
    let p = get_pending_slices c in
    let l = get_pending_slices_lem c in
    if-Over (length p.0 == 0)
      (λ _. record {
        handling = ap (λ (t : Scheduler). t.handling) l.1 ∙ k;
        create = ap (λ (t : Scheduler). t.create_interval) l.1;
        handle = ap (λ (t : Scheduler). t.handle_interval) l.1;
        again = ap (λ (t : Scheduler). t.again) l.1 ∙ a;
        slicer = get_pending_slices-full c h r;
      })
      (λ b. absurd (ground (arith, l.0, r)))

-- Where the slicers finish while the queue has no room, whatever runs afterwards, in whatever order and
-- however often: the slices that the slicer still holds stay there, until the scheduler is stopped.
pub Reach-stranded :
    (now : ℕ) (s : Scheduler) (n : ℕ) (t : Scheduler)
    → s.recovering ≡ false
    → s.handling ≡ false
    → s.again ≡ 0
    → queue_remainder s ≡ 0
    → Reach (on_slicer_finished now s) n t
    → (t.slicer ≡ s.slicer) ⊎ (t.stopped ≡ true)
unfolding Kept
Reach-stranded now s n t h k a r w = elim (Reach-Kept (on_slicer_finished-Over now s h k a r) w) [
  | inl o ↦ inl o.slicer
  | inr g ↦ inr g.holds
]
