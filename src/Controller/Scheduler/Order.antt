-- ===== src/Controller/Scheduler/Order.antt =====
-- What getSlices and shutdown of packages/teraslice/lib/workers/execution-controller/scheduler.js do to
-- the queue.
use teraslice.Controller.Slice.{Slice, take_slices-append, take_slices-length}
use teraslice.Controller.Scheduler.{Scheduler, get_slices, has_id}
use teraslice.Controller.Scheduler.Drain.{
  stop, shutdown, forget_each, drain_pending_slices, get_pending_slices, create_slices, cleanup,
}
use teraslice.Controller.Scheduler.Bounds.{get_pending_slices_lem}
use teraslice.Controller.Scheduler.Drain.{
  drain_pending_slices, get_pending_slices, create_slices, cleanup,
}
use teraslice.Base.{
  ℕ, String, ◌≡◌, refl, sym, ap, subst, inl, inr, Bool, true, false, not, List, [], ◌∷◌, ◌++◌,
  arith, ◌==◌, if◌then◌else◌, Bool-cases, ◌===◌, ===_iff, length, keep_if, any_of, min,
}

-- The slices that are handed out are the first ones of the queue, in its order; as many as were asked
-- for or as there are; the others stay, in their order.
pub get_slices-take :
    (limit : ℕ) (s : Scheduler)
    → let r = get_slices limit s in
      (r.0 ++ r.1.queue ≡ s.queue) × (length r.0 ≡ min limit (length s.queue))
unfolding get_slices
get_slices-take limit s =
    ground (arith, take_slices-append limit s.queue, take_slices-length limit s.queue)

-- No id is the empty text, which the queue's `remove` does not take.
abbrev pub Named : List Slice → Type 0
Named [] = Unit
Named (s ∷ q) = ((s.slice_id === "") ≡ false) × Named q

keep_if-Named :
    (id : String) (q : List Slice) → Named q → Named (keep_if (λ w. not (has_id id w)) q)
keep_if-Named id [] h = tt
keep_if-Named id (s ∷ q) h = elim (Bool-cases (has_id id s)) [
  | inl k ↦ rw k (keep_if-Named id q h.1)
  | inr k ↦ rw k (h.0, keep_if-Named id q h.1)
]

-- Every slice of `q` has the id of one of `vs`.
abbrev Covered : List Slice → List Slice → Type 0
Covered vs [] = Unit
Covered vs (s ∷ q) = (any_of (λ (v : Slice). has_id v.slice_id s) vs ≡ true) × Covered vs q

keep_if-Covered :
    (v : Slice) (vs q : List Slice)
    → Covered (v ∷ vs) q
    → Covered vs (keep_if (λ w. not (has_id v.slice_id w)) q)
keep_if-Covered v vs [] h = tt
keep_if-Covered v vs (s ∷ q) h = elim (Bool-cases (has_id v.slice_id s)) [
  | inl k ↦ rw k (keep_if-Covered v vs q h.1)
  | inr k ↦ rw k (ground arith, keep_if-Covered v vs q h.1)
]

Covered-more : (v : Slice) (vs q : List Slice) → Covered vs q → Covered (v ∷ vs) q
Covered-more v vs [] h = tt
Covered-more v vs (s ∷ q) h = (ground arith, Covered-more v vs q h.1)

Covered-self : (q : List Slice) → Covered q q
Covered-self [] = tt
Covered-self (s ∷ q) =
    (ground (arith, ===_iff s.slice_id s.slice_id), Covered-more s q q (Covered-self q))

forget_each-empty : (vs q : List Slice) → Named vs → Covered vs q → forget_each vs q ≡ []
forget_each-empty [] [] n h = refl
forget_each-empty [] (s ∷ q) n h = ground arith
forget_each-empty (v ∷ vs) q n h = rw n.0 (
    forget_each-empty vs (keep_if (λ w. not (has_id v.slice_id w)) q) n.1
      (keep_if-Covered v vs q h))

if-queue :
    (t u : Scheduler) (q : List Slice) (b : Bool)
    → t.queue ≡ q
    → u.queue ≡ q
    → (if b then t else u).queue ≡ q
if-queue t u q true h k = h
if-queue t u q false h k = k

drain_queue :
    (once : Bool) (now : ℕ) (s : Scheduler) → (drain_pending_slices once now s).queue ≡ s.queue
unfolding drain_pending_slices create_slices
drain_queue once now s =
    let h : (get_pending_slices s).1.queue ≡ s.queue =
      ap (λ (t : Scheduler). t.queue) ((get_pending_slices_lem s).1) in
    if-queue _ _ s.queue (length (get_pending_slices s).0 == 0) h (if-queue _ _ s.queue once h h)

stop_queue : (now : ℕ) (s : Scheduler) → (stop now s).queue ≡ s.queue
unfolding stop cleanup
stop_queue now s =
    if-queue _ _ s.queue s.stopped refl (drain_queue false now (record s { stopped = true }))

-- A shutdown leaves no slice in the queue, where every queued slice has an id.
pub shutdown-empty : (now : ℕ) (s : Scheduler) → Named s.queue → (shutdown now s).queue ≡ []
unfolding shutdown
shutdown-empty now s n =
    let q = (stop now s).queue in
    forget_each-empty q q (subst Named (sym (stop_queue now s)) n) (Covered-self q)
