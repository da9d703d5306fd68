-- ===== src/Controller/Scheduler/Unique.antt =====
-- No two slices in the queue of packages/teraslice/lib/workers/execution-controller/scheduler.js have one id.
use teraslice.Controller.Slice.{Slice, take_slices}
use teraslice.Controller.Scheduler.{Scheduler, has_id, enqueue_one, enqueue_slice}
use teraslice.Base.{
  ℕ, zero, suc, ◌≤◌, String, ◌≡◌, refl, inl, inr, Bool, true, false, List, [], ◌∷◌, ◌++◌, arith,
  if◌then◌else◌, Bool-cases, ◌===◌, ===_iff, length, any_of, length-append,
}

abbrev pub Unique : List Slice → Type 0
Unique [] = Unit
Unique (s ∷ q) = (any_of (has_id s.slice_id) q ≡ false) × Unique q

any_of-snoc :
    (id : String) (q : List Slice) (s : Slice)
    → any_of (has_id id) q ≡ false
    → (s.slice_id === id) ≡ false
    → any_of (has_id id) (q ++ s ∷ []) ≡ false
any_of-snoc id [] s h k = ground arith
any_of-snoc id (t ∷ q) s h k = ground (arith, any_of-snoc id q s)

pub Unique-snoc :
    (q : List Slice) (s : Slice)
    → any_of (has_id s.slice_id) q ≡ false
    → Unique q
    → Unique (q ++ s ∷ [])
Unique-snoc [] s h u = (refl, tt)
Unique-snoc (t ∷ q) s h u = (
  any_of-snoc t.slice_id q s u.0
      (ground (arith, ===_iff s.slice_id t.slice_id, ===_iff t.slice_id s.slice_id)),
  Unique-snoc q s (ground arith) u.1,
)

pub Unique-take_slices : (n : ℕ) (q : List Slice) → Unique q → Unique (take_slices n q).rest
unfolding take_slices
Unique-take_slices zero q u = u
Unique-take_slices (suc n) [] u = tt
Unique-take_slices (suc n) (s ∷ q) u = Unique-take_slices n q u.1

-- What `enqueueSlice` does to the queue: nothing, or it adds the slice at one end.
pub data Enqueued (slice : Slice) (q : List Slice) : List Slice → Type 0 where
  refused : Enqueued slice q q
  first : any_of (has_id slice.slice_id) q ≡ false → Enqueued slice q (slice ∷ q)
  last : any_of (has_id slice.slice_id) q ≡ false → Enqueued slice q (q ++ slice ∷ [])

enqueue_one-Enqueued :
    (slice : Slice) (add_to_start : Bool) (s : Scheduler)
    → Enqueued slice s.queue (enqueue_one add_to_start slice s).queue
unfolding enqueue_one
enqueue_one-Enqueued slice true s = elim (Bool-cases (any_of (has_id slice.slice_id) s.queue)) [
  | inl h ↦ rw h refused
  | inr h ↦ rw h (first h)
]
enqueue_one-Enqueued slice false s = elim (Bool-cases (any_of (has_id slice.slice_id) s.queue)) [
  | inl h ↦ rw h refused
  | inr h ↦ rw h (last h)
]

if-Enqueued :
    {slice : Slice} {q r : List Slice} (stopped : Bool)
    → Enqueued slice q r
    → Enqueued slice q (if stopped then q else r)
if-Enqueued true e = refused
if-Enqueued false e = e

enqueue_slice_queue :
    (slice : Slice) (add_to_start : Bool) (s : Scheduler)
    → (enqueue_slice slice add_to_start s).queue
      ≡ (if s.stopped then s.queue else (enqueue_one add_to_start slice s).queue)
unfolding enqueue_slice
enqueue_slice_queue slice add_to_start s = ground arith

pub enqueue_slice-Enqueued :
    (slice : Slice) (add_to_start : Bool) (s : Scheduler)
    → Enqueued slice s.queue (enqueue_slice slice add_to_start s).queue
enqueue_slice-Enqueued slice add_to_start s =
    rw (enqueue_slice_queue slice add_to_start s)
      (if-Enqueued s.stopped (enqueue_one-Enqueued slice add_to_start s))

-- Nothing else of the state changes but the events.
pub enqueue_slice_rest :
    (slice : Slice) (add_to_start : Bool) (s : Scheduler)
    → let t = enqueue_slice slice add_to_start s in
      t ≡ record s { queue = t.queue; events = t.events }
unfolding enqueue_slice
enqueue_slice_rest slice add_to_start s = ground arith

pub Enqueued-Unique : {slice : Slice} {q r : List Slice} → Enqueued slice q r → Unique q → Unique r
Enqueued-Unique refused u = u
Enqueued-Unique (first h) u = (h, u)
Enqueued-Unique {slice} {q} (last h) u = Unique-snoc q slice h u

pub Enqueued-le :
    {slice : Slice} {q r : List Slice} → Enqueued slice q r → length r ≤ suc (length q)
Enqueued-le refused = omega arith
Enqueued-le (first h) = omega arith
Enqueued-le {slice} {q} (last h) = omega (arith, length-append q (slice ∷ []))
