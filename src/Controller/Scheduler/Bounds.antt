-- ===== src/Controller/Scheduler/Bounds.antt =====
-- The bound on the queue of packages/teraslice/lib/workers/execution-controller/scheduler.js, and its
-- count of the slices that are being created.
use teraslice.Controller.Slice.{Slice, take_slices, take_slices-length}
use teraslice.Controller.Recovery
use teraslice.Controller.Recovery.{Recovery, exit_after_complete}
use teraslice.Controller.Scheduler.{
  Scheduler, set_max_queue_length, make_scheduler, active_recovery, queue_remainder, enqueue_slice,
  get_slices, Event, can_complete,
}
use teraslice.Controller.Scheduler.Drain.{
  slicer_get_slices, get_pending_slices, create_slices, settle, drain_pending_slices, cleanup,
  on_slicer_finished, make_slices, ensure_slice_state,
}
use teraslice.Controller.Scheduler.Unique.{
  Unique, Unique-take_slices, Enqueued, enqueue_slice-Enqueued, Enqueued-Unique, Enqueued-le,
  enqueue_slice_rest, refused,
}
use teraslice.Base.{
  ℕ, suc, ◌+◌, ◌-◌, ◌≤◌, String, ◌≡◌, refl, sym, ap, subst, inl, inr, Bool, true, false, not, List,
  ◌∷◌, ◌++◌, map, arith, ltb, ◌==◌, if◌then◌else◌, Bool-cases, Option-cases, length, length-append,
  length-map,
}

-- With limits of at most `max` and `n` slices that were given back.
pub record Inv (max n : ℕ) (s : Scheduler) : Type 0 where
  pub unique : Unique s.queue
  pub counted : s.creating ≡ length s.in_flight
  pub bounded : length s.queue + s.creating ≤ max + n
  pub limit : s.max_queue_length ≤ max

pub make_scheduler-Inv :
    (can_recover : Bool) (max : ℕ) (lifecycle : String)
    → Inv max 0 (make_scheduler can_recover max lifecycle)
unfolding make_scheduler
make_scheduler-Inv can_recover max lifecycle = record {
  unique = tt;
  counted = refl;
  bounded = omega arith;
  limit = omega arith;
}

-- A higher bound on the limits does as well.
pub Inv-le : {max max' n : ℕ} {s : Scheduler} → max ≤ max' → Inv max n s → Inv max' n s
Inv-le h i = record {
  unique = i.unique;
  counted = i.counted;
  bounded = omega (arith, h, i.bounded);
  limit = omega (arith, h, i.limit);
}

pub limits-Inv :
    (limit max n : ℕ) (s : Scheduler)
    → limit ≤ max
    → Inv max n s
    → Inv max n (set_max_queue_length limit s)
unfolding set_max_queue_length
limits-Inv limit max n s h i = record {
  unique = i.unique;
  counted = i.counted;
  bounded = i.bounded;
  limit = h;
}

slicer_get_slices-le : (max : ℕ) (q : List Slice) → length (slicer_get_slices max q).0 ≤ max
unfolding slicer_get_slices
slicer_get_slices-le max q =
    ground (arith, take_slices-length (if ltb (length q) max then length q else max) q)

recovery_get_slices-le : (max : ℕ) (r : Recovery) → length (Recovery.get_slices max r).0 ≤ max
unfolding Recovery.get_slices
recovery_get_slices-le max r = ground (
  arith,
  take_slices-length (if ltb (length r.recovery_queue) max then length r.recovery_queue else max)
      r.recovery_queue,
)

-- At most as many slices are fetched as the queue has room for; only where they came from changes.
pub get_pending_slices_lem :
    (s : Scheduler)
    → let r = get_pending_slices s in
      (length r.0 ≤ queue_remainder s)
      × (r.1 ≡ record s { slicer = r.1.slicer; recover = r.1.recover })
unfolding get_pending_slices
get_pending_slices_lem s = elim (Bool-cases s.ready) [
  | inl h ↦ elim (Option-cases (active_recovery s.recovering s.recover)) [
    | inl k ↦ ground (arith, slicer_get_slices-le (queue_remainder s) s.slicer)
    | inr (r, k) ↦ ground (arith, recovery_get_slices-le (queue_remainder s) r)
  ]
  | inr h ↦ ground arith
]

-- A change that leaves the queue, the counters and the limit alone.
abbrev Same : Scheduler → Scheduler → Type 0
Same s t =
    (t.queue ≡ s.queue)
    × (t.creating ≡ s.creating)
    × (t.in_flight ≡ s.in_flight)
    × (t.max_queue_length ≡ s.max_queue_length)

pub Same-Inv : {max n : ℕ} {s t : Scheduler} → Same s t → Inv max n s → Inv max n t
Same-Inv {max} {n} {s} {t} h i = record {
  unique = rw h.0 i.unique;
  counted = ground (arith, h.1, h.2, i.counted);
  bounded = rw (h.0, h.1) i.bounded;
  limit = omega (arith, h.3, i.limit);
}

get_pending_slices-Same : (s : Scheduler) → Same s (get_pending_slices s).1
get_pending_slices-Same s = rw ((get_pending_slices_lem s).1) (refl, refl, refl, refl)

get_pending_slices_room :
    (s : Scheduler) → length (get_pending_slices s).0 ≤ queue_remainder (get_pending_slices s).1
unfolding queue_remainder
get_pending_slices_room s =
    let l = get_pending_slices_lem s in
    subst (λ t. length (get_pending_slices s).0 ≤ queue_remainder t) (sym l.1) l.0

pub create_slices-Inv :
    (now max n : ℕ) (slices : List Slice) (s : Scheduler)
    → length slices ≤ queue_remainder s
    → Inv max n s
    → Inv max n (create_slices now slices s)
unfolding create_slices queue_remainder
create_slices-Inv now max n slices s h i = record {
  unique = i.unique;
  counted = ground (
    arith,
    length-append s.in_flight (map (ensure_slice_state now) slices),
    length-map (ensure_slice_state now) slices,
    i.counted,
  );
  bounded = omega (arith, h, i.bounded, i.limit);
  limit = i.limit;
}

pub if-Inv :
    {max n : ℕ} {s t : Scheduler} (b : Bool)
    → (b ≡ true → Inv max n s)
    → (b ≡ false → Inv max n t)
    → Inv max n (if b then s else t)
if-Inv true h k = h refl
if-Inv false h k = k refl

pub drain_pending_slices-Inv :
    (once : Bool) (now max n : ℕ) (s : Scheduler)
    → Inv max n s
    → Inv max n (drain_pending_slices once now s)
unfolding drain_pending_slices
drain_pending_slices-Inv once now max n s i =
    let p = get_pending_slices s in
    let k = Same-Inv (get_pending_slices-Same s) i in
    let c = create_slices-Inv now max n p.0 p.1 (get_pending_slices_room s) k in
    if-Inv (length p.0 == 0) (λ _. k)
      (λ _. if-Inv once (λ _. c) (λ _. Same-Inv (refl, refl, refl, refl) c))

settled-Inv :
    {q : List Slice} (events : List Event) (before after : List Slice) (slice : Slice) (max n : ℕ)
    (s : Scheduler)
    → Enqueued slice s.queue q
    → s.in_flight ≡ before ++ slice ∷ after
    → Inv max n s
    → Inv max n (record s {
      queue = q;
      events = events;
      creating = s.creating - 1;
      in_flight = before ++ after;
    })
settled-Inv events before after slice max n s e h i =
    let l = ap length h in
    record {
      unique = Enqueued-Unique e i.unique;
      counted =
          ground
            (arith, i.counted, l, length-append before (slice ∷ after), length-append before after);
      bounded =
          ground
            (arith, i.counted, l, length-append before (slice ∷ after), i.bounded, Enqueued-le e);
      limit = i.limit;
    }

pub settle-Inv :
    (saved : Bool) (before after : List Slice) (slice : Slice) (max n : ℕ) (s : Scheduler)
    → s.in_flight ≡ before ++ slice ∷ after
    → Inv max n s
    → Inv max n (settle saved slice (before ++ after) s)
unfolding settle
settle-Inv true before after slice max n s h i = rw (enqueue_slice_rest slice false s) (
    settled-Inv (enqueue_slice slice false s).events before after slice max n s
      (enqueue_slice-Enqueued slice false s) h i)
settle-Inv false before after slice max n s h i =
    settled-Inv s.events before after slice max n s refused h i

pub gives_back-Inv :
    (slice : Slice) (max n : ℕ) (s : Scheduler)
    → Inv max n s
    → Inv max (suc n) (enqueue_slice slice true s)
gives_back-Inv slice max n s i = rw (enqueue_slice_rest slice true s) record {
  unique = Enqueued-Unique (enqueue_slice-Enqueued slice true s) i.unique;
  counted = i.counted;
  bounded = omega (arith, i.bounded, Enqueued-le (enqueue_slice-Enqueued slice true s));
  limit = i.limit;
}

pair-Inv :
    {max n : ℕ} (p q : List Slice × Scheduler) (b : Bool)
    → Inv max n p.1
    → Inv max n q.1
    → Inv max n (if b then p else q).1
pair-Inv p q true h k = h
pair-Inv p q false h k = k

pub get_slices-Inv :
    (limit max n : ℕ) (s : Scheduler) → Inv max n s → Inv max n (get_slices limit s).1
unfolding get_slices
get_slices-Inv limit max n s i =
    let k : Inv max n (record s { queue = (take_slices limit s.queue).rest }) = record {
      unique = Unique-take_slices limit s.queue i.unique;
      counted = i.counted;
      bounded = omega (arith, i.bounded, take_slices-length limit s.queue);
      limit = i.limit;
    } in
    pair-Inv _ _ (length s.queue == 0) i (
      pair-Inv _ _ (ltb limit 1) i (
        if-Inv (ltb 0 (length (take_slices limit s.queue).slices))
          (λ _. Same-Inv (refl, refl, refl, refl) k) (λ _. k)))

pub finish-Inv :
    (now max n : ℕ) (s : Scheduler) → Inv max n s → Inv max n (on_slicer_finished now s)
unfolding on_slicer_finished cleanup
finish-Inv now max n s i =
    drain_pending_slices-Inv false now max n (cleanup s) (Same-Inv (refl, refl, refl, refl) i)

pub make_slices-Inv :
    (now : ℕ) (made : List Slice) (finished : Bool) (max n : ℕ) (s : Scheduler)
    → Inv max n s
    → Inv max n (make_slices now made finished s)
unfolding make_slices
make_slices-Inv now made finished max n s i =
    let s1 : Scheduler = record s { slicer = s.slicer ++ made; handling = false } in
    let s2 : Scheduler = if not s1.recovering then record s1 { handle_interval = false } else s1 in
    let k1 : Inv max n s1 = Same-Inv (refl, refl, refl, refl) i in
    let k2 : Inv max n s2 =
      if-Inv (not s1.recovering) (λ _. Same-Inv (refl, refl, refl, refl) i) (λ _. k1) in
    if-Inv (not finished) (λ _. k1)
      (λ _. if-Inv (can_complete s2) (λ _. finish-Inv now max n s2 k2) (λ _. k2))
