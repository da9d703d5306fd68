-- ===== src/Controller/Dispatch/Conserved.antt =====
-- A round of dispatching in packages/teraslice/lib/workers/execution-controller/index.js loses no slice.
use teraslice.Controller.Slice.{Slice}
use teraslice.Controller.Scheduler.{
  Scheduler, has_id, enqueue_one, enqueue_each, enqueue_slices, get_slices,
}
use teraslice.Controller.Scheduler.Unique.{Unique}
use teraslice.Controller.Scheduler.Order.{get_slices-take}
use teraslice.Controller.Dispatch.{Controller, Split, placed, dispatch_each, dequeue_and_dispatch}
use teraslice.Messaging.Workers.{Server, worker_dequeue}
use teraslice.Base.{
  ℕ, ◌+◌, String, ◌≡◌, refl, sym, ap, subst, ◌∙◌, Bool, true, false, Option, none, some, List, [],
  ◌∷◌, ◌++◌, arith, ltb, if◌then◌else◌, ===_iff, length, any_of,
}

-- The number of slices that `p` takes.
abbrev pub count_if : (Slice → Bool) → List Slice → ℕ
count_if p [] = 0
count_if p (s ∷ l) = (if p s then 1 else 0) + count_if p l

abbrev pub dispatched : List (Slice × String) → List Slice
dispatched [] = []
dispatched ((s, id) ∷ l) = s ∷ dispatched l

count_if-append :
    (p : Slice → Bool) (l m : List Slice) → count_if p (l ++ m) ≡ count_if p l + count_if p m
count_if-append p [] m = omega arith
count_if-append p (s ∷ l) m = omega (arith, count_if-append p l m)

dispatched-append :
    (l m : List (Slice × String)) → dispatched (l ++ m) ≡ dispatched l ++ dispatched m
dispatched-append [] m = refl
dispatched-append ((s, id) ∷ l) m = ap (λ r. s ∷ r) (dispatched-append l m)

-- No slice of the first list has an id of the second, and no two of the first have one id.
abbrev Fresh : List Slice → List Slice → Type 0
Fresh [] q = Unit
Fresh (s ∷ l) q =
    (any_of (has_id s.slice_id) l ≡ false) × (any_of (has_id s.slice_id) q ≡ false) × Fresh l q

placed-count :
    (p : Slice → Bool) (slice : Slice) (o : Option String × Server) (rest : Server → Split) (n : ℕ)
    → ((s : Server) → count_if p (dispatched (rest s).dispatch) + count_if p (rest s).reenqueue ≡ n)
    → let r = placed slice o rest in
      count_if p (dispatched r.dispatch) + count_if p r.reenqueue ≡ (if p slice then 1 else 0) + n
placed-count p slice (none, server) rest n h = omega (arith, h server)
placed-count p slice (some id, server) rest n h = omega (arith, h server)

dispatch_each-count :
    (p : Slice → Bool) (request_worker : Slice → Option String) (l : List Slice) (s : Server)
    → let r = dispatch_each request_worker l s in
      count_if p (dispatched r.dispatch) + count_if p r.reenqueue ≡ count_if p l
unfolding dispatch_each
dispatch_each-count p request_worker [] s = refl
dispatch_each-count p request_worker (slice ∷ l) s =
    placed-count p slice (worker_dequeue (request_worker slice) s) (dispatch_each request_worker l)
      (count_if p l) (dispatch_each-count p request_worker l)

placed-absent :
    (id : String) (slice : Slice) (o : Option String × Server) (rest : Server → Split)
    → has_id id slice ≡ false
    → ((s : Server) → any_of (has_id id) (rest s).reenqueue ≡ false)
    → any_of (has_id id) (placed slice o rest).reenqueue ≡ false
placed-absent id slice (none, server) rest h k = ground (arith, k server)
placed-absent id slice (some w, server) rest h k = k server

dispatch_each-absent :
    (id : String) (request_worker : Slice → Option String) (l : List Slice) (s : Server)
    → any_of (has_id id) l ≡ false
    → any_of (has_id id) (dispatch_each request_worker l s).reenqueue ≡ false
unfolding dispatch_each
dispatch_each-absent id request_worker [] s h = refl
dispatch_each-absent id request_worker (slice ∷ l) s h =
    placed-absent id slice (worker_dequeue (request_worker slice) s)
      (dispatch_each request_worker l) (ground arith)
      (λ s'. dispatch_each-absent id request_worker l s' (ground arith))

placed-Fresh :
    (q : List Slice) (slice : Slice) (o : Option String × Server) (rest : Server → Split)
    → any_of (has_id slice.slice_id) q ≡ false
    → ((s : Server) → any_of (has_id slice.slice_id) (rest s).reenqueue ≡ false)
    → ((s : Server) → Fresh (rest s).reenqueue q)
    → Fresh (placed slice o rest).reenqueue q
placed-Fresh q slice (none, server) rest h k f = (k server, h, f server)
placed-Fresh q slice (some w, server) rest h k f = f server

dispatch_each-Fresh :
    (q : List Slice) (request_worker : Slice → Option String) (l : List Slice) (s : Server)
    → Fresh l q
    → Fresh (dispatch_each request_worker l s).reenqueue q
unfolding dispatch_each
dispatch_each-Fresh q request_worker [] s f = tt
dispatch_each-Fresh q request_worker (slice ∷ l) s f =
    placed-Fresh q slice (worker_dequeue (request_worker slice) s) (dispatch_each request_worker l)
      f.1 (λ s'. dispatch_each-absent slice.slice_id request_worker l s' f.0)
      (λ s'. dispatch_each-Fresh q request_worker l s' f.2)

any_of-append :
    (id : String) (l q : List Slice)
    → any_of (has_id id) (l ++ q) ≡ false
    → (any_of (has_id id) l ≡ false) × (any_of (has_id id) q ≡ false)
any_of-append id [] q h = (refl, h)
any_of-append id (s ∷ l) q h = ground (arith, any_of-append id l q)

Fresh-Unique : (l q : List Slice) → Unique (l ++ q) → Fresh l q
Fresh-Unique [] q u = tt
Fresh-Unique (s ∷ l) q u =
    let h = any_of-append s.slice_id l q u.0 in (h.0, h.1, Fresh-Unique l q u.1)

Fresh-cons :
    (s : Slice) (l q : List Slice)
    → any_of (has_id s.slice_id) l ≡ false
    → Fresh l q
    → Fresh l (s ∷ q)
Fresh-cons s [] q h f = tt
Fresh-cons s (t ∷ l) q h f = (
  f.0,
  ground (arith, ===_iff s.slice_id t.slice_id, ===_iff t.slice_id s.slice_id),
  Fresh-cons s l q (ground arith) f.2,
)

enqueue_one_start :
    (slice : Slice) (s : Scheduler)
    → any_of (has_id slice.slice_id) s.queue ≡ false
    → (enqueue_one true slice s).queue ≡ slice ∷ s.queue
unfolding enqueue_one
enqueue_one_start slice s h = rw h refl

enqueue_each-count :
    (p : Slice → Bool) (l : List Slice) (s : Scheduler)
    → Fresh l s.queue
    → count_if p (enqueue_each true l s).queue ≡ count_if p l + count_if p s.queue
enqueue_each-count p [] s f = omega arith
enqueue_each-count p (slice ∷ l) s f =
    let s' = enqueue_one true slice s in
    let h : s'.queue ≡ slice ∷ s.queue = enqueue_one_start slice s f.1 in
    let k =
      enqueue_each-count p l s' (subst (Fresh l) (sym h) (Fresh-cons slice l s.queue f.0 f.2)) in
    let m : count_if p s'.queue ≡ (if p slice then 1 else 0) + count_if p s.queue =
      ap (count_if p) h in
    omega (arith, k, m)

enqueue_slices-count :
    (p : Slice → Bool) (l : List Slice) (s : Scheduler)
    → s.stopped ≡ false
    → Fresh l s.queue
    → count_if p (enqueue_slices l true s).queue ≡ count_if p l + count_if p s.queue
unfolding enqueue_slices
enqueue_slices-count p l s h f = ground (arith, enqueue_each-count p l s f)

reenqueue-count :
    (p : Slice → Bool) (l : List Slice) (s : Scheduler)
    → s.stopped ≡ false
    → Fresh l s.queue
    → count_if p (if ltb 0 (length l) then enqueue_slices l true s else s).queue
      ≡ count_if p l + count_if p s.queue
reenqueue-count p [] s h f = omega arith
reenqueue-count p (slice ∷ l) s h f = ground (arith, enqueue_slices-count p (slice ∷ l) s h f)

get_slices-stopped : (n : ℕ) (s : Scheduler) → (get_slices n s).1.stopped ≡ s.stopped
unfolding get_slices
get_slices-stopped n s = ground arith

-- In a round of dispatching of a scheduler that has not been stopped, whose queue holds no id twice, no
-- slice is lost or doubled: of every kind of slices, as many are queued and being dispatched after it as
-- before it. The slices of a kind are those that a test takes.
pub dequeue_and_dispatch-count :
    (p : Slice → Bool) (request_worker : Slice → Option String) (c : Controller)
    → c.scheduler.stopped ≡ false
    → Unique c.scheduler.queue
    → let c' = dequeue_and_dispatch request_worker c in
      count_if p (dispatched c'.dispatching) + count_if p c'.scheduler.queue
      ≡ count_if p (dispatched c.dispatching) + count_if p c.scheduler.queue
unfolding dequeue_and_dispatch
dequeue_and_dispatch-count p request_worker c h u =
    let n = length c.server.queue in
    let r = get_slices n c.scheduler in
    let d = dispatch_each request_worker r.0 c.server in
    let t = (get_slices-take n c.scheduler).0 in
    let f = Fresh-Unique r.0 r.1.queue (subst Unique (sym t) u) in
    omega (
      arith,
      reenqueue-count p d.reenqueue r.1 (get_slices-stopped n c.scheduler ∙ h)
          (dispatch_each-Fresh r.1.queue request_worker r.0 c.server f),
      dispatch_each-count p request_worker r.0 c.server,
      ap (count_if p) (dispatched-append c.dispatching d.dispatch),
      count_if-append p (dispatched c.dispatching) (dispatched d.dispatch),
      ap (count_if p) t,
      count_if-append p r.0 r.1.queue,
    )
