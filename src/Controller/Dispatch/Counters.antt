-- ===== src/Controller/Dispatch/Counters.antt =====
-- The counters pendingDispatches and pendingSlices of
-- packages/teraslice/lib/workers/execution-controller/index.js and what they count.
use teraslice.Controller.Slice.{Slice}
use teraslice.Controller.Scheduler.{get_slices}
use teraslice.Controller.Dispatch.{
  Controller, Dispatched, accepted, refused, failed, dequeue_and_dispatch, dispatch_tick,
  dispatch_slice, slice_complete, pause, resume, dispatch_each,
}
use teraslice.Base.{
  suc, ◌+◌, String, ◌≡◌, ap, Option, List, ◌∷◌, ◌++◌, arith, length, length-append, ◌∙◌, minus,
  plus, pos, negsuc, plus-minus-pos, plus-minus-less, minus-same,
}

-- What happens to the slices of a controller. A slice that is dispatched settles in any order, and a message
-- slice:complete comes at any time.
pub data Step : Controller → Controller → Type 0 where
  ticks :
      {c : Controller} (request_worker : Slice → Option String)
      → Step c (dispatch_tick request_worker c).1
  settles :
      {c : Controller} (how : Dispatched) (before after : List (Slice × String)) (slice : Slice)
      (id : String)
      → c.dispatching ≡ before ++ (slice, id) ∷ after
      → Step c (dispatch_slice how slice (before ++ after) c)
  completes : {c : Controller} → Step c (slice_complete c)
  pauses : {c : Controller} → Step c (pause c)
  resumes : {c : Controller} → Step c (resume c)

pub data Steps (c : Controller) : Controller → Type 0 where
  here : Steps c c
  next : {d e : Controller} → Steps c d → Step d e → Steps c e

-- The counters count the lists.
abbrev pub Counted : Controller → Type 0
Counted c =
    (c.pending_dispatches ≡ length c.dispatching)
    × (c.pending_slices ≡ minus (length c.dispatching + c.accepted) c.completions)

dequeue-Counted :
    (request_worker : Slice → Option String) (c : Controller)
    → Counted c
    → Counted (dequeue_and_dispatch request_worker c)
unfolding dequeue_and_dispatch
dequeue-Counted request_worker c h =
    let r = get_slices (length c.server.queue) c.scheduler in
    let d = dispatch_each request_worker r.0 c.server in
    let k = length-append c.dispatching d.dispatch in
    (
      omega arith,
      ap (λ z. plus z (pos (length d.dispatch))) h.1
          ∙ plus-minus-pos (length c.dispatching + c.accepted) c.completions (length d.dispatch)
          ∙ ap (λ n. minus n c.completions) (omega (arith, k)),
    )

dispatch_tick-Counted :
    (request_worker : Slice → Option String) (c : Controller)
    → Counted c
    → Counted (dispatch_tick request_worker c).1
unfolding dispatch_tick
dispatch_tick-Counted request_worker c h = ground (arith, dequeue-Counted request_worker c h)

length-without {ℓ} :
    {A : Type ℓ} (l before after : List A) (x : A)
    → l ≡ before ++ x ∷ after
    → length l ≡ suc (length (before ++ after))
length-without l before after x h =
    omega (arith, ap length h, length-append before (x ∷ after), length-append before after)

one_less :
    (rest : List (Slice × String)) (c : Controller)
    → length c.dispatching ≡ suc (length rest)
    → c.pending_slices ≡ minus (length c.dispatching + c.accepted) c.completions
    → plus c.pending_slices (negsuc 0) ≡ minus (length rest + c.accepted) c.completions
one_less rest c k h =
    ap (λ z. plus z (negsuc 0)) h
    ∙ plus-minus-less (length c.dispatching + c.accepted) c.completions
    ∙ minus-same (length c.dispatching + c.accepted) (c.completions + 1) (length rest + c.accepted)
        c.completions (omega (arith, k))

dispatch_slice-Counted :
    (how : Dispatched) (slice : Slice) (rest : List (Slice × String)) (c : Controller)
    → length c.dispatching ≡ suc (length rest)
    → Counted c
    → Counted (dispatch_slice how slice rest c)
unfolding dispatch_slice
dispatch_slice-Counted accepted slice rest c k h =
    (omega arith, h.1 ∙ ap (λ n. minus n c.completions) (omega (arith, k)))
dispatch_slice-Counted refused slice rest c k h = (omega arith, one_less rest c k h.1)
dispatch_slice-Counted failed slice rest c k h = (omega arith, one_less rest c k h.1)

Step-Counted : {c d : Controller} → Step c d → Counted c → Counted d
unfolding slice_complete pause resume
Step-Counted {c} (ticks request_worker) h = dispatch_tick-Counted request_worker c h
Step-Counted {c} (settles how before after slice id k) h =
    dispatch_slice-Counted how slice (before ++ after) c
      (length-without c.dispatching before after (slice, id) k) h
Step-Counted {c} completes h = (
  h.0,
  ap (λ z. plus z (negsuc 0)) h.1
      ∙ plus-minus-less (length c.dispatching + c.accepted) c.completions,
)
Step-Counted {c} pauses h = ground arith
Step-Counted {c} resumes h = ground arith

-- Whatever the order of dispatching, of the answers of workers, of messages slice:complete, also repeated
-- ones and those of no accepted slice, of pausing and resuming: pendingDispatches stays the number of
-- slices that are being dispatched, and pendingSlices is that number and the number of accepted slices,
-- less the number of those messages; it is below 0 where there are more messages.
pub Steps-Counted : {c d : Controller} → Steps c d → Counted c → Counted d
Steps-Counted here h = h
Steps-Counted (next r s) h = Step-Counted s (Steps-Counted r h)
