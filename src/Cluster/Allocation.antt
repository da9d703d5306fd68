-- ===== src/Cluster/Allocation.antt =====
-- The loop of allocateWorkers in
-- packages/teraslice/lib/cluster/services/cluster/backends/native/index.js ends, and no worker is lost.
use teraslice.Cluster.State.{Node, add_to, sum_of, sum_available, available_workers}
use teraslice.Cluster.Allocate.{Answer, created, malformed, rejected, on_answer}
use teraslice.Cluster.Allocate.{
  Loop, allocate_pass, allocate_loop, Request, wanted, repeated, requests, allocate_workers,
  sending,
}
use teraslice.Base.{
  ℕ, zero, suc, ◌+◌, ◌-◌, ◌*◌, ◌≤◌, ◌<◌, String, ◌≡◌, refl, ap, subst, ◌∙◌, ◌⊎◌, inl, inr, Bool,
  true, false, ◌&&◌, Option, none, some, List, [], ◌∷◌, ◌++◌, arith, ltb, if◌then◌else◌, Bool-cases,
  length, any_of, min, ◌===◌, at_least, nat_of, nat_of-plus, pos,
}

sum_of-add_to :
    (id : String) (n : ℕ) (d : List (String × ℕ)) → sum_of (add_to id n d) ≡ sum_of d + n
sum_of-add_to id n [] = omega arith
sum_of-add_to id n ((k, m) ∷ d) = ground (arith, sum_of-add_to id n d)

-- One step of the `for` loop.
abbrev step : Node → Loop → Loop
step n l =
    if ltb 0 l.requested && ltb 0 l.avail
    then (if at_least 1 n.available
        then record {
          requested = l.requested - 1;
          avail = l.avail - 1;
          dispatch = add_to n.node_id 1 l.dispatch;
        }
        else l)
    else l

-- `m` has dispatched what it no longer requests.
record Moved (l m : Loop) : Type 0 where
  requested : sum_of m.dispatch + m.requested ≡ sum_of l.dispatch + l.requested
  avail : sum_of m.dispatch + m.avail ≡ sum_of l.dispatch + l.avail
  fewer : m.requested ≤ l.requested

step-Moved : (n : Node) (l : Loop) → Moved l (step n l)
step-Moved n l = record {
  requested = ground (arith, sum_of-add_to n.node_id 1 l.dispatch);
  avail = ground (arith, sum_of-add_to n.node_id 1 l.dispatch);
  fewer = ground arith;
}

Moved-trans : {l m n : Loop} → Moved l m → Moved m n → Moved l n
Moved-trans p q = record {
  requested = q.requested ∙ p.requested;
  avail = q.avail ∙ p.avail;
  fewer = omega (arith, p.fewer, q.fewer);
}

pass-Moved : (nodes : List Node) (l : Loop) → Moved l (allocate_pass nodes l)
unfolding allocate_pass
pass-Moved [] l = record { requested = refl; avail = refl; fewer = omega arith }
pass-Moved (n ∷ nodes) l = Moved-trans (step-Moved n l) (pass-Moved nodes (step n l))

abbrev pub has_room : Node → Bool
has_room n = at_least 1 n.available

-- A pass allocates where a node has room.
pass_progress :
    (nodes : List Node) (l : Loop)
    → any_of has_room nodes ≡ true
    → 0 < l.requested
    → 0 < l.avail
    → (allocate_pass nodes l).requested < l.requested
unfolding allocate_pass
pass_progress [] l h r a = ground arith
pass_progress (n ∷ nodes) l h r a = elim (Bool-cases (has_room n)) [
  | inl k ↦ ground (arith, (pass-Moved nodes (step n l)).fewer)
  | inr k ↦ ground (arith, pass_progress nodes l)
]

-- What the loop answers: it has ended, and nothing can be allocated any more.
Ended : Loop → Option Loop → Type 0
Ended l r = (m : Loop) × (r ≡ some m) × Moved l m × ((m.requested ≡ 0) ⊎ (m.avail ≡ 0))

Moved-refl : (l : Loop) → Moved l l
Moved-refl l = record { requested = refl; avail = refl; fewer = omega arith }

stuck :
    (l : Loop) → (ltb 0 l.requested && ltb 0 l.avail) ≡ false → (l.requested ≡ 0) ⊎ (l.avail ≡ 0)
stuck l h = ground arith

if-Ended :
    (b : Bool) (l : Loop) (r : Option Loop)
    → (b ≡ true → Ended l r)
    → (b ≡ false → (l.requested ≡ 0) ⊎ (l.avail ≡ 0))
    → Ended l (if b then r else some l)
unfolding Ended
if-Ended true l r h k = h refl
if-Ended false l r h k = (l, refl, Moved-refl l, k refl)

Ended-Moved : (l m : Loop) (r : Option Loop) → Moved l m → Ended m r → Ended l r
unfolding Ended
Ended-Moved l m r p (e, h, q, k) = (e, h, Moved-trans p q, k)

-- As many passes as workers are requested are enough.
allocate_loop-Ended :
    (fuel : ℕ) (nodes : List Node) (l : Loop)
    → (0 < l.avail → any_of has_room nodes ≡ true)
    → l.requested ≤ fuel
    → Ended l (allocate_loop fuel nodes l)
unfolding allocate_loop
allocate_loop-Ended zero nodes l h f =
    if-Ended (ltb 0 l.requested && ltb 0 l.avail) l none (λ k. absurd (ground arith)) (stuck l)
allocate_loop-Ended (suc fuel) nodes l h f =
    let m = allocate_pass nodes l in
    if-Ended (ltb 0 l.requested && ltb 0 l.avail) l (allocate_loop fuel nodes m)
      (λ k.
        let p = pass-Moved nodes l in
        Ended-Moved l m _ p (
          allocate_loop-Ended fuel nodes m (λ a. h (ground arith))
            (ground
              (arith, pass_progress nodes l (h (ground arith)) (ground arith) (ground arith)))))
      (stuck l)

sum_available-has_room :
    (nodes : List Node) → 0 < nat_of (sum_available false nodes) → any_of has_room nodes ≡ true
sum_available-has_room [] h = ground arith
sum_available-has_room (n ∷ nodes) h = elim (Bool-cases (has_room n)) [
  | inl k ↦ ground arith
  | inr k ↦ ground (
    arith,
    sum_available-has_room nodes
        (nat_of-plus (if n.state === "connected" then n.available else pos 0) _ (ground arith) h),
  )
]

wanted-append : (p q : List Request) → wanted (p ++ q) ≡ wanted p + wanted q
wanted-append [] q = omega arith
wanted-append (r ∷ p) q = omega (arith, wanted-append p q)

wanted-repeated : (n : ℕ) (r : Request) → wanted (repeated n r) ≡ n * r.workers
wanted-repeated zero r = omega arith
wanted-repeated (suc n) r = grind (arith, wanted-repeated n r)

-- The workers that are asked of the nodes.
abbrev pub sent : List (String × Request) → ℕ
sent [] = 0
sent ((id, r) ∷ l) = r.workers + sent l

sent-requests : (r : Request) (d : List (String × ℕ)) → sent (requests r d) ≡ sum_of d
sent-requests r [] = refl
sent-requests r ((id, n) ∷ d) = omega (arith, sent-requests r d)

available_workers-forced :
    (pending : ℕ) (nodes : List Node)
    → available_workers false true pending nodes ≡ sum_available false nodes
unfolding available_workers
available_workers-forced pending nodes = ground arith

allocate_workers_of :
    (nodes sorted : List Node) (r : Request) (n : ℕ) (pending : List Request) (m : Loop)
    → allocate_loop n sorted (record {
      requested = n;
      avail = nat_of (available_workers false true (length pending) nodes);
      dispatch = [];
    })
      ≡ some m
    → allocate_workers n sorted nodes r n pending
      ≡ some (requests r m.dispatch, pending ++ repeated m.requested (record r { workers = 1 }))
unfolding allocate_workers
allocate_workers_of nodes sorted r n pending m e = ap (sending r pending) e

-- Where `orderBy` keeps whether some node has room, as many passes as workers are requested end the
-- loop: the nodes are asked for the requested workers or for all that are available, whichever is
-- less, and for none where the sum is below 0; the queue of pending requests grows by the others.
pub allocate_workers-min :
    (nodes sorted : List Node) (r : Request) (n : ℕ) (pending : List Request)
    → any_of has_room sorted ≡ any_of has_room nodes
    → let avail = nat_of (available_workers false true (length pending) nodes) in
      (p : List (String × Request) × List Request) × (allocate_workers n sorted nodes r n pending
        ≡ some p)
      × (sent p.0 ≡ min n avail)
      × (wanted p.1 ≡ wanted pending + (n - avail))
unfolding Ended
allocate_workers-min nodes sorted r n pending h =
    let avail = nat_of (available_workers false true (length pending) nodes) in
    let a = available_workers-forced (length pending) nodes in
    let l : Loop = record { requested = n; avail = avail; dispatch = [] } in
    let (m, e, p, k) =
      allocate_loop-Ended n sorted l
        (λ z. h ∙ sum_available-has_room nodes (subst (λ x. 0 < nat_of x) a z)) (omega arith) in
    let one : Request = record r { workers = 1 } in
    (
      (requests r m.dispatch, pending ++ repeated m.requested one),
      allocate_workers_of nodes sorted r n pending m e,
      ground (arith, sent-requests r m.dispatch, p.requested, p.avail, k),
      ground (
        arith,
        wanted-append pending (repeated m.requested one),
        wanted-repeated m.requested one,
        p.requested,
        p.avail,
        k,
      ),
    )

-- The workers of a request that an answer settles. A malformed answer settles all of them.
abbrev pub settled : Request → Answer → ℕ
settled r (created n) = min n r.workers
settled r malformed = r.workers
settled r rejected = 0

-- A worker that was asked of a node is created or goes back to the queue of pending requests, unless
-- the node's answer is malformed: then all workers of the request are forgotten.
pub wanted-on_answer :
    (r : Request) (a : Answer) (pending : List Request)
    → wanted (on_answer r a pending) + settled r a ≡ wanted pending + r.workers
unfolding on_answer
wanted-on_answer r (created n) pending =
    ground (arith, wanted-append pending (record r { workers = r.workers - n } ∷ []))
wanted-on_answer r malformed pending = refl
wanted-on_answer r rejected pending = ground (arith, wanted-append pending (r ∷ []))
