-- ===== src/Cluster/Allocate.antt =====
-- Allocating workers: allocateWorkers, addWorkers and schedulePendingRequests of
-- packages/teraslice/lib/cluster/services/cluster/backends/native/index.js.
use teraslice.Cluster.State.{Node, add_to, available_workers}
use teraslice.Base.{
  ℕ, zero, suc, ◌+◌, ◌-◌, String, true, false, ◌&&◌, Option, none, some, List, [], ◌∷◌, ◌++◌, ltb,
  if◌then◌else◌, length, at_least, nat_of,
}

-- `requested`, `avail` and the dispatch of the loops.
pub record Loop : Type 0 where
  pub requested : ℕ
  pub avail : ℕ
  pub dispatch : List (String × ℕ)

-- The `for` loop over the sorted nodes. Its `break` is the guard, which stays false.
unfoldable pub allocate_pass : List Node → Loop → Loop
allocate_pass [] l = l
allocate_pass (n ∷ nodes) l = allocate_pass nodes (
    if ltb 0 l.requested && ltb 0 l.avail
    then (if at_least 1 n.available
        then record {
          requested = l.requested - 1;
          avail = l.avail - 1;
          dispatch = add_to n.node_id 1 l.dispatch;
        }
        else l)
    else l)

-- The `while` loop; `none` is a loop that has not ended within the fuel.
unfoldable pub allocate_loop : ℕ → List Node → Loop → Option Loop
unfolding allocate_pass
allocate_loop zero nodes l = if ltb 0 l.requested && ltb 0 l.avail then none else some l
allocate_loop (suc fuel) nodes l =
    let rest = allocate_loop fuel nodes (allocate_pass nodes l) in
    if ltb 0 l.requested && ltb 0 l.avail then rest else some l

-- A request for workers, in the pending queue or in a message: `job` is the text of the execution.
pub record Request : Type 0 where
  pub job : String
  pub ex_id : String
  pub job_id : String
  pub workers : ℕ

abbrev pub wanted : List Request → ℕ
wanted [] = 0
wanted (r ∷ l) = r.workers + wanted l

abbrev pub repeated : ℕ → Request → List Request
repeated zero r = []
repeated (suc n) r = r ∷ repeated n r

-- The requests that are sent, by node.
abbrev pub requests : Request → List (String × ℕ) → List (String × Request)
requests r [] = []
requests r ((id, n) ∷ d) = (id, record r { workers = n }) ∷ requests r d

-- What `allocateWorkers` sends when its loop has ended, and the pending queue.
abbrev pub sending :
    Request → List Request → Option Loop → Option (List (String × Request) × List Request)
sending r pending none = none
sending r pending (some l) =
    some (requests r l.dispatch, pending ++ repeated l.requested (record r { workers = 1 }))

-- `sorted` is `orderBy` of the nodes, `r` the data of one worker.
unfoldable pub allocate_workers :
    ℕ
    → List Node
    → List Node
    → Request
    → ℕ
    → List Request
    → Option (List (String × Request) × List Request)
unfolding allocate_loop available_workers
allocate_workers fuel sorted nodes r n pending = sending r pending (
    allocate_loop fuel sorted (record {
      requested = n;
      avail = nat_of (available_workers false true (length pending) nodes);
      dispatch = [];
    }))

-- The answer of a node: a count, a malformed message, or a failure to send.
pub data Answer : Type 0 where
  created : ℕ → Answer
  malformed : Answer
  rejected : Answer

unfoldable pub on_answer : Request → Answer → List Request → List Request
on_answer r (created n) pending =
    if ltb n r.workers then pending ++ record r { workers = r.workers - n } ∷ [] else pending
on_answer r malformed pending = pending
on_answer r rejected pending = pending ++ r ∷ []

unfoldable pub add_workers : Request → ℕ → List Request → List Request
add_workers r n pending = pending ++ record r { workers = n } ∷ []

-- `schedulePendingRequests`: the request that is dequeued and allocated, and the rest of the queue.
unfoldable pub schedule_pending_requests : List Node → List Request → Option Request × List Request
unfolding available_workers
schedule_pending_requests nodes [] = (none, [])
schedule_pending_requests nodes (r ∷ rest) =
    if at_least 1 (available_workers false true (length (r ∷ rest)) nodes)
    then (some r, rest)
    else (none, r ∷ rest)
