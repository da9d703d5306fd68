-- ===== src/Cluster/State.antt =====
-- The nodes of the cluster and what is asked of them: native/index.js and state-utils.js under
-- packages/teraslice/lib/cluster/services/cluster/backends.
use teraslice.Base.{
  ℕ, ◌+◌, String, Bool, true, false, not, ◌&&◌, ◌||◌, Option, none, some, List, [], ◌∷◌, ◌++◌, map,
  leb, ◌==◌, if◌then◌else◌, ◌===◌, length, keep_if, any_of, ℤ, at_least, pos, plus,
}

pub record Worker : Type 0 where
  pub assignment : String
  pub ex_id : String

pub record Node : Type 0 where
  pub node_id : String
  pub hostname : String
  pub state : String
  pub available : ℤ
  pub total : ℕ
  pub active : List Worker

-- `executionService.ex_id` keys with a count.
abbrev pub count_of : String → List (String × ℕ) → ℕ
count_of id [] = 0
count_of id ((k, n) ∷ m) = if k === id then n else count_of id m

-- `if (!m[id]) m[id] = n; else m[id] += n`
abbrev pub add_to : String → ℕ → List (String × ℕ) → List (String × ℕ)
add_to id n [] = (id, n) ∷ []
add_to id n ((k, m) ∷ l) = if k === id then (k, m + n) ∷ l else (k, m) ∷ add_to id n l

abbrev pub sum_of : List (String × ℕ) → ℕ
sum_of [] = 0
sum_of ((k, n) ∷ l) = n + sum_of l

pub record Checked : Type 0 where
  pub has_slicer : Bool
  pub num_of_slicers : ℕ
  pub slicer_executions : List String
  pub worker_executions : List (String × ℕ)
  pub num_of_workers : ℕ
  pub available : ℤ

abbrev check_worker : Worker → Checked → Checked
check_worker w c =
    if w.assignment === "execution_controller"
    then record c {
      has_slicer = true;
      num_of_slicers = c.num_of_slicers + 1;
      slicer_executions =
          if any_of (λ id. id === w.ex_id) c.slicer_executions
          then c.slicer_executions
          else c.slicer_executions ++ w.ex_id ∷ [];
    }
    else if w.assignment === "worker"
    then record c {
      num_of_workers = c.num_of_workers + 1;
      worker_executions = add_to w.ex_id 1 c.worker_executions;
    }
    else c

abbrev check_all : List Worker → Checked → Checked
check_all [] c = c
check_all (w ∷ l) c = check_all l (check_worker w c)

unfoldable pub check_node : Node → Checked
check_node n = check_all n.active (record {
  has_slicer = false;
  num_of_slicers = 0;
  slicer_executions = [];
  worker_executions = [];
  num_of_workers = 0;
  available = n.available;
})

-- The loop of `_findNodeForSlicer`.
unfoldable pub is_free : List String → Node → Bool
unfolding check_node
is_free errors n =
    n.state === "connected"
    && at_least 1 n.available
    && not (any_of (λ id. id === n.node_id) errors)
    && not (check_node n).has_slicer

unfoldable pub first_free : List String → List Node → Option String
unfolding is_free
first_free errors [] = none
first_free errors (n ∷ l) = if is_free errors n then some n.node_id else first_free errors l

-- With no node at all the code throws.
abbrev pub or_first : List Node → Option String → Option String
or_first nodes (some id) = some id
or_first [] none = none
or_first (n ∷ nodes) none = some n.node_id

unfoldable pub find_node_for_slicer : List Node → List String → Option String
unfolding first_free
find_node_for_slicer nodes errors = or_first nodes (first_free errors nodes)

pub record Found : Type 0 where
  pub node_id : String
  pub ex_id : String
  pub hostname : String
  pub workers : List Worker

abbrev pub runs_execution : String → Bool → Worker → Bool
runs_execution ex_id slicer_only w =
    if slicer_only
    then w.ex_id === ex_id && w.assignment === "execution_controller"
    else w.ex_id === ex_id

unfoldable pub find_nodes_for_execution : String → Bool → List Node → List Found
find_nodes_for_execution ex_id slicer_only [] = []
find_nodes_for_execution ex_id slicer_only (n ∷ l) =
    let has_job = keep_if (runs_execution ex_id slicer_only) n.active in
    let rest = find_nodes_for_execution ex_id slicer_only l in
    if not (n.state === "disconnected") && leb 1 (length has_job)
    then record { node_id = n.node_id; ex_id = ex_id; hostname = n.hostname; workers = has_job }
      ∷ rest
    else rest

-- The sum of `_availableWorkers` over the connected nodes.
abbrev pub sum_available : Bool → List Node → ℤ
sum_available all [] = pos 0
sum_available all (n ∷ l) =
    plus (if n.state === "connected" then (if all then pos n.total else n.available) else pos 0)
      (sum_available all l)

unfoldable pub available_workers : Bool → Bool → ℕ → List Node → ℤ
available_workers all force_check pending nodes =
    if pending == 0 || force_check then sum_available all nodes else pos 0

-- `readyForAllocation`
unfoldable pub ready_for_allocation : ℕ → List Node → Bool
unfolding available_workers
ready_for_allocation pending nodes = at_least 2 (available_workers false false pending nodes)

-- A worker with the node that it is on, as `_iterateState` gives it.
pub record Placed : Type 0 where
  pub worker : Worker
  pub node_id : String
  pub hostname : String

unfoldable pub iterate_state : (Worker → Bool) → List Node → List Placed
iterate_state cb [] = []
iterate_state cb (n ∷ l) =
    let rest = iterate_state cb l in
    if n.state === "connected"
    then map (λ w. record { worker = w; node_id = n.node_id; hostname = n.hostname })
        (keep_if cb n.active)
      ++ rest
    else rest

abbrev pub works_for : String → Worker → Bool
works_for ex_id w = w.assignment === "worker" && w.ex_id === ex_id

unfoldable pub find_workers_by_execution_id : String → List Node → List Placed
unfolding iterate_state
find_workers_by_execution_id ex_id nodes = iterate_state (works_for ex_id) nodes

unfoldable pub find_all_slicers : List Node → List Placed
unfolding iterate_state
find_all_slicers nodes = iterate_state (λ w. w.assignment === "execution_controller") nodes

unfoldable pub find_slicers_by_execution_id : List String → List Node → List Placed
unfolding iterate_state
find_slicers_by_execution_id ids nodes =
    iterate_state
      (λ w. w.assignment === "execution_controller" && any_of (λ id. id === w.ex_id) ids) nodes
