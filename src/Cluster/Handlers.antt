-- ===== src/Cluster/Handlers.antt =====
-- Nodes that come and go, and stopping an execution on its nodes:
-- packages/teraslice/lib/cluster/services/cluster/backends/native/index.js. The timers that wait for
-- `_cleanUpNode` are the ids in `dropped`.
use teraslice.Cluster.State.{
  Worker, Node, check_node, Found, find_nodes_for_execution, is_free, first_free,
}
use teraslice.Cluster.Allocate.{Request}
use teraslice.Base.{
  ℕ, zero, suc, ◌-◌, String, ◌≡◌, refl, inl, inr, Bool, true, false, not, ◌&&◌, Option, none, some,
  List, [], ◌∷◌, ◌++◌, arith, ◌==◌, if◌then◌else◌, Bool-cases, ◌===◌, ===_iff, length, keep_if,
  any_of, Result, ok, err,
}

pub record Cluster : Type 0 where
  pub nodes : List (String × Node)
  pub dropped : List String
  pub pending : List Request

abbrev pub node_of : String → List (String × Node) → Option Node
node_of id [] = none
node_of id ((k, n) ∷ l) = if k === id then some n else node_of id l

abbrev pub set_node : String → Node → List (String × Node) → List (String × Node)
set_node id n [] = (id, n) ∷ []
set_node id n ((k, m) ∷ l) = if k === id then (k, n) ∷ l else (k, m) ∷ set_node id n l

abbrev pub without : String → List (String × Node) → List (String × Node)
without id l = keep_if (λ p. not (p.0 === id)) l

unfoldable pub on_node_online : String → Node → Cluster → Cluster
on_node_online id payload c = record c {
  dropped = keep_if (λ k. not (k === id)) c.dropped;
  nodes = set_node id payload c.nodes;
}

unfoldable pub on_node_state : Node → Cluster → Cluster
on_node_state payload c = record c { nodes = set_node payload.node_id payload c.nodes }

abbrev pub disconnected : String → Node → Cluster → Cluster
disconnected id n c =
    if length n.active == 0 then record c { nodes = without id c.nodes } else record c {
      nodes = set_node id (record n { state = "disconnected" }) c.nodes;
      dropped = if any_of (λ k. k === id) c.dropped then c.dropped else c.dropped ++ id ∷ [];
    }

abbrev pub disconnected_if : String → Option Node → Cluster → Cluster
disconnected_if id none c = c
disconnected_if id (some n) c = disconnected id n c

unfoldable pub on_disconnect : String → Cluster → Cluster
on_disconnect id c = disconnected_if id (node_of id c.nodes) c

-- What `_cleanUpNode` asks of others.
pub data Effect : Type 0 where
  terminate : String → Effect
  broadcast_stop : String → Effect
  reallocate : String → ℕ → Effect

abbrev stop_each : List String → List Effect
stop_each [] = []
stop_each (id ∷ l) = terminate id ∷ broadcast_stop id ∷ stop_each l

abbrev forget_requests : List String → List Request → List Request
forget_requests [] pending = pending
forget_requests (id ∷ l) pending =
    forget_requests l (keep_if (λ (r : Request). not (r.ex_id === id)) pending)

abbrev pub works_on : String → List Worker → ℕ
works_on id l = length (keep_if (λ (w : Worker). w.ex_id === id) l)

abbrev reallocate_each : List String → List Worker → List (String × ℕ) → List Effect
reallocate_each slicers active [] = []
reallocate_each slicers active ((id, n) ∷ l) =
    let rest = reallocate_each slicers active l in
    if any_of (λ k. k === id) slicers then rest else reallocate id (works_on id active) ∷ rest

-- `none` where the node is not known: the code throws.
abbrev pub cleaned : String → Cluster → Option Node → Option (Cluster × List Effect)
unfolding check_node
cleaned id c none = none
cleaned id c (some n) = some (
  record c {
    nodes = without id c.nodes;
    dropped = keep_if (λ k. not (k === id)) c.dropped;
    pending = forget_requests (check_node n).slicer_executions c.pending;
  },
  stop_each (check_node n).slicer_executions
      ++ reallocate_each (check_node n).slicer_executions n.active (check_node n).worker_executions,
)

unfoldable pub clean_up_node : String → Cluster → Option (Cluster × List Effect)
unfolding check_node
clean_up_node id c = cleaned id c (node_of id c.nodes)

-- The nodes that are told of an execution; `none` is the rejection with code 404.
unfoldable pub notify_nodes : String → Bool → Option String → List Node → Option (List Found)
unfolding find_nodes_for_execution
notify_nodes ex_id is_stop (some host) nodes = some (
    keep_if (λ (f : Found). not (f.hostname === host)) (find_nodes_for_execution ex_id false nodes))
notify_nodes ex_id is_stop none nodes =
    let found = find_nodes_for_execution ex_id false nodes in
    if not is_stop && length found == 0 then none else some found

unfoldable pub stop_execution :
    String → Option String → List Node → List Request → List Request × Option (List Found)
unfolding notify_nodes
stop_execution ex_id exclude nodes pending = (
  keep_if (λ (r : Request). not (r.ex_id === ex_id)) pending,
  notify_nodes ex_id true exclude nodes,
)

-- `allocateSlicer`: `create` is `_createSlicer` with the nodes that have failed; a failure gives them
-- with what it adds.
unfoldable pub retry :
    {A : Type 0} → (List String → Result (List String) A) → ℕ → List String → Result (List String) A
retry create zero errors = create errors
retry create (suc k) errors = elim (create errors) [ ok a ↦ ok a | err more ↦ retry create k more ]

unfoldable pub allocate_slicer :
    {A : Type 0} → (List String → Result (List String) A) → ℕ → Result (List String) A
unfolding retry
allocate_slicer create attempts = retry create (attempts - 1) []

pub node_of-set_node :
    (id j : String) (n : Node) (l : List (String × Node))
    → node_of j (set_node id n l) ≡ (if id === j then some n else node_of j l)
node_of-set_node id j n [] = ground arith
node_of-set_node id j n ((k, m) ∷ l) =
    ground (arith, ===_iff k id, ===_iff k j, ===_iff id j, node_of-set_node id j n l)

-- A node is chosen for a slicer that is connected, has room, has not failed before and has no slicer,
-- where there is one.
pub chosen_free :
    (errors : List String) (nodes : List Node)
    → any_of (is_free errors) nodes ≡ true
    → (n : Node) × (first_free errors nodes ≡ some n.node_id) × (is_free errors n ≡ true)
unfolding first_free
chosen_free errors [] h = ground arith
chosen_free errors (n ∷ nodes) h = elim (Bool-cases (is_free errors n)) [
  | inl k ↦ (n, rw k refl, k)
  | inr k ↦ rw k (chosen_free errors nodes (ground arith))
]
