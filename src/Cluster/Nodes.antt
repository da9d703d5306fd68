-- ===== src/Cluster/Nodes.antt =====
-- Nodes that come and go in packages/teraslice/lib/cluster/services/cluster/backends/native/index.js.
use teraslice.Cluster.State.{Node, find_node_for_slicer, is_free, or_first}
use teraslice.Cluster.Allocate.{Request}
use teraslice.Cluster.Handlers.{
  Cluster, Effect, node_of, without, node_of-set_node, on_node_online, on_disconnect, disconnected,
  disconnected_if, cleaned, clean_up_node, stop_execution, chosen_free,
}
use teraslice.Base.{
  String, ◌≡◌, refl, ap, Bool, true, false, not, ◌&&◌, Option, none, some, List, [], ◌∷◌, arith,
  if◌then◌else◌, ◌===◌, ===_iff, keep_if, any_of,
}

-- Where a connected node has room, has not failed before and has no slicer, such a node is chosen for
-- the slicer.
pub find_node_for_slicer_lem :
    (nodes : List Node) (errors : List String)
    → any_of (is_free errors) nodes ≡ true
    → (n : Node) × (find_node_for_slicer nodes errors ≡ some n.node_id) × (is_free errors n ≡ true)
unfolding find_node_for_slicer
find_node_for_slicer_lem nodes errors h =
    let (n, e, f) = chosen_free errors nodes h in (n, ap (or_first nodes) e, f)

node_of-without :
    (id j : String) (l : List (String × Node))
    → node_of j (without id l) ≡ (if id === j then none else node_of j l)
node_of-without id j [] = ground arith
node_of-without id j ((k, m) ∷ l) =
    ground (arith, ===_iff k id, ===_iff k j, ===_iff id j, node_of-without id j l)

any_of-keep_if-not :
    {A : Type 0} (p : A → Bool) (l : List A) → any_of p (keep_if (λ a. not (p a)) l) ≡ false
any_of-keep_if-not p [] = refl
any_of-keep_if-not p (a ∷ l) = ground (arith, any_of-keep_if-not p l)

node_of-disconnected :
    (id j : String) (m : Node) (c : Cluster)
    → (id === j) ≡ false
    → node_of j (disconnected id m c).nodes ≡ node_of j c.nodes
node_of-disconnected id j m c h = ground (
  arith,
  node_of-without id j c.nodes,
  node_of-set_node id j (record m { state = "disconnected" }) c.nodes,
)

node_of-disconnected_if :
    (id j : String) (m : Option Node) (c : Cluster)
    → (id === j) ≡ false
    → node_of j (disconnected_if id m c).nodes ≡ node_of j c.nodes
node_of-disconnected_if id j none c h = refl
node_of-disconnected_if id j (some m) c h = node_of-disconnected id j m c h

node_of-on_disconnect :
    (id j : String) (c : Cluster)
    → (id === j) ≡ false
    → node_of j (on_disconnect id c).nodes ≡ node_of j c.nodes
unfolding on_disconnect
node_of-on_disconnect id j c h = node_of-disconnected_if id j (node_of id c.nodes) c h

-- A disconnected node that comes online again has the state that it sends, and no clean-up waits for
-- it; every other node is as it was before both.
pub on_node_online-on_disconnect :
    (id : String) (n : Node) (c : Cluster) (j : String)
    → let d = on_node_online id n (on_disconnect id c) in
      (any_of (λ k. k === id) d.dropped ≡ false)
      × (node_of j d.nodes ≡ (if id === j then some n else node_of j c.nodes))
unfolding on_node_online
on_node_online-on_disconnect id n c j = (
  any_of-keep_if-not (λ k. k === id) (on_disconnect id c).dropped,
  ground (arith, node_of-set_node id j n (on_disconnect id c).nodes, node_of-on_disconnect id j c),
)

-- A clean-up of a known node removes that node, keeps every other one, and stops waiting for it.
pub clean_up_node-without :
    (id j : String) (c : Cluster) (n : Node)
    → node_of id c.nodes ≡ some n
    → (r : Cluster × List Effect) × (clean_up_node id c ≡ some r)
      × (node_of j r.0.nodes ≡ (if id === j then none else node_of j c.nodes))
      × (any_of (λ k. k === id) r.0.dropped ≡ false)
unfolding clean_up_node
clean_up_node-without id j c n h = (
  _,
  ap (cleaned id c) h,
  node_of-without id j c.nodes,
  any_of-keep_if-not (λ k. k === id) c.dropped,
)

-- Stopping an execution leaves no pending request for it, and keeps those of the others.
pub stop_execution_forgets :
    (ex_id j : String) (exclude : Option String) (nodes : List Node) (pending : List Request)
    → let rest = (stop_execution ex_id exclude nodes pending).0 in
      any_of (λ (r : Request). r.ex_id === j) rest
      ≡ not (ex_id === j) && any_of (λ (r : Request). r.ex_id === j) pending
unfolding stop_execution
stop_execution_forgets ex_id j exclude nodes [] = ground arith
stop_execution_forgets ex_id j exclude nodes (r ∷ pending) = ground (
  arith,
  ===_iff r.ex_id ex_id,
  ===_iff r.ex_id j,
  ===_iff ex_id j,
  stop_execution_forgets ex_id j exclude nodes pending,
)
