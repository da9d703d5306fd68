-- ===== src/Cluster/KubernetesState.antt =====
-- The state of a cluster on Kubernetes:
-- packages/teraslice/lib/cluster/services/cluster/backends/kubernetes/k8sState.js. The state is a list of nodes
-- by their addresses, as the object has them; the fields that are always the same are left out.
pub mod Pods
pub mod Tests
use teraslice.Base.{
  ℕ, zero, suc, ◌+◌, ◌-◌, ◌*◌, ◌≤◌, ◌<◌, String, ◌≡◌, refl, sym, ap, subst, ◌∙◌, ◌≢◌, ◌↔◌, ◌⊎◌, inl,
  inr, Bool, true, false, not, ◌&&◌, ◌||◌, Option, none, some, List, [], ◌∷◌, ◌++◌, map, arith, ltb,
  leb, ◌==◌, if◌then◌else◌, ltb→lt, lt→ltb, leb→le, ==_iff, Bool-cases, Option-cases, ◌===◌,
  ===_iff, length, keep_if, any_of, All, length-append, length-map, length-keep_if-le, All-append,
  Result, ok, err, ◌>>=◌, map_err, map_ok, is_ok, min,
}

pub record Pod : Type 0 where
  pub name : String
  pub cluster_name : Option String
  pub node_type : String
  pub ex_id : String
  pub job_id : String
  pub host_ip : String
  pub pod_ip : String
  pub phase : String

pub record Worker : Type 0 where
  pub worker_id : String
  pub assignment : String
  pub ex_id : String
  pub job_id : String
  pub pod_ip : String

pub record KubeNode : Type 0 where
  pub node_id : String
  pub hostname : String
  pub active : List Worker

abbrev pub worker_of : Pod → Worker
worker_of p = record {
  worker_id = p.name;
  assignment = p.node_type;
  ex_id = p.ex_id;
  job_id = p.job_id;
  pod_ip = p.pod_ip;
}

abbrev pub is_member : String → Pod → Bool
is_member label p = elim p.cluster_name [ none ↦ false | some c ↦ c === label ]

abbrev pub is_running : Pod → Bool
is_running p = p.phase === "Running"

abbrev pub has_key : String → List (String × KubeNode) → Bool
has_key ip [] = false
has_key ip ((k, n) ∷ l) = if k === ip then true else has_key ip l

abbrev pub push_active : String → Worker → List (String × KubeNode) → List (String × KubeNode)
push_active ip w [] = []
push_active ip w ((k, n) ∷ l) =
    if k === ip
    then (k, record n { active = n.active ++ w ∷ [] }) ∷ l
    else (k, n) ∷ push_active ip w l

abbrev pub ensure_node : String → List (String × KubeNode) → List (String × KubeNode)
ensure_node ip s =
    if has_key ip s then s else s ++ (ip, record { node_id = ip; hostname = ip; active = [] }) ∷ []

-- The body of the loop over the pods.
unfoldable pub add_pod : String → Pod → List (String × KubeNode) → List (String × KubeNode)
add_pod label p s =
    if is_member label p
    then (let s' = ensure_node p.host_ip s in
        if is_running p then push_active p.host_ip (worker_of p) s' else s')
    else s

unfoldable pub add_pods : String → List Pod → List (String × KubeNode) → List (String × KubeNode)
unfolding add_pod
add_pods label [] s = s
add_pods label (p ∷ pods) s = add_pods label pods (add_pod label p s)

abbrev pub runs_on : String → Pod → Bool
runs_on ip p = p.host_ip === ip

-- The nodes without a pod are deleted.
abbrev pub without_old : List Pod → List (String × KubeNode) → List (String × KubeNode)
without_old pods s = keep_if (λ n. any_of (runs_on n.0) pods) s

abbrev pub emptied : List (String × KubeNode) → List (String × KubeNode)
emptied s = map (λ n. (n.0, record n.1 { active = [] })) s

unfoldable pub gen : List Pod → List (String × KubeNode) → String → List (String × KubeNode)
unfolding add_pods
gen pods s label = add_pods label pods (emptied (without_old pods s))
