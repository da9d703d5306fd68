-- ===== src/Cluster/KubernetesState/Tests.antt =====
-- A cluster on Kubernetes with two pods of two clusters.
use teraslice.Cluster.KubernetesState.{Pod, KubeNode, runs_on, has_key, gen}
use teraslice.Cluster.KubernetesState.Pods.{active_at, has_member, shown, gen-shown}
use teraslice.Base.{String, ◌≡◌, ◌&&◌, ◌||◌, none, some, List, [], ◌∷◌, if◌then◌else◌, any_of}

abbrev pod : Pod
pod = record {
  name = "p1";
  cluster_name = some "c1";
  node_type = "worker";
  ex_id = "e1";
  job_id = "j1";
  host_ip = "10.0.0.1";
  pod_ip = "10.1.0.1";
  phase = "Running";
}

abbrev pods : List Pod
pods = pod ∷ record pod { cluster_name = some "c2" } ∷ record pod { phase = "Pending" } ∷ []

abbrev old : List (String × KubeNode)
old = ("10.0.0.9", record { node_id = "10.0.0.9"; hostname = "10.0.0.9"; active = [] }) ∷ []

gen-shown_example : active_at "10.0.0.1" (gen pods old "c1") ≡ (
    if any_of (runs_on "10.0.0.1") pods
      && (has_key "10.0.0.1" old || has_member "c1" "10.0.0.1" pods)
    then some (shown "c1" "10.0.0.1" pods)
    else none)
gen-shown_example = gen-shown pods old "c1" "10.0.0.1"
