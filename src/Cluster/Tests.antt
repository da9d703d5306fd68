-- ===== src/Cluster/Tests.antt =====
-- The native cluster service on a cluster of two nodes.
use teraslice.Cluster.State.{Node, Worker, find_workers_by_execution_id, available_workers}
use teraslice.Cluster.Allocate.{Request, allocate_workers, wanted}
use teraslice.Cluster.Allocation.{allocate_workers-min, sent}
use teraslice.Cluster.Remove.{remove_workers, told}
use teraslice.Cluster.Removal.{remove_workers-told, sum_if, placed_on}
use teraslice.Cluster.Handlers.{Cluster}
use teraslice.Base.{
  ℕ, ◌+◌, ◌-◌, ◌≤◌, String, ◌≡◌, refl, Bool, true, false, some, List, [], ◌∷◌, arith, min, negsuc,
  pos, nat_of,
}

abbrev worker : Worker
worker = record { assignment = "worker"; ex_id = "e1" }

abbrev controller : Worker
controller = record { assignment = "execution_controller"; ex_id = "e1" }

abbrev first : Node
first = record {
  node_id = "n1";
  hostname = "h1";
  state = "connected";
  available = negsuc 0;
  total = 4;
  active = controller ∷ worker ∷ worker ∷ [];
}

abbrev second : Node
second = record {
  node_id = "n2";
  hostname = "h2";
  state = "connected";
  available = pos 2;
  total = 3;
  active = worker ∷ [];
}

abbrev nodes : List Node
nodes = first ∷ second ∷ []

abbrev sorted : List Node
sorted = second ∷ first ∷ []

abbrev request : Request
request = record { job = "{}"; ex_id = "e1"; job_id = "j1"; workers = 1 }

abbrev cluster : Cluster
cluster = record {
  nodes = ("n1", first) ∷ ("n2", second) ∷ [];
  dropped = [];
  pending = request ∷ [];
}

allocate_workers-min_example :
    (p : List (String × Request) × List Request) × (allocate_workers 5 sorted nodes request 5 []
      ≡ some p)
    × (sent p.0 ≡ min 5 (nat_of (available_workers false true 0 nodes)))
    × (wanted p.1 ≡ wanted [] + (5 - nat_of (available_workers false true 0 nodes)))
allocate_workers-min_example = allocate_workers-min nodes sorted request 5 [] refl

remove_workers-told_example :
    (d : List (String × ℕ)) × (remove_workers 2 "e1" 2 nodes ≡ some (told d))
    × (sum_if (λ _. true) d ≡ 2)
    × ((w : String → Bool) → sum_if w d ≤ placed_on w (find_workers_by_execution_id "e1" nodes))
unfolding find_workers_by_execution_id
remove_workers-told_example = remove_workers-told "e1" 2 nodes (omega arith)

abbrev one : Node
one = record first { available = pos 1 }

-- The passes do not look at what a node was given before: the first node has room for one worker and is
-- asked for two.
over_dispatch :
    allocate_workers 4 (second ∷ one ∷ []) (one ∷ second ∷ one ∷ []) request 4 []
    ≡ some
        (("n2", record request { workers = 2 }) ∷ ("n1", record request { workers = 2 }) ∷ [], [])
unfolding allocate_workers
over_dispatch = refl
