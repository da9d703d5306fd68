-- ===== src/Cluster/NodeMaster/Tests.antt =====
-- The master process of packages/teraslice/lib/cluster/node_master.js with a limit of two workers.
use teraslice.Cluster.NodeMaster.{Child, Create, Master, workers_create, run_exclusive}
use teraslice.Cluster.NodeMaster.Limit.{
  is_worker, workers_of, wanted, Within, here, next, asks, turns, Reach-limit,
}
use teraslice.Cluster.NodeMaster.Stopping.{
  Seen, begin_shutdown, shutdown_ticks, begin_shutdown-ends,
}
use teraslice.Base.{
  ℕ, zero, suc, ◌≤◌, ◌≡◌, refl, true, false, none, List, [], ◌∷◌, arith, if◌then◌else◌, length, All,
}

abbrev child : Create → Child
child r = record {
  worker_id = "1";
  assignment = if r.is_controller then "execution_controller" else "worker";
  pid = 7;
  ex_id = r.ex_id;
  job_id = "j1";
  assets = none;
  is_dead = false;
}

abbrev start : ℕ → Create → List Child
start zero r = []
start (suc n) r = child r ∷ start n r

start_length : (n : ℕ) (r : Create) → length (start n r) ≡ n
start_length zero r = refl
start_length (suc n) r = omega (arith, start_length n r)

controller_child : (r : Create) → r.is_controller ≡ true → is_worker (child r) ≡ false
controller_child r h = rw h refl

start_no_worker : (n : ℕ) (r : Create) → r.is_controller ≡ true → workers_of (start n r) ≡ 0
start_no_worker zero r h = refl
start_no_worker (suc n) r h = rw (controller_child r h) (start_no_worker n r h)

abbrev master : Master
master = record { children = []; pending_allocations = 0; waiting = []; answers = [] }

abbrev request : Create
request = record { ex_id = "e1"; workers = 3; is_controller = false }

Reach-limit_example :
    let n = run_exclusive 2 start true (workers_create 2 request master) in
    (workers_of n.children ≤ 2) × (n.pending_allocations ≡ wanted n.waiting) × All Within n.answers
Reach-limit_example =
    Reach-limit 2 start start_length start_no_worker master
      (run_exclusive 2 start true (workers_create 2 request master))
      (next (next here (asks request refl)) (turns true)) (omega arith) refl refl refl

-- The action is never complete.
abbrev seen : ℕ → List Seen
seen zero = []
seen (suc n) = record { done = false; ids = []; children = [] } ∷ seen n

begin_shutdown-ends_example :
    let r = shutdown_ticks true (seen 17) (begin_shutdown 200 false [] []) in
    (r.is_set ≡ false) × (1 ≤ r.responses) × (r.responses ≤ 2)
begin_shutdown-ends_example =
    begin_shutdown-ends true false 200 16 [] [] (seen 17) (omega arith) refl
