-- ===== src/Cluster/NodeMaster.antt =====
-- The master process of a node: packages/teraslice/lib/cluster/node_master.js. A child is an entry of
-- `context.cluster.workers`; `waiting` holds the calls of `allocateWorkers` that have not got the mutex,
-- in their order, and `answers` the responses to the requests, the last one first. What
-- `context.foundation.startWorkers` starts and whether the assets could be loaded are arguments.
pub mod Limit
pub mod Stopping
pub mod Tests
use teraslice.Base.{
  ℕ, zero, suc, ◌+◌, ◌-◌, ◌*◌, ◌≤◌, ◌<◌, String, ◌≡◌, refl, sym, ap, subst, ◌∙◌, ◌≢◌, ◌↔◌, ◌⊎◌, inl,
  inr, Bool, true, false, not, ◌&&◌, ◌||◌, Option, none, some, List, [], ◌∷◌, ◌++◌, map, arith, ltb,
  leb, ◌==◌, if◌then◌else◌, ltb→lt, lt→ltb, leb→le, ==_iff, Bool-cases, Option-cases, ◌===◌,
  ===_iff, length, keep_if, any_of, All, length-append, length-map, length-keep_if-le, All-append,
  Result, ok, err, ◌>>=◌, map_err, map_ok, is_ok, min, ℤ, minus,
}

pub record Child : Type 0 where
  pub worker_id : String
  pub assignment : String
  pub pid : ℕ
  pub ex_id : String
  pub job_id : String
  pub assets : Option (List String)
  pub is_dead : Bool

-- A request for workers, or for one execution controller.
pub record Create : Type 0 where
  pub ex_id : String
  pub workers : ℕ
  pub is_controller : Bool

pub record Master : Type 0 where
  pub children : List Child
  pub pending_allocations : ℕ
  pub waiting : List Create
  pub answers : List (Create × ℕ)

-- A text that is empty where the child has none.
abbrev pub given : String → Option String
given s = if s === "" then none else some s

pub record Active : Type 0 where
  pub worker_id : String
  pub assignment : String
  pub pid : ℕ
  pub ex_id : Option String
  pub job_id : Option String
  pub assets : Option (List String)

abbrev pub active_of : Child → Active
active_of w = record {
  worker_id = w.worker_id;
  assignment = w.assignment;
  pid = w.pid;
  ex_id = given w.ex_id;
  job_id = given w.job_id;
  assets = w.assets;
}

pub record NodeState : Type 0 where
  pub node_id : String
  pub total : ℕ
  pub available : ℤ
  pub active : List Active

unfoldable pub get_node_state : String → ℕ → Master → NodeState
get_node_state node_id total m = record {
  node_id = node_id;
  total = total;
  available = minus total (length m.children + m.pending_allocations);
  active = map active_of m.children;
}

unfoldable pub can_allocate_workers : ℕ → ℕ → Master → Bool
can_allocate_workers limit requested m =
    if ltb limit (length m.children + requested) then ltb 0 (limit - length m.children) else true

-- The call of `allocateWorkers` up to the mutex.
abbrev pub allocate_workers : Create → Master → Master
allocate_workers r m = record m {
  pending_allocations = m.pending_allocations + r.workers;
  waiting = m.waiting ++ r ∷ [];
}

-- The handler of `cluster:workers:create`.
unfoldable pub workers_create : ℕ → Create → Master → Master
unfolding can_allocate_workers
workers_create limit r m =
    if not (can_allocate_workers limit r.workers m)
    then record m { answers = (r, 0) ∷ m.answers }
    else allocate_workers r m

-- The handler of `cluster:execution_controller:create`.
unfoldable pub controller_create : String → Master → Master
controller_create ex_id m =
    allocate_workers (record { ex_id = ex_id; workers = 1; is_controller = true }) m

-- The number of workers that the callback of `cluster:workers:create` starts.
unfoldable pub new_workers : ℕ → ℕ → Master → ℕ
new_workers limit requested m =
    if ltb limit (length m.children + requested) then limit - length m.children else requested

-- A call of `allocateWorkers` in the mutex: the assets could be loaded or not.
abbrev pub allocated : ℕ → (ℕ → Create → List Child) → Bool → Create → List Create → Master → Master
unfolding new_workers
allocated limit start loaded r rest m =
    let n = if r.is_controller then 1 else new_workers limit r.workers m in
    let started = if loaded && ltb 0 n then start n r else [] in
    record m {
      pending_allocations = m.pending_allocations - r.workers;
      waiting = rest;
      children = m.children ++ started;
      answers = (r, length started) ∷ m.answers;
    }

abbrev pub next_turn : ℕ → (ℕ → Create → List Child) → Bool → List Create → Master → Master
unfolding new_workers
next_turn limit start loaded [] m = m
next_turn limit start loaded (r ∷ rest) m = allocated limit start loaded r rest m

unfoldable pub run_exclusive : ℕ → (ℕ → Create → List Child) → Bool → Master → Master
unfolding new_workers
run_exclusive limit start loaded m = next_turn limit start loaded m.waiting m

-- A child has exited.
unfoldable pub child_exit : String → Master → Master
child_exit id m = record m {
  children = keep_if (λ (w : Child). not (w.worker_id === id)) m.children;
}

-- The signals that are sent, by process.
abbrev pub signal_child : String → Child → List (String × ℕ)
signal_child signal w = if w.is_dead then [] else (signal, w.pid) ∷ []

abbrev pub signal_id : String → String → List Child → List (String × ℕ)
signal_id signal id [] = []
signal_id signal id (w ∷ l) =
    if w.worker_id === id then signal_child signal w else signal_id signal id l

unfoldable pub shutdown_workers : String → List String → List Child → List (String × ℕ)
shutdown_workers signal [] l = []
shutdown_workers signal (id ∷ ids) l = signal_id signal id l ++ shutdown_workers signal ids l

-- The filters and the tests of the three handlers that stop children.
abbrev pub ids_of : List Child → List String
ids_of l = map (λ (w : Child). w.worker_id) l

abbrev pub runs : String → Child → Bool
runs ex_id w = w.ex_id === ex_id

abbrev pub works_for : String → Child → Bool
works_for ex_id w = w.ex_id === ex_id && w.assignment === "worker"

abbrev pub first_of {ℓ} : {A : Type ℓ} → ℕ → List A → List A
first_of zero l = []
first_of (suc n) [] = []
first_of (suc n) (x ∷ l) = x ∷ first_of n l

unfoldable pub to_stop : String → List Child → List String
to_stop ex_id l = ids_of (keep_if (runs ex_id) l)

unfoldable pub is_stopped : String → List Child → Bool
is_stopped ex_id l = length (keep_if (runs ex_id) l) == 0

unfoldable pub to_remove : String → ℕ → List Child → List String
to_remove ex_id n l = ids_of (first_of n (keep_if (works_for ex_id) l))

-- `l` are the children when the removal was asked for.
unfoldable pub is_removed : String → ℕ → List Child → List Child → Bool
is_removed ex_id n l now =
    leb (length (keep_if (works_for ex_id) now) + n) (length (keep_if (works_for ex_id) l))
