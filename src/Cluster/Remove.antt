-- ===== src/Cluster/Remove.antt =====
-- Removing and setting workers: removeWorkers and setWorkers of
-- packages/teraslice/lib/cluster/services/cluster/backends/native/index.js. No node is named `_total`.
use teraslice.Cluster.State.{Node, Placed, add_to, find_workers_by_execution_id}
use teraslice.Cluster.Allocate.{Request, add_workers}
use teraslice.Base.{
  ℕ, zero, suc, ◌-◌, String, ◌&&◌, Option, none, some, List, [], ◌∷◌, ltb, leb, ◌==◌, if◌then◌else◌,
  length,
}

-- The `reduce` of `removeWorkers`, but `_total`, which is the number of the workers.
unfoldable pub tally : List Placed → List (String × ℕ) → List (String × ℕ)
tally [] m = m
tally (p ∷ l) m = tally l (add_to p.node_id 1 m)

pub record Removing : Type 0 where
  pub counts : List (String × ℕ)
  pub left : ℕ
  pub dispatch : List (String × ℕ)

abbrev pub with_count : String → ℕ → Removing → Removing
with_count k n r = record r { counts = (k, n) ∷ r.counts }

-- `_.forOwn(workersData, stateForDispatch)`
unfoldable pub remove_pass : List (String × ℕ) → ℕ → List (String × ℕ) → Removing
remove_pass [] left d = record { counts = []; left = left; dispatch = d }
remove_pass ((k, n) ∷ l) left d =
    let go = leb 1 n && ltb 0 left in
    with_count k (if go then n - 1 else n)
      (remove_pass l (if go then left - 1 else left) (if go then add_to k 1 d else d))

-- `while (workerCount)`; `none` is a loop that has not ended within the fuel.
unfoldable pub remove_loop : ℕ → Removing → Option Removing
unfolding remove_pass
remove_loop zero r = if r.left == 0 then some r else none
remove_loop (suc fuel) r =
    let rest = remove_loop fuel (remove_pass r.counts r.left r.dispatch) in
    if r.left == 0 then some r else rest

-- `code: 400`, or the number of workers that each node is told to remove.
pub data Removed : Type 0 where
  too_many : ℕ → ℕ → Removed
  told : List (String × ℕ) → Removed

abbrev pub telling : Option Removing → Option Removed
telling none = none
telling (some r) = some (told r.dispatch)

unfoldable pub remove_workers : ℕ → String → ℕ → List Node → Option Removed
unfolding tally remove_loop find_workers_by_execution_id
remove_workers fuel ex_id n nodes =
    let workers = find_workers_by_execution_id ex_id nodes in
    if leb (length workers) n
    then some (too_many n (length workers))
    else telling (remove_loop fuel (record { counts = tally workers []; left = n; dispatch = [] }))

pub data Setting : Type 0 where
  removing : Option Removed → Setting
  adding : ℕ → List Request → Setting
  unchanged : Setting

unfoldable pub set_workers : ℕ → Request → ℕ → List Node → List Request → Setting
unfolding remove_workers add_workers find_workers_by_execution_id
set_workers fuel r n nodes pending =
    let total = length (find_workers_by_execution_id r.ex_id nodes) in
    if ltb n total
    then removing (remove_workers fuel r.ex_id (total - n) nodes)
    else if ltb total n
    then adding (n - total) (add_workers r (n - total) pending)
    else unchanged
