-- ===== src/Services/ExecutionService.antt =====
-- The execution service: packages/teraslice/lib/cluster/services/execution.js, over the storage of
-- executions. The answers of the cluster service and of the execution controllers are arguments, the
-- calls to them are effects.
pub mod Laws
use teraslice.Execution.Status.{
  Status, terminal_status, same, pending, scheduling, initializing, running, paused, stopping,
  stopped, completed, failed,
}
use teraslice.Execution.Record.{Execution, MetaData, OpConfig, Interval, text, parts, no_metadata}
use teraslice.Execution.Backend.{Backend}
use teraslice.Execution.Store.{
  set_status, verify_status_update, get_execution, execution_metadata, Failure, Outcome,
}
use teraslice.Cluster.State.{Node, Worker}
use teraslice.Base.{
  ℕ, zero, suc, ◌+◌, ◌-◌, ◌*◌, ◌≤◌, ◌<◌, String, ◌≡◌, refl, sym, ap, subst, ◌∙◌, ◌≢◌, ◌↔◌, ◌⊎◌, inl,
  inr, Bool, true, false, not, ◌&&◌, ◌||◌, Option, none, some, List, [], ◌∷◌, ◌++◌, map, arith, ltb,
  leb, ◌==◌, if◌then◌else◌, ltb→lt, lt→ltb, leb→le, ==_iff, Bool-cases, Option-cases, ◌===◌,
  ===_iff, length, keep_if, any_of, All, length-append, length-map, length-keep_if-le, All-append,
  Result, ok, err, ◌>>=◌, map_err, map_ok, is_ok, min,
}

-- `active` of every node, connected or not.
unfoldable pub is_active : String → List Node → Bool
is_active ex_id [] = false
is_active ex_id (n ∷ l) = any_of (λ (w : Worker). w.ex_id === ex_id) n.active || is_active ex_id l

abbrev pub equals : Option Status → Status → Bool
equals none s = false
equals (some t) s = same t s

-- `_isTerminalStatus` of a value whose field `_status` is the argument.
unfoldable pub is_terminal_object : Option Status → Bool
is_terminal_object status = any_of (equals status) terminal_status

-- The field `_status` of a text.
abbrev pub field_of_text : Status → Option Status
field_of_text s = none

pub data Effect : Type 0 where
  cluster_stop : String → Effect
  watch_stop : String → Effect

-- Why `_canRecover` throws.
pub data Refusal : Type 0 where
  not_found already_completed being_scheduled still_running : Refusal

unfoldable pub can_recover : Option Execution → Result Refusal Execution
can_recover none = err not_found
can_recover (some e) =
    if equals e.status completed
    then err already_completed
    else if equals e.status scheduling || equals e.status pending
    then err being_scheduled
    else if equals e.status running
    then err still_running
    else ok e

module _ (join : List String → String) where
  abbrev join_interval : OpConfig → OpConfig
  join_interval c =
      if c.op === "elasticsearch_reader"
      then record c {
        interval = elim c.interval [
          | none ↦ none
          | some i ↦ some (elim i [ text t ↦ text t | parts l ↦ text (join l) ])
        ];
      }
      else c

  unfoldable pub remove_metadata : Execution → Execution
  remove_metadata e = record e {
    ex_id = none;
    created = none;
    updated = none;
    status = none;
    slicer_hostname = none;
    slicer_port = none;
    has_errors = none;
    slicer_stats = none;
    failure_reason = none;
    recovered_slice_state = none;
    operations = map join_interval e.operations;
  }

  -- The execution that `recoverExecution` creates.
  unfoldable pub recover_execution :
      String → Option String → Option Execution → Result Refusal Execution
  unfolding can_recover remove_metadata
  recover_execution ex_id cleanup found =
      map_ok
        (λ e. record (remove_metadata e) {
          recovered_execution = some ex_id;
          recovered_slice_type = elim cleanup [
            | none ↦ e.recovered_slice_type
            | some c ↦ if c === "" then e.recovered_slice_type else some c
          ];
        })
        (can_recover found)

-- An id that is missing is as falsy as an empty one.
abbrev pub id_of : Option String → String
id_of none = ""
id_of (some id) = id

-- `getActiveExecution`, with the documents that the query finds.
unfoldable pub get_active_execution : List Execution → Result String Execution
get_active_execution [] = err "no active execution context was found"
get_active_execution (e ∷ l) = ok e

-- `getRunningExecutions`, with the documents that the query finds.
unfoldable pub get_running_executions : List Execution → List (Option String)
get_running_executions found = map (λ (e : Execution). e.ex_id) found

module _ (b : Backend) where
  open b use {Docs}

  -- One run of `checkCluster`: `none` waits.
  abbrev pub set_if_valid : Docs → Docs → Result Failure (Option Status) → Docs
  set_if_valid d d' (ok v) = d'
  set_if_valid d d' (err e) = d

  unfoldable pub execution_has_stopped : Docs → ℕ → String → Option Status → List Node → Option Docs
  unfolding is_active verify_status_update set_status
  execution_has_stopped d now ex_id status nodes =
      let s = elim status as (λ _. Status) [ none ↦ stopped | some t ↦ t ] in
      if is_active ex_id nodes
      then none
      else some (
          set_if_valid d (set_status b d now ex_id s no_metadata).0
            (verify_status_update b d ex_id (some s)))

  -- What `stopExecution` leaves in the store and asks for, and the error that it rejects with: `cluster`
  -- is what clusterService.stopExecution settles with.
  unfoldable pub stop_known :
      Docs → ℕ → String → Status → Option String → Docs × List Effect × Option String
  unfolding is_terminal_object set_status
  stop_known d now ex_id status cluster =
      if is_terminal_object (field_of_text status)
      then (d, [], none)
      else if same status stopping
      then (d, watch_stop ex_id ∷ [], none)
      else (
        (set_status b d now ex_id stopping no_metadata).0,
        cluster_stop ex_id ∷ (elim cluster [ none ↦ watch_stop ex_id ∷ [] | some m ↦ [] ]),
        cluster,
      )

  -- Without a status, `_isTerminalStatus` throws.
  abbrev pub stop_status :
      Docs → ℕ → String → Option Status → Option String → Docs × List Effect × Option String
  unfolding stop_known
  stop_status d now ex_id none cluster = (d, [], some "no status")
  stop_status d now ex_id (some s) cluster = stop_known d now ex_id s cluster

  abbrev pub stop_found :
      Docs
      → ℕ
      → String
      → Result Failure Execution
      → Option String
      → Docs × List Effect × Option String
  unfolding stop_known
  stop_found d now ex_id (err e) cluster = (d, [], some "no execution context was found")
  stop_found d now ex_id (ok e) cluster = stop_status d now ex_id e.status cluster

  unfoldable pub stop_execution :
      Docs → ℕ → String → Option String → Docs × List Effect × Option String
  unfolding get_execution stop_known
  stop_execution d now ex_id cluster = stop_found d now ex_id (get_execution b d ex_id) cluster

  unfoldable pub finish_execution : Docs → String → Option (List Effect)
  unfolding get_execution
  finish_execution d ex_id = elim (get_execution b d ex_id) [
    | err e ↦ none
    | ok e ↦ some (
        if equals e.status stopping || equals e.status stopped then [] else cluster_stop ex_id ∷ [])
  ]

  -- `createExecutionContext`: `made` is the answer of the store to `create`. Its second handler,
  -- "could not set to pending", is not reached, since `setStatus` resolves with its error.
  unfoldable pub create_execution_context :
      Docs
      → ℕ
      → Result String Execution
      → List Execution
      → Docs × List Execution × Result String String
  unfolding set_status
  create_execution_context d now (err e) queue =
      (d, queue, err "Failure to create execution context")
  create_execution_context d now (ok ex) queue =
      ((set_status b d now (id_of ex.ex_id) pending no_metadata).0, queue ++ ex ∷ [], ok ex.job_id)

  -- `pauseExecution` and `resumeExecution`: the flag is `isClientReady`; the controller answers with an
  -- error or with none.
  unfoldable pub send_and_set :
      Status → Docs → ℕ → String → Bool → Option String → Result String Docs
  unfolding set_status
  send_and_set status d now ex_id false sent = err "not available"
  send_and_set status d now ex_id true (some e) = err e
  send_and_set status d now ex_id true none = ok (set_status b d now ex_id status no_metadata).0

  unfoldable pub pause_execution : Docs → ℕ → String → Bool → Option String → Result String Docs
  unfolding send_and_set
  pause_execution = send_and_set paused

  unfoldable pub resume_execution : Docs → ℕ → String → Bool → Option String → Result String Docs
  unfolding send_and_set
  resume_execution = send_and_set running

  -- The chain of the allocator for a dequeued execution, with the answers of `allocateSlicer` (the
  -- port and host) and `allocateWorkers`.
  abbrev pub set : ℕ → String → Status → MetaData → Docs → Docs
  unfolding set_status
  set now ex_id status meta d = (set_status b d now ex_id status meta).0

  unfoldable pub provision : Docs → ℕ → String → Result String (ℕ × String) → Option String → Docs
  unfolding set_status execution_metadata
  provision d now ex_id (err e) workers =
      set now ex_id failed (execution_metadata none (some e))
        (set now ex_id scheduling no_metadata d)
  provision d now ex_id (ok (port, host)) none =
      set now ex_id initializing (record no_metadata { port = some port; hostname = some host })
        (set now ex_id scheduling no_metadata d)
  provision d now ex_id (ok (port, host)) (some e) =
      set now ex_id failed (execution_metadata none (some e)) (
        set now ex_id initializing (record no_metadata { port = some port; hostname = some host })
          (set now ex_id scheduling no_metadata d))

pub record Allocator : Type 0 where
  pub allocating : Bool
  pub queue : List Execution

-- A call of the allocator: the execution that it starts to schedule, if any.
unfoldable pub allocator : Bool → Allocator → Option Execution × Allocator
allocator ready a = if a.allocating then (none, a) else (elim a.queue [
  | [] ↦ (none, a)
  | e ∷ rest ↦ if ready then (some e, record { allocating = true; queue = rest }) else (none, a)
])
