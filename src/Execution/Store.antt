-- ===== src/Execution/Store.antt =====
-- The storage of executions: packages/teraslice/lib/cluster/storage/execution.js.
-- A promise is its settled result, and `new Date()` is an argument.
use teraslice.Base.{
  ℕ, Bool, false, Option, none, some, String, if◌then◌else◌, ◌===◌, not, Result, ok, err, map_err,
  map_ok, ◌>>=◌, ◌&&◌,
}
use teraslice.Execution.Status.{
  Status, same, is_valid_status, is_running_status, is_terminal_status, is_init_status,
}
use teraslice.Execution.Record.{Execution, MetaData, no_metadata}
use teraslice.Execution.Backend.{Backend}

-- The errors that the functions reject with.
pub data Failure : Type 0 where
  no_ex_id : Failure
  backend : String → Failure
  cannot_get_status : String → Failure → Failure
  invalid_status : Option Status → Failure
  running_to_init : Status → Status → Failure
  from_terminal : Status → Status → Failure

abbrev is_running : Option Status → Bool
is_running none = false
is_running (some s) = is_running_status s

abbrev is_terminal : Option Status → Bool
is_terminal none = false
is_terminal (some s) = is_terminal_status s

-- The callback of `verifyStatusUpdate` on the stored status, which a document may lack.
unfoldable pub check_update : Option Status → Status → Result Failure (Option Status)
unfolding is_running_status is_terminal_status is_init_status
check_update none desired = ok none
check_update (some status) desired =
    if same desired status
    then ok none
    else if is_running_status status && is_init_status desired
    then err (running_to_init status desired)
    else if is_terminal_status status
    then err (from_terminal status desired)
    else ok (some status)

unfoldable pub execution_metadata : Option String → Option String → MetaData
execution_metadata stats none = record no_metadata { errors = some false; stats = stats }
execution_metadata stats (some msg) = record no_metadata {
  errors = some (not (msg === ""));
  stats = stats;
  reason = if msg === "" then none else some msg;
}

-- What `setStatus` resolves with: the id, or the error that it caught.
pub data Outcome : Type 0 where
  done : String → Outcome
  caught : Failure → Outcome

module _ (b : Backend) where
  open b use {Docs, get, update}

  unfoldable pub get_execution : Docs → String → Result Failure Execution
  get_execution d id = if id === "" then err no_ex_id else map_err backend (get d id)

  unfoldable pub get_status : Docs → String → Result Failure (Option Status)
  unfolding get_execution
  get_status d id =
      map_err (cannot_get_status id) (map_ok (λ (e : Execution). e.status) (get_execution d id))

  unfoldable pub verify_status_update :
      Docs → String → Option Status → Result Failure (Option Status)
  unfolding get_status check_update is_valid_status
  verify_status_update d id none = err (invalid_status none)
  verify_status_update d id (some desired) =
      if is_valid_status desired
      then (get_status d id >>= λ status. check_update status desired)
      else err (invalid_status (some desired))

  -- The rejections of the chain are caught and become its value.
  abbrev settle : Docs → String → Result Failure Docs → Docs × Outcome
  settle d id (ok d') = (d', done id)
  settle d id (err e) = (d, caught e)

  unfoldable pub set_status : Docs → ℕ → String → Status → MetaData → Docs × Outcome
  unfolding verify_status_update
  set_status d now id status meta = settle d id (do
    _ ← verify_status_update d id (some status)
    map_err backend (update d id (record { status = some status; meta = meta; updated = now })))

  -- `update` with metadata alone.
  unfoldable pub update_metadata : Docs → ℕ → String → MetaData → Result Failure Docs
  update_metadata d now id meta =
      map_err backend (update d id (record { status = none; meta = meta; updated = now }))
