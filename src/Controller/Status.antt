-- ===== src/Controller/Status.antt =====
-- The status that an execution is given by packages/teraslice/lib/workers/execution-controller/index.js,
-- on the storage that `Execution.Store` models. A chain of promises is taken as one step, with its time,
-- the analytics (`stats`), the counts of the state storage and the text of a number as arguments.
pub mod Completed
pub mod Held
pub mod Failing
pub mod Tests
use teraslice.Controller.Scheduler.{Scheduler, is_finished, can_complete, is_recovering}
use teraslice.Controller.Scheduler.Drain.{shutdown}
use teraslice.Execution.Status.{
  Status, same, includes, terminal_status, running_status, running, failing, stopping, completed,
  stopped, failed, terminated,
}
use teraslice.Execution.Record.{MetaData, no_metadata}
use teraslice.Execution.Backend.{Backend}
use teraslice.Execution.Store.{
  Failure, backend, get_status, set_status, update_metadata, execution_metadata,
}
use Prim.Native.String.{◌++◌ as concat}
use teraslice.Base.{
  ℕ, zero, suc, ◌+◌, ◌-◌, ◌*◌, ◌≤◌, ◌<◌, String, ◌≡◌, refl, sym, ap, subst, ◌∙◌, ◌≢◌, ◌↔◌, ◌⊎◌, inl,
  inr, Bool, true, false, not, ◌&&◌, ◌||◌, Option, none, some, List, [], ◌∷◌, ◌++◌, map, arith, ltb,
  leb, ◌==◌, if◌then◌else◌, ltb→lt, lt→ltb, leb→le, ==_iff, Bool-cases, Option-cases, ◌===◌,
  ===_iff, length, keep_if, any_of, All, length-append, length-map, length-keep_if-le, All-append,
  Result, ok, err, ◌>>=◌, map_err, map_ok, is_ok, min,
}

-- Whether the counts of `_checkExecutionErrorState` and `_checkExecutionStartedState` are known.
pub record Counts : Type 0 where
  pub errors : Result String ℕ
  pub started : Result String ℕ

abbrev pub number_of : (ℕ → String) → ℕ → String → String → String
number_of to_text n one many = concat (to_text n) (if n == 1 then one else many)

unfoldable pub format_execution_failure : (ℕ → String) → String → ℕ → ℕ → String
format_execution_failure to_text ex_id errors started =
    let started_msg =
      number_of to_text started " slice stuck in started" " slices stuck in started" in
    let errors_msg = number_of to_text errors " slice failure" " slice failures" in
    let what =
      if errors == 0 && ltb 0 started
      then concat " had " started_msg
      else concat (concat " had " errors_msg)
          (if ltb 0 started then concat ", and had " started_msg else "") in
    concat (concat (concat "execution: " ex_id) what) " during processing"

module _ (b : Backend) where
  open b use {Docs}

  pub record Ending : Type 0 where
    pub docs : Docs
    pub scheduler : Scheduler
    pub is_done_processing : Bool
    pub slicer_failed : Bool
    pub is_execution_finished : Bool
    pub is_execution_done : Bool

  abbrev pub is_stopping : Option Status → Bool
  is_stopping none = false
  is_stopping (some s) = same s stopping || same s stopped

  -- What a step leaves of the documents, and its rejection.
  abbrev pub settled : Docs → Result Failure Docs → Docs × Option Failure
  settled d (ok d') = (d', none)
  settled d (err f) = (d, some f)

  -- The execution was shut down before it had processed all slices.
  abbrev pub unfinished :
      Docs → ℕ → String → Option String → Result Failure (Option Status) → Docs × Option Failure
  unfinished d now id stats (err f) = (d, some f)
  unfinished d now id stats (ok status) =
      if is_stopping status
      then settled d (update_metadata b d now id (execution_metadata stats none))
      else (let msg =
            concat (concat "execution " id)
              " received shutdown before the slicer could complete, setting status to \"terminated\"" in
          ((set_status b d now id terminated (execution_metadata stats (some msg))).0, none))

  abbrev pub finished :
      (ℕ → String)
      → Docs
      → ℕ
      → String
      → Option String
      → Result String ℕ
      → Result String ℕ
      → Docs × Option Failure
  finished to_text d now id stats (err m) _ = (d, some (backend m))
  finished to_text d now id stats (ok _) (err m) = (d, some (backend m))
  finished to_text d now id stats (ok errors) (ok started) =
      if ltb 0 errors || ltb 0 started
      then (
        (set_status b d now id failed (
            execution_metadata stats
              (some (format_execution_failure to_text id errors started)))).0,
        none,
      )
      else ((set_status b d now id completed (execution_metadata stats none)).0, none)

  unfoldable pub update_execution_status :
      (ℕ → String) → ℕ → String → Option String → Counts → Ending → Docs × Option Failure
  unfolding get_status set_status execution_metadata update_metadata format_execution_failure
  update_execution_status to_text now id stats counts e =
      if e.slicer_failed
      then (e.docs, none)
      else if not e.is_done_processing
      then unfinished e.docs now id stats (get_status b e.docs id)
      else finished to_text e.docs now id stats counts.errors counts.started

  unfoldable pub end_execution : ℕ → Ending → Ending
  unfolding shutdown
  end_execution now e = record e { is_execution_done = true; scheduler = shutdown now e.scheduler }

  -- The rejection of the update is caught.
  unfoldable pub finish_execution :
      (ℕ → String) → ℕ → String → Option String → Counts → Ending → Ending
  unfolding update_execution_status end_execution
  finish_execution to_text now id stats counts e =
      if e.is_execution_finished
      then e
      else end_execution now (record e {
        docs = (update_execution_status to_text now id stats counts e).0;
        is_execution_finished = true;
      })

  unfoldable pub set_failing_status : ℕ → String → Option String → Ending → Ending
  unfolding set_status execution_metadata
  set_failing_status now id stats e =
      let msg = concat (concat "execution " id) " has encountered a processing error" in
      record e {
        docs = (set_status b e.docs now id failing (execution_metadata stats (some msg))).0;
      }

  -- `msg` is the error with the prefix that says which slicer had it.
  unfoldable pub terminal_error : ℕ → String → Option String → String → Ending → Ending
  unfolding set_status execution_metadata end_execution
  terminal_error now id stats msg e =
      if e.is_execution_done
      then e
      else end_execution now (record e {
        slicer_failed = true;
        docs = (set_status b e.docs now id failed (execution_metadata stats (some msg))).0;
      })

  -- Whether the execution may be set to running, or else the message that is sent.
  abbrev pub verified : String → Option Status → Option String
  verified id none = none
  verified id (some status) =
      let start = concat (concat "Execution " id) " was starting in " in
      let rest : String = " status, sending execution:finished event to cluster master" in
      if includes terminal_status status
      then some (concat (concat start "terminal") rest)
      else if includes running_status status
      then some (concat (concat start "running") rest)
      else none

  unfoldable pub verify_execution : Docs → String → Result Failure (Option String)
  unfolding get_status
  verify_execution d id = map_ok (verified id) (get_status b d id)

-- The last lines of `_runExecution`, where the scheduler is the one from before the pending slices are
-- waited for.
unfoldable pub done_processing : Scheduler → Bool → Bool
unfolding is_finished
done_processing s is_done_dispatching = (is_finished s && s.slicers_done) && is_done_dispatching
