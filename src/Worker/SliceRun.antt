-- ===== src/Worker/SliceRun.antt =====
-- The run of a slice on a worker: packages/teraslice/lib/workers/worker/slice.js. What bluebird-retry
-- answers, the stores and the operations' hooks are arguments.
use teraslice.Base.{
  ℕ, ◌+◌, String, ◌≡◌, ◌↔◌, ◌⊎◌, Bool, true, false, not, ◌&&◌, Option, none, some, List, [], ◌∷◌,
  ◌++◌, arith, ltb, if◌then◌else◌, any_of, Result, ok, err, is_ok,
}

pub data Event : Type 0 where
  retrying succeeded failed finalized : Event

-- Why `run` throws.
pub data SliceError : Type 0 where
  already_shutdown : SliceError
  success_update : String → SliceError
  failed_update : String → SliceError
  hook : String → SliceError
  stop : String → SliceError
  processing : String → SliceError
  analytics : String → SliceError

abbrev pub is_none : Option String → Bool
is_none none = true
is_none (some e) = false

abbrev pub or_empty : Option String → String
or_empty none = ""
or_empty (some e) = e

-- What one call of `_runOnce` does: `runSlice` answers with results, or fails.
pub data Attempt : Type 0 where
  returns : String → Attempt
  throws : String → Attempt
  -- A `StopError`, which ends the retries.
  gives_up : String → Attempt

unfoldable pub run_once : Bool → Bool → Result String String → Option String → List Event × Attempt
run_once true should_retry answer retry_error =
    ([], gives_up "Slice shutdown during slice execution")
run_once false should_retry (ok results) retry_error = ([], returns results)
run_once false false (err e) retry_error = ([], throws e)
run_once false true (err e) none = (retrying ∷ [], throws e)
run_once false true (err e) (some r) = (retrying ∷ [], gives_up r)

unfoldable pub max_tries : ℕ → ℕ
max_tries max_retries = if ltb 0 max_retries then max_retries + 1 else 0

-- The errors of what the run asks of the stores and the hooks.
pub record Answers : Type 0 where
  pub completed : Option String
  pub error : Option String
  pub on_failed : Option String
  pub log : Option String
  pub on_finalizing : Option String

-- The states that updateState was called with, those whose update resolved, the events and what the promise settles with.
pub record Ran : Type 0 where
  pub states : List String
  pub stored : List String
  pub events : List Event
  pub outcome : Result SliceError String

unfoldable pub mark_completed : String → Option String → Ran
mark_completed results none = record {
  states = "completed" ∷ [];
  stored = "completed" ∷ [];
  events = succeeded ∷ [];
  outcome = ok results;
}
mark_completed results (some e) = record {
  states = "completed" ∷ [];
  stored = [];
  events = [];
  outcome = err (success_update e);
}

unfoldable pub mark_failed : SliceError → Option String → Option String → Ran
mark_failed error (some e) on_failed = record {
  states = "error" ∷ [];
  stored = [];
  events = [];
  outcome = err (failed_update e);
}
mark_failed error none (some e) = record {
  states = "error" ∷ [];
  stored = "error" ∷ [];
  events = failed ∷ [];
  outcome = err (hook e);
}
mark_failed error none none = record {
  states = "error" ∷ [];
  stored = "error" ∷ [];
  events = failed ∷ [];
  outcome = err error;
}

-- The `finally`: an error of it takes the place of the outcome.
unfoldable pub finish : Bool → Answers → Ran → Ran
finish has_analytics a r =
    if has_analytics && not (is_none a.log)
    then record r { outcome = err (analytics (or_empty a.log)) }
    else (elim a.on_finalizing [
      | none ↦ record r { events = r.events ++ finalized ∷ [] }
      | some e ↦ record r { events = r.events ++ finalized ∷ []; outcome = err (hook e) }
    ])

unfoldable pub run : Bool → Attempt → Bool → Answers → Ran
unfolding mark_completed mark_failed finish
run true tried has_analytics a = record {
  states = [];
  stored = [];
  events = [];
  outcome = err already_shutdown;
}
run false (returns results) has_analytics a =
    finish has_analytics a (mark_completed results a.completed)
run false (throws e) has_analytics a =
    finish false a (mark_failed (processing e) a.error a.on_failed)
run false (gives_up e) has_analytics a = finish false a (mark_failed (stop e) a.error a.on_failed)

abbrev pub returned : Attempt → Bool
returned (returns r) = true
returned (throws e) = false
returned (gives_up e) = false

-- What the store answers to the one update of a run.
abbrev pub update_answer : Attempt → Answers → Option String
update_answer tried a = if returned tried then a.completed else a.error

abbrev pub state_of : Attempt → String
state_of tried = if returned tried then "completed" else "error"

-- The promise resolves exactly where the slice was processed, its completion stored, its analytics, if
-- it has any, logged, and the last hook passed.
pub run_outcome_iff :
    (tried : Attempt) (has_analytics : Bool) (a : Answers)
    → (is_ok (run false tried has_analytics a).outcome ≡ true) ↔ (
        (returned tried ≡ true)
        × (is_none a.completed ≡ true)
        × (has_analytics ≡ false ⊎ is_none a.log ≡ true)
        × (is_none a.on_finalizing ≡ true))
unfolding run mark_completed mark_failed finish
run_outcome_iff (returns r) h a = ground arith
run_outcome_iff (throws e) h a = ground arith
run_outcome_iff (gives_up e) h a = ground arith

abbrev pub is_finalized : Event → Bool
is_finalized finalized = true
is_finalized retrying = false
is_finalized succeeded = false
is_finalized failed = false

-- A slice is finalized exactly where its analytics, if it was processed and has any, were logged.
pub run_finalizes_iff :
    (tried : Attempt) (has_analytics : Bool) (a : Answers)
    → (any_of is_finalized (run false tried has_analytics a).events ≡ true)
      ↔ ((returned tried && has_analytics && not (is_none a.log)) ≡ false)
unfolding run mark_completed mark_failed finish
run_finalizes_iff (returns r) h a = ground arith
run_finalizes_iff (throws e) h a = ground arith
run_finalizes_iff (gives_up e) h a = ground arith
