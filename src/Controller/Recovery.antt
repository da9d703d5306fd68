-- ===== src/Controller/Recovery.antt =====
-- The recovery of an execution: packages/teraslice/lib/workers/execution-controller/recovery.js.
-- `handle` stops at its awaits: `handling` holds the answer that a call which still waits will give,
-- `queried` the slicer ids that the state store was asked for, the last one first.
pub mod Coverage
use teraslice.Controller.Slice.{Slice, Taken, take_slices}
use teraslice.Base.{
  ℕ, false, String, List, Bool, Option, true, length, if◌then◌else◌, none, ◌===◌, some, ltb, ◌==◌,
  zero, ◌+◌, ◌-◌, ◌*◌, ◌≤◌, ◌<◌, ◌≡◌, refl, sym, ap, subst, ◌∙◌, ◌≢◌, ◌↔◌, ◌⊎◌, inl, inr, not, ◌&&◌,
  ◌||◌, ◌++◌, map, arith, leb, ltb→lt, lt→ltb, leb→le, ==_iff, Bool-cases, Option-cases, ===_iff,
  keep_if, any_of, All, length-append, length-map, length-keep_if-le, All-append, Result, ok, err,
  ◌>>=◌, map_err, map_ok, is_ok, min, suc, [], ◌∷◌,
}

pub record Recovery : Type 0 where
  pub slicers_to_recover : ℕ
  pub cleanup_type : Option String
  pub recover_execution : String
  pub recover_complete : Bool
  pub is_shutdown : Bool
  pub retry_state : List (String × Bool)
  pub recovery_queue : List Slice
  pub slicer_id : ℕ
  pub handling : Option Bool
  pub queried : List ℕ

unfoldable pub make_recovery : ℕ → Option String → String → Recovery
make_recovery slicers cleanup execution = record {
  slicers_to_recover = slicers;
  cleanup_type = cleanup;
  recover_execution = execution;
  recover_complete = true;
  is_shutdown = false;
  retry_state = [];
  recovery_queue = [];
  slicer_id = 0;
  handling = none;
  queried = [];
}

unfoldable pub initialize : Recovery → Recovery
initialize r = record r { recover_complete = false }

-- `retryState[id] = waiting`
abbrev pub assign : String → Bool → List (String × Bool) → List (String × Bool)
assign id v [] = (id, v) ∷ []
assign id v ((k, w) ∷ m) = if k === id then (k, v) ∷ m else (k, w) ∷ assign id v m

unfoldable pub slice_complete : Recovery → String → Recovery
slice_complete r id = record r { retry_state = assign id false r.retry_state }

unfoldable pub set_id : Slice → List (String × Bool) → List (String × Bool)
set_id s m = assign s.slice_id true m

-- `slices.forEach((slice) => { _setId(slice); recoveryQueue.enqueue(slice); })`
unfoldable pub enqueue_all : List Slice → Recovery → Recovery
unfolding set_id
enqueue_all [] r = r
enqueue_all (s ∷ l) r =
    enqueue_all l (record r {
      retry_state = set_id s r.retry_state;
      recovery_queue = r.recovery_queue ++ s ∷ [];
    })

-- `store` answers `recoverSlices(recoverExecution, slicerID, cleanupType)`.
unfoldable pub process_incomplete_slices :
    (String → ℕ → Option String → List Slice) → Recovery → ℕ × Recovery
unfolding enqueue_all
process_incomplete_slices store r =
    let slices = store r.recover_execution r.slicer_id r.cleanup_type in
    (length slices, enqueue_all slices (record r { queried = r.slicer_id ∷ r.queried }))

abbrev pub every_false : List (String × Bool) → Bool
every_false [] = true
every_false ((k, v) ∷ m) = if v then false else every_false m

unfoldable pub recovery_batch_completed : Recovery → Bool
recovery_batch_completed r = every_false r.retry_state

-- A call of `handle`, up to its wait for the batch or to its return.
unfoldable pub handle :
    (String → ℕ → Option String → List Slice) → Recovery → Recovery × Option Bool
unfolding process_incomplete_slices
handle store r =
    if r.recover_complete
    then (r, some true)
    else let (count, r1) = process_incomplete_slices store r in
      if count == 0
      then (let r2 : Recovery = record r1 { slicer_id = r1.slicer_id + 1 } in
          (record r2 { handling = some (ltb r2.slicers_to_recover r2.slicer_id) }, none))
      else (record r1 { handling = some false }, none)

-- One run of the interval of `_waitForRecoveryBatchCompletion`: the answer of `handle`, if it ends.
unfoldable pub check_batch : Recovery → Recovery × Option Bool
unfolding recovery_batch_completed
check_batch r =
    if recovery_batch_completed r
    then (record r { recover_complete = true; handling = none }, r.handling)
    else if r.is_shutdown
    then (record r { recover_complete = false; handling = none }, r.handling)
    else (r, none)

-- `exitAfterComplete`
unfoldable pub exit_after_complete : Recovery → Bool
exit_after_complete r = elim r.cleanup_type [ none ↦ false | some c ↦ true ]

unfoldable pub slice_count : Recovery → ℕ
slice_count r = length r.recovery_queue

unfoldable pub get_slice : Recovery → Option Slice × Recovery
get_slice r = elim r.recovery_queue [
  | [] ↦ (none, r)
  | s ∷ q ↦ (some s, record r { recovery_queue = q })
]

-- `getSlices(max)`: the loop runs `count` times.
unfoldable pub get_slices : ℕ → Recovery → List Slice × Recovery
unfolding take_slices slice_count
get_slices max r =
    let t = take_slices (if ltb (slice_count r) max then slice_count r else max) r.recovery_queue in
    (t.slices, record r { recovery_queue = t.rest })

-- The slicer ids that `getSlicerStartingPosition` asks the store for.
abbrev pub below : ℕ → List ℕ
below zero = []
below (suc n) = below n ++ n ∷ []

unfoldable pub starting_positions : Recovery → List ℕ
unfolding exit_after_complete
starting_positions r = if exit_after_complete r then [] else below r.slicers_to_recover

-- `shutdown`, once its wait is over or has timed out.
unfoldable pub shutdown : Recovery → Recovery
shutdown r = record r { is_shutdown = true }
