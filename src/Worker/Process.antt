-- ===== src/Worker/Process.antt =====
-- The loop of a worker: packages/teraslice/lib/workers/worker/index.js. What the slice, the client and
-- the listeners settle with is an argument, and `completions` holds the slice:complete messages that the
-- client has put on its socket, the last one first.
pub mod Fatal
pub mod Tests
use teraslice.Controller.Slice.{Slice}
use teraslice.Base.{
  ℕ, zero, suc, ◌+◌, ◌-◌, ◌*◌, ◌≤◌, ◌<◌, String, ◌≡◌, refl, sym, ap, subst, ◌∙◌, ◌≢◌, ◌↔◌, ◌⊎◌, inl,
  inr, Bool, true, false, not, ◌&&◌, ◌||◌, Option, none, some, List, [], ◌∷◌, ◌++◌, map, arith, ltb,
  leb, ◌==◌, if◌then◌else◌, ltb→lt, lt→ltb, leb→le, ==_iff, Bool-cases, Option-cases, ◌===◌,
  ===_iff, length, keep_if, any_of, All, length-append, length-map, length-keep_if-le, All-append,
  Result, ok, err, ◌>>=◌, map_err, map_ok, is_ok, min,
}

pub record Worker : Type 0 where
  pub is_initialized : Bool
  pub is_shutting_down : Bool
  pub is_shutdown : Bool
  pub is_processing : Bool
  pub should_shutdown : Bool
  pub force_shutdown : Bool
  pub running : Bool
  pub slices_processed : ℕ
  pub completions : List (Slice × Option String)

unfoldable pub make_worker : Worker
make_worker = record {
  is_initialized = false;
  is_shutting_down = false;
  is_shutdown = false;
  is_processing = false;
  should_shutdown = false;
  force_shutdown = false;
  running = false;
  slices_processed = 0;
  completions = [];
}

pub record Failure : Type 0 where
  pub message : String
  pub is_fatal : Bool

-- What comes of sendSliceComplete: an answer; no message, where the client is closed or the server has shut
-- down, which resolves too; a failure before the message is sent; or a failure to get its answer.
pub data Sending : Type 0 where
  answered dropped : Sending
  unsent unanswered : Failure → Sending

abbrev pub send_failure : Sending → Option Failure
send_failure answered = none
send_failure dropped = none
send_failure (unsent e) = some e
send_failure (unanswered e) = some e

-- The message, where it is put on the socket.
abbrev pub message_of : Sending → Slice × Option String → List (Slice × Option String)
message_of answered m = m ∷ []
message_of dropped m = []
message_of (unsent e) m = []
message_of (unanswered e) m = m ∷ []

-- How the promises of one round settle, `none` where they resolve: `finished` is onSliceFinished, and
-- `sent_error` the message of the catch.
pub record Round : Type 0 where
  pub initialized : Option Failure
  pub ran : Option Failure
  pub sent : Sending
  pub finished : Option Failure
  pub sent_error : Sending

-- The first failure of the try block.
abbrev pub first_failure : List (Option Failure) → Option Failure
first_failure [] = none
first_failure (some e ∷ l) = some e
first_failure (none ∷ l) = first_failure l

abbrev pub unless_failed :
    Option Failure → List (Slice × Option String) → List (Slice × Option String)
unless_failed (some e) l = []
unless_failed none l = l

-- What the try block has sent.
unfoldable pub tried : Slice → Round → List (Slice × Option String)
tried slice r =
    unless_failed (first_failure (r.initialized ∷ r.ran ∷ [])) (message_of r.sent (slice, none))

unfoldable pub failure_of : Round → Option Failure
failure_of r = first_failure (r.initialized ∷ r.ran ∷ send_failure r.sent ∷ r.finished ∷ [])

abbrev pub processed : Worker → Worker
processed w = record w { is_processing = false; slices_processed = w.slices_processed + 1 }

-- The catch, and the lines after it; a failure of the second component is the rejection.
abbrev pub after_catch : Option Failure → Worker → Worker × Option Failure
after_catch none w = (processed w, none)
after_catch (some e) w = (w, some e)

abbrev pub caught : Slice → Sending → Option Failure → Worker → Worker × Option Failure
caught slice sent_error none w = (processed w, none)
caught slice sent_error (some e) w =
    if e.is_fatal
    then (w, some e)
    else after_catch (send_failure sent_error)
        (record w { completions = message_of sent_error (slice, some e.message) ++ w.completions })

-- `runOnce`, with the slice that `waitForSlice` gives.
unfoldable pub run_once : Option Slice → Round → Worker → Worker × Option Failure
unfolding tried failure_of
run_once none r w = (w, none)
run_once (some slice) r w =
    caught slice r.sent_error (failure_of r)
      (record w { is_processing = true; completions = tried slice r ++ w.completions })

-- What a run of the interval of `run` does.
pub data Tick : Type 0 where
  ends waits runs : Tick

unfoldable pub run_tick : Worker → Tick
run_tick w =
    if w.force_shutdown
    then ends
    else if w.running
    then waits
    else if w.is_shutting_down || w.should_shutdown
    then ends
    else runs

-- `_waitForSliceToFinish`, with what its interval has seen of isProcessing before the timeout: whether it
-- resolves.
unfoldable pub wait_for_slice_to_finish : List Bool → Worker → Bool
wait_for_slice_to_finish seen w = not w.is_processing || any_of not seen

-- What `shutdown` comes to: nothing, where it was called before or too early; a wait for the other call;
-- the error of executionContext.shutdown, after which nothing is closed; or the number of its errors.
pub data Closed : Type 0 where
  ignored joins : Closed
  context_failed : String → Closed
  closed : ℕ → Closed

-- From the shutdown of the execution context on, which settles with the first argument.
abbrev pub after_wait : Option String → ℕ → Worker → Worker × Closed
after_wait (some m) errors w = (w, context_failed m)
after_wait none errors w = (record w { force_shutdown = true; is_shutdown = true }, closed errors)

-- `failures` is the number of the stores, the slice and the client that do not shut down.
unfoldable pub shutdown : Bool → List Bool → Option String → ℕ → Worker → Worker × Closed
unfolding wait_for_slice_to_finish
shutdown block seen context failures w =
    if w.is_shutdown || not w.is_initialized
    then (w, ignored)
    else if w.is_shutting_down
    then (w, if block then joins else ignored)
    else after_wait context ((if wait_for_slice_to_finish seen w then 0 else 1) + failures)
        (record w { is_shutting_down = true })
