-- ===== src/Controller/Status/Failing.antt =====
-- An execution of packages/teraslice/lib/workers/execution-controller/index.js that has ended stays as it is.
use teraslice.Controller.Scheduler.{can_complete, is_recovering}
use teraslice.Controller.Status.{
  Ending, Counts, finish_execution, unfinished, finished, is_stopping, set_failing_status,
  terminal_error, Failure,
}
use teraslice.Controller.Status.Completed.{Stored, set_status-stored}
use teraslice.Controller.Watchdogs.{
  WatchDog, Watched, start_slice_failure_watch_dog, started_watch, ticked, watch_dog_tick,
  slice_failure, no_worker_connected, workers_disconnected,
}
use teraslice.Execution.Status.{Status, completed, failed, failing, terminated, running}
use teraslice.Execution.Record.{no_metadata}
use teraslice.Execution.Backend.{Backend}
use teraslice.Execution.Phases.{phase}
use teraslice.Execution.Store.{get_status}
use teraslice.Base.{
  ℕ, ◌<◌, String, ◌≡◌, refl, Bool, true, false, not, ◌&&◌, ◌||◌, Option, none, some, List, [], ◌∷◌,
  arith, ltb, ◌==◌, if◌then◌else◌, Result, ok, err,
}
use teraslice.Controller.Status.Held.{
  Held, set_status-Held, update_metadata-Held, Held-get_status, get_status-Held,
}

-- What else happens to an execution.
pub data Op : Type 0 where
  finishes : (ℕ → String) → ℕ → Option String → Counts → Op
  fails : ℕ → Option String → String → Op
  slice_fails : ℕ → Option String → String → WatchDog → Op
  ticks : ℕ → WatchDog → Op
  connects_late : ℕ → Option String → String → Bool → Bool → Op
  disconnects : ℕ → Option String → String → Bool → ℕ → Op

module _ (b : Backend) where
  open b use {Docs, get, update, get-update}

  unfoldable pub step : String → Op → Watched b → Watched b
  unfolding finish_execution terminal_error slice_failure watch_dog_tick no_worker_connected
      workers_disconnected
  step id (finishes to_text now stats counts) w = record w {
    ending = finish_execution b to_text now id stats counts w.ending;
  }
  step id (fails now stats msg) w = record w { ending = terminal_error b now id stats msg w.ending }
  step id (slice_fails now stats msg counts) w = slice_failure b now id stats msg counts w
  step id (ticks now current) w = watch_dog_tick b now id current w
  step id (connects_late now stats msg is_shutting_down connected) w =
      no_worker_connected b now id stats msg is_shutting_down connected w
  step id (disconnects now stats msg is_shutting_down online) w =
      workers_disconnected b now id stats msg is_shutting_down online w

  unfoldable pub run : String → List Op → Watched b → Watched b
  unfolding step
  run id [] w = w
  run id (o ∷ os) w = run id os (step id o w)

  module _ (id : String) (s : Status) (hs : phase s ≡ 2) where
    abbrev Keeps : Ending b → Type 0
    Keeps e = Held b id s e.docs

    if-Keeps : (x y : Ending b) (c : Bool) → Keeps x → Keeps y → Keeps (if c then x else y)
    if-Keeps x y true h k = h
    if-Keeps x y false h k = k

    if-docs :
        (x y : Docs × Option Failure) (c : Bool)
        → Held b id s x.0
        → Held b id s y.0
        → Held b id s (if c then x else y).0
    if-docs x y true h k = h
    if-docs x y false h k = k

    unfinished-Held :
        (d : Docs) (now : ℕ) (stats : Option String) (r : Result Failure (Option Status))
        → Held b id s d
        → Held b id s (unfinished b d now id stats r).0
    unfinished-Held d now stats (err f) h = h
    unfinished-Held d now stats (ok status) h =
        if-docs _ _ (is_stopping b status) (update_metadata-Held b d now id s _ h)
          (set_status-Held b d now id s terminated _ hs h)

    finished-Held :
        (to_text : ℕ → String) (d : Docs) (now : ℕ) (stats : Option String)
        (errors started : Result String ℕ)
        → Held b id s d
        → Held b id s (finished b to_text d now id stats errors started).0
    finished-Held to_text d now stats (err m) r h = h
    finished-Held to_text d now stats (ok n) (err m) h = h
    finished-Held to_text d now stats (ok n) (ok m) h =
        if-docs _ _ (ltb 0 n || ltb 0 m) (set_status-Held b d now id s failed _ hs h)
          (set_status-Held b d now id s completed _ hs h)

    finish_execution-Keeps :
        (to_text : ℕ → String) (now : ℕ) (stats : Option String) (counts : Counts) (e : Ending b)
        → Keeps e
        → Keeps (finish_execution b to_text now id stats counts e)
    unfolding finish_execution
    finish_execution-Keeps to_text now stats counts e h = if-Keeps e _ e.is_execution_finished h (
        if-docs _ _ e.slicer_failed h (
          if-docs _ _ (not e.is_done_processing) (unfinished-Held e.docs now stats _ h)
            (finished-Held to_text e.docs now stats counts.errors counts.started h)))

    terminal_error-Keeps :
        (now : ℕ) (stats : Option String) (msg : String) (e : Ending b)
        → Keeps e
        → Keeps (terminal_error b now id stats msg e)
    unfolding terminal_error
    terminal_error-Keeps now stats msg e h =
        if-Keeps e _ e.is_execution_done h (set_status-Held b e.docs now id s failed _ hs h)

    set_failing_status-Keeps :
        (now : ℕ) (stats : Option String) (e : Ending b)
        → Keeps e
        → Keeps (set_failing_status b now id stats e)
    unfolding set_failing_status
    set_failing_status-Keeps now stats e h = set_status-Held b e.docs now id s failing _ hs h

    if-Keeps-watched :
        (x y : Watched b) (c : Bool)
        → Keeps x.ending
        → Keeps y.ending
        → Keeps (if c then x else y).ending
    if-Keeps-watched x y true h k = h
    if-Keeps-watched x y false h k = k

    watch-Keeps :
        (now : ℕ) (stats : Option String) (counts : WatchDog) (o : Option WatchDog) (e : Ending b)
        → Keeps e
        → Keeps (started_watch b now id stats counts o e).ending
    watch-Keeps now stats counts (some w) e h = h
    watch-Keeps now stats counts none e h = set_failing_status-Keeps now stats e h

    ticked-Keeps :
        (now : ℕ) (current : WatchDog) (o : Option WatchDog) (e : Ending b)
        → Keeps e
        → Keeps (ticked b now id current o e).ending
    ticked-Keeps now current none e h = h
    ticked-Keeps now current (some w) e h =
        if-Keeps-watched _ _
          (current.error_count == w.error_count && ltb w.processed_count current.processed_count)
          (set_status-Held b e.docs now id s running no_metadata hs h) h

    step-Keeps : (o : Op) (w : Watched b) → Keeps w.ending → Keeps (step id o w).ending
    unfolding step slice_failure watch_dog_tick no_worker_connected workers_disconnected
        start_slice_failure_watch_dog
    step-Keeps (finishes to_text now stats counts) w h =
        finish_execution-Keeps to_text now stats counts w.ending h
    step-Keeps (fails now stats msg) w h = terminal_error-Keeps now stats msg w.ending h
    step-Keeps (slice_fails now stats msg counts) w h =
        if-Keeps-watched _ _ (can_complete w.ending.scheduler)
          (set_failing_status-Keeps now stats w.ending h)
          (if-Keeps-watched _ _ (is_recovering w.ending.scheduler)
            (terminal_error-Keeps now stats msg w.ending h)
            (watch-Keeps now stats counts w.watch_dog w.ending h))
    step-Keeps (ticks now current) w h = ticked-Keeps now current w.watch_dog w.ending h
    step-Keeps (connects_late now stats msg is_shutting_down connected) w h =
        if-Keeps-watched _ _ is_shutting_down h
          (if-Keeps-watched _ _ connected h (terminal_error-Keeps now stats msg w.ending h))
    step-Keeps (disconnects now stats msg is_shutting_down online) w h =
        if-Keeps-watched _ _ is_shutting_down h
          (if-Keeps-watched _ _ (ltb 0 online) h (terminal_error-Keeps now stats msg w.ending h))

    run-Keeps : (os : List Op) (w : Watched b) → Keeps w.ending → Keeps (run id os w).ending
    unfolding run
    run-Keeps [] w h = h
    run-Keeps (o ∷ os) w h = run-Keeps os (step id o w) (step-Keeps o w h)

  terminal_error_status :
      (now : ℕ) (id : String) (stats : Option String) (msg : String) (e : Ending b) (s : Status)
      → Stored b e.docs id s
      → phase s < 2
      → e.is_execution_done ≡ false
      → get_status b (terminal_error b now id stats msg e).docs id ≡ ok (some failed)
  unfolding terminal_error
  terminal_error_status now id stats msg e s h hs hd =
      rw hd (set_status-stored b e.docs now id s failed _ h hs (omega arith) (omega arith))

  -- A terminal error of an execution that has not ended makes it failed for good: whatever slices fail
  -- afterwards, whatever the watchdogs do, and when the execution is finished, it is stored as failed.
  pub terminal_error-run :
      (now : ℕ) (id : String) (stats : Option String) (msg : String) (w : Watched b) (s : Status)
      (os : List Op)
      → Stored b w.ending.docs id s
      → phase s < 2
      → w.ending.is_execution_done ≡ false
      → let w' = run id os (step id (fails now stats msg) w) in
        get_status b w'.ending.docs id ≡ ok (some failed)
  unfolding step
  terminal_error-run now id stats msg w s os h hs hd =
      let w1 = step id (fails now stats msg) w in
      Held-get_status b _ id failed h.named (
        run-Keeps id failed refl os w1 (
          get_status-Held b _ id failed h.named
            (terminal_error_status now id stats msg w.ending s h hs hd)))
