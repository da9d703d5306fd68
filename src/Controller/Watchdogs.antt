-- ===== src/Controller/Watchdogs.antt =====
-- The failures of slices and the watchdogs of packages/teraslice/lib/workers/execution-controller/index.js.
use teraslice.Controller.Scheduler.{can_complete, is_recovering}
use teraslice.Controller.Status.{Ending, set_failing_status, terminal_error}
use teraslice.Execution.Status.{running}
use teraslice.Execution.Record.{no_metadata}
use teraslice.Execution.Backend.{Backend}
use teraslice.Execution.Store.{set_status}
use teraslice.Base.{ℕ, String, Bool, ◌&&◌, Option, none, some, ltb, ◌==◌, if◌then◌else◌}

-- The counts that the watchdog of slice failures has last seen.
pub record WatchDog : Type 0 where
  pub error_count : ℕ
  pub processed_count : ℕ

module _ (b : Backend) where
  pub record Watched : Type 0 where
    pub ending : Ending b
    pub watch_dog : Option WatchDog

  abbrev pub started_watch :
      ℕ → String → Option String → WatchDog → Option WatchDog → Ending b → Watched
  started_watch now id stats counts (some w) e = record { ending = e; watch_dog = some w }
  started_watch now id stats counts none e = record {
    ending = set_failing_status b now id stats e;
    watch_dog = some counts;
  }

  unfoldable pub start_slice_failure_watch_dog :
      ℕ → String → Option String → WatchDog → Watched → Watched
  unfolding set_failing_status
  start_slice_failure_watch_dog now id stats counts w =
      started_watch now id stats counts w.watch_dog w.ending

  abbrev pub ticked : ℕ → String → WatchDog → Option WatchDog → Ending b → Watched
  ticked now id current none e = record { ending = e; watch_dog = none }
  ticked now id current (some w) e =
      if current.error_count == w.error_count && ltb w.processed_count current.processed_count
      then record {
        ending = record e { docs = (set_status b e.docs now id running no_metadata).0 };
        watch_dog = none;
      }
      else record { ending = e; watch_dog = some current }

  -- A run of the interval, which `none` has not set.
  unfoldable pub watch_dog_tick : ℕ → String → WatchDog → Watched → Watched
  unfolding set_status
  watch_dog_tick now id current w = ticked now id current w.watch_dog w.ending

  -- The handler of a failed slice, without the counter of pending slices.
  unfoldable pub slice_failure : ℕ → String → Option String → String → WatchDog → Watched → Watched
  unfolding can_complete is_recovering set_failing_status terminal_error
      start_slice_failure_watch_dog
  slice_failure now id stats msg counts w =
      if can_complete w.ending.scheduler
      then record w { ending = set_failing_status b now id stats w.ending }
      else if is_recovering w.ending.scheduler
      then record w { ending = terminal_error b now id stats msg w.ending }
      else start_slice_failure_watch_dog now id stats counts w

  -- `_startWorkConnectWatchDog` after its timeout.
  unfoldable pub no_worker_connected :
      ℕ → String → Option String → String → Bool → Bool → Watched → Watched
  unfolding terminal_error
  no_worker_connected now id stats msg is_shutting_down workers_have_connected w =
      if is_shutting_down
      then w
      else if workers_have_connected
      then w
      else record w { ending = terminal_error b now id stats msg w.ending }

  -- `_startWorkerDisconnectWatchDog` after its timeout, with the number of clients online then.
  unfoldable pub workers_disconnected :
      ℕ → String → Option String → String → Bool → ℕ → Watched → Watched
  unfolding terminal_error
  workers_disconnected now id stats msg is_shutting_down online w =
      if is_shutting_down
      then w
      else if ltb 0 online
      then w
      else record w { ending = terminal_error b now id stats msg w.ending }
