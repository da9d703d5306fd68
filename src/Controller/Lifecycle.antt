-- ===== src/Controller/Lifecycle.antt =====
-- The start and the end of an execution controller: initialize and shutdown of
-- packages/teraslice/lib/workers/execution-controller/index.js. What the requests settle with are arguments,
-- `none` where they succeed; `calls` are the calls of its parts, the last one first. A shutdown is modelled
-- from one await to the next.
pub mod Initializing
pub mod Stopping
pub mod Running
pub mod Tests
use teraslice.Execution.Status.{Status, is_terminal_status, is_running_status}
use teraslice.Base.{
  ℕ, zero, suc, ◌+◌, ◌-◌, ◌*◌, ◌≤◌, ◌<◌, String, ◌≡◌, refl, sym, ap, subst, ◌∙◌, ◌≢◌, ◌↔◌, ◌⊎◌, inl,
  inr, Bool, true, false, not, ◌&&◌, ◌||◌, Option, none, some, List, [], ◌∷◌, ◌++◌, map, arith, ltb,
  leb, ◌==◌, if◌then◌else◌, ltb→lt, lt→ltb, leb→le, ==_iff, Bool-cases, Option-cases, ◌===◌,
  ===_iff, length, keep_if, any_of, All, length-append, length-map, length-keep_if-le, All-append,
  Result, ok, err, ◌>>=◌, map_err, map_ok, is_ok, min,
}

pub data Call : Type 0 where
  scheduler_stop : Call
  execution_finished : Call
  slicer_analytics_shutdown : Call
  execution_analytics_shutdown : Call
  client_shutdown : Call
  scheduler_shutdown : Call
  server_shutdown : Call
  ex_store_shutdown : Call
  state_store_shutdown : Call

-- What `events.emit` is given as the name of the event.
pub data EventName : Type 0 where
  named : String → EventName
  context_object : EventName

pub record Controller : Type 0 where
  pub collect_analytics : Bool
  pub is_paused : Bool
  pub is_shutdown : Bool
  pub is_shutting_down : Bool
  pub is_initialized : Bool
  pub server_is_shutting_down : Bool
  pub has_ex_store : Bool
  pub has_state_store : Bool
  pub calls : List Call
  pub emitted : List EventName

unfoldable pub make_controller : Bool → Controller
make_controller analytics = record {
  collect_analytics = analytics;
  is_paused = false;
  is_shutdown = false;
  is_shutting_down = false;
  is_initialized = false;
  server_is_shutting_down = false;
  has_ex_store = false;
  has_state_store = false;
  calls = [];
  emitted = [];
}

abbrev pub call : Call → Controller → Controller
call k c = record c { calls = k ∷ c.calls }

-- `_verifyExecution`: a failure of `sendExecutionFinished` rejects.
abbrev pub refused : Option String → Controller → Result String Bool × Controller
refused none c = (ok false, call execution_finished c)
refused (some m) c = (err m, call execution_finished c)

unfoldable pub verify_execution :
    Result String Status → Option String → Controller → Result String Bool × Controller
verify_execution (err m) sent c = (err m, c)
verify_execution (ok status) sent c =
    if is_terminal_status status || is_running_status status then refused sent c else (ok true, c)

pub record Starts : Type 0 where
  pub ex_store : Option String
  pub client : Option String
  pub status : Result String Status
  pub finished_sent : Option String
  pub ex_store_shutdown : Option String
  pub client_shutdown : Option String
  pub state_store : Option String
  pub server : Option String

-- The branch without a verified execution, whose own error is thrown last.
abbrev pub give_up_client :
    Starts → Option String → Option String → Controller → Option String × Controller
give_up_client a (some m) thrown c = (some m, call client_shutdown c)
give_up_client a none thrown c = (thrown, call client_shutdown c)

abbrev pub give_up_store :
    Starts → Option String → Option String → Controller → Option String × Controller
give_up_store a (some m) thrown c = (some m, call ex_store_shutdown c)
give_up_store a none thrown c = give_up_client a a.client_shutdown thrown (call ex_store_shutdown c)

abbrev pub start_server : Option String → Controller → Option String × Controller
start_server (some m) c = (some m, c)
start_server none c = (none, record c { is_initialized = true })

abbrev pub start_states : Starts → Option String → Controller → Option String × Controller
start_states a (some m) c = (some m, c)
start_states a none c = start_server a.server (record c { has_state_store = true })

abbrev pub verified : Starts → Result String Bool × Controller → Option String × Controller
verified a (ok true, c) = start_states a a.state_store c
verified a (ok false, c) =
    give_up_store a a.ex_store_shutdown none (record c { is_shutdown = true })
verified a (err m, c) =
    give_up_store a a.ex_store_shutdown (some m) (record c { is_shutdown = true })

abbrev pub connected : Starts → Option String → Controller → Option String × Controller
connected a (some m) c = (some m, c)
connected a none c = verified a (verify_execution a.status a.finished_sent c)

abbrev pub stored : Starts → Option String → Controller → Option String × Controller
stored a (some m) c = (some m, c)
stored a none c = connected a a.client (record c { has_ex_store = true })

unfoldable pub initialize : Starts → Controller → Option String × Controller
unfolding verify_execution
initialize a c = stored a a.ex_store c

-- `shutdown` up to the wait for the scheduler, or to its return, or to the wait for the other call.
pub data Begun : Type 0 where
  returned : Begun
  blocked : Begun
  stopping : Begun

abbrev pub stopping_scheduler : Controller → Controller
stopping_scheduler c = call scheduler_stop (record c { server_is_shutting_down = true })

unfoldable pub begin_shutdown : Bool → Controller → Begun × Controller
begin_shutdown block c =
    if c.is_shutdown
    then (returned, c)
    else if not c.is_initialized
    then (returned, c)
    else if c.is_shutting_down
    then (if block then (blocked, c) else (returned, c))
    else (stopping, stopping_scheduler c)

-- From scheduler.stop on, where it resolves.
unfoldable pub stopped : Controller → Controller
stopped c = record c { is_shutting_down = true; is_paused = false }

-- A check of `_waitForExecutionFinished`, at a time.
pub record Check : Type 0 where
  pub is_execution_done : Bool
  pub client_ready : Bool
  pub now : ℕ

abbrev pub is_over : ℕ → Check → Bool
is_over shutdown_at k = k.is_execution_done || not k.client_ready || ltb shutdown_at k.now

-- The time at which the wait ends, `none` where the checks run out before.
unfoldable pub wait_for_execution_finished : ℕ → List Check → Option ℕ
wait_for_execution_finished shutdown_at [] = none
wait_for_execution_finished shutdown_at (k ∷ l) =
    let rest = wait_for_execution_finished shutdown_at l in
    if is_over shutdown_at k then some k.now else rest

pub record Ends : Type 0 where
  pub slicer_analytics : Option String
  pub execution_analytics : Option String
  pub client : Option String
  pub scheduler : Option String
  pub server : Option String
  pub ex_store : Option String
  pub state_store : Option String

abbrev pub under : Bool → List (Call × Option String) → List (Call × Option String)
under true l = l
under false l = []

-- The parts that are closed, each with its error, in the order in which the calls are made: the client
-- waits for the analytics, whatever comes of them.
abbrev pub closing_by : Ends → Bool → Bool → Bool → List (Call × Option String)
closing_by a collect ex states =
    under collect ((slicer_analytics_shutdown, a.slicer_analytics) ∷ [])
    ++ (execution_analytics_shutdown, a.execution_analytics)
      ∷ (scheduler_shutdown, a.scheduler)
      ∷ (server_shutdown, a.server)
      ∷ under ex ((ex_store_shutdown, a.ex_store) ∷ [])
    ++ under states ((state_store_shutdown, a.state_store) ∷ [])
    ++ (client_shutdown, a.client) ∷ []

abbrev pub closing : Ends → Controller → List (Call × Option String)
closing a c = closing_by a c.collect_analytics c.has_ex_store c.has_state_store

abbrev pub errors_of : List (Call × Option String) → List String
errors_of [] = []
errors_of ((k, none) ∷ l) = errors_of l
errors_of ((k, some m) ∷ l) = m ∷ errors_of l

abbrev pub close_all : List (Call × Option String) → Controller → Controller
close_all [] c = c
close_all ((k, e) ∷ l) c = close_all l (call k c)

-- After the wait; the errors are those that the call throws, as one.
unfoldable pub end_shutdown : Ends → Controller → List String × Controller
end_shutdown a c =
    let closed = close_all (closing a c) c in
    (
      errors_of (closing a c),
      record closed { is_shutdown = true; emitted = context_object ∷ closed.emitted },
    )

-- The end of a call, by what scheduler.stop settles with: where it rejects, the call rejects before
-- anything is closed, and the flag is not set.
unfoldable pub finish_shutdown :
    Option String → Ends → Controller → Result String (List String) × Controller
unfolding stopped end_shutdown
finish_shutdown (some m) a c = (err m, c)
finish_shutdown none a c = let r = end_shutdown a (stopped c) in (ok r.0, r.1)

-- `waitForWorkerShutdown`: a listener on the event of that name.
abbrev pub is_named : String → EventName → Bool
is_named name (named n) = n === name
is_named name context_object = false

unfoldable pub is_answered : Controller → Bool
is_answered c = any_of (is_named "worker:shutdown:complete") c.emitted
