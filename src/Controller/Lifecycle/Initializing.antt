-- ===== src/Controller/Lifecycle/Initializing.antt =====
-- Which executions packages/teraslice/lib/workers/execution-controller/index.js initializes.
use teraslice.Controller.Lifecycle.{
  Controller, make_controller, refused, verify_execution, Starts, give_up_client, give_up_store,
  start_server, start_states, verified, connected, stored, initialize, returned, stopping,
  begin_shutdown,
}
use teraslice.Execution.Status.{Status, is_terminal_status, is_running_status}
use teraslice.Base.{
  String, ◌≡◌, refl, inl, inr, Bool, true, false, not, ◌&&◌, ◌||◌, Option, none, some,
  if◌then◌else◌, Bool-cases, Result, ok, err,
}

abbrev pub succeeds : Option String → Bool
succeeds none = true
succeeds (some m) = false

-- The status can be set to running.
abbrev pub can_run : Result String Status → Bool
can_run (err m) = false
can_run (ok status) = not (is_terminal_status status || is_running_status status)

abbrev pub starts : Starts → Bool
starts a =
    succeeds a.ex_store
    && succeeds a.client
    && can_run a.status
    && succeeds a.state_store
    && succeeds a.server

abbrev pub Fresh : Controller → Type 0
Fresh c = (c.is_initialized ≡ false) × (c.is_shutdown ≡ false) × (c.is_shutting_down ≡ false)

abbrev pub Outcome : Bool → Controller → Type 0
Outcome started c =
    (c.is_initialized ≡ started)
    × (c.is_shutting_down ≡ false)
    × ((started && c.is_shutdown) ≡ false)

give_up_client-Outcome :
    (a : Starts) (e thrown : Option String) (c : Controller)
    → c.is_initialized ≡ false
    → c.is_shutting_down ≡ false
    → Outcome false (give_up_client a e thrown c).1
give_up_client-Outcome a none thrown c h k = (h, k, refl)
give_up_client-Outcome a (some m) thrown c h k = (h, k, refl)

give_up_store-Outcome :
    (a : Starts) (e thrown : Option String) (c : Controller)
    → c.is_initialized ≡ false
    → c.is_shutting_down ≡ false
    → Outcome false (give_up_store a e thrown c).1
give_up_store-Outcome a (some m) thrown c h k = (h, k, refl)
give_up_store-Outcome a none thrown c h k = give_up_client-Outcome a a.client_shutdown thrown _ h k

start_server-Outcome :
    (e : Option String) (c : Controller) → Fresh c → Outcome (succeeds e) (start_server e c).1
start_server-Outcome none c (h, d, k) = (refl, k, d)
start_server-Outcome (some m) c (h, d, k) = (h, k, refl)

start_states-Outcome :
    (a : Starts) (e : Option String) (c : Controller)
    → Fresh c
    → Outcome (succeeds e && succeeds a.server) (start_states a e c).1
start_states-Outcome a none c h = start_server-Outcome a.server _ h
start_states-Outcome a (some m) c (h, d, k) = (h, k, refl)

refused-Outcome :
    (a : Starts) (sent : Option String) (c : Controller)
    → c.is_initialized ≡ false
    → c.is_shutting_down ≡ false
    → Outcome false (verified a (refused sent c)).1
refused-Outcome a none c h k = give_up_store-Outcome a a.ex_store_shutdown none _ h k
refused-Outcome a (some m) c h k = give_up_store-Outcome a a.ex_store_shutdown (some m) _ h k

begin_shutdown-Outcome :
    (started block : Bool) (c : Controller)
    → Outcome started c
    → (begin_shutdown block c).0 ≡ (if started then stopping else returned)
unfolding begin_shutdown
begin_shutdown-Outcome true block c (h, k, d) = rw d (rw h (rw k refl))
begin_shutdown-Outcome false block c (h, k, d) = elim (Bool-cases c.is_shutdown) [
  | inl t ↦ rw t refl
  | inr t ↦ rw t (rw h refl)
]

verified-Outcome :
    (a : Starts) (r : Result String Status) (c : Controller)
    → Fresh c
    → Outcome
        (can_run r && succeeds a.state_store && succeeds a.server)
        (verified a (verify_execution r a.finished_sent c)).1
unfolding verify_execution
verified-Outcome a (err m) c (h, d, k) = give_up_store-Outcome a a.ex_store_shutdown _ _ h k
verified-Outcome a (ok status) c (h, d, k) =
    elim (Bool-cases (is_terminal_status status || is_running_status status)) [
      | inl t ↦ rw t (refused-Outcome a a.finished_sent c h k)
      | inr t ↦ rw t (start_states-Outcome a a.state_store c (h, d, k))
    ]

connected-Outcome :
    (a : Starts) (e : Option String) (c : Controller)
    → Fresh c
    → Outcome
        (succeeds e && can_run a.status && succeeds a.state_store && succeeds a.server)
        (connected a e c).1
connected-Outcome a none c h = verified-Outcome a a.status c h
connected-Outcome a (some m) c (h, d, k) = (h, k, refl)

stored-Outcome :
    (a : Starts) (e : Option String) (c : Controller)
    → Fresh c
    → Outcome
        (succeeds e
          && succeeds a.client
          && can_run a.status
          && succeeds a.state_store
          && succeeds a.server)
        (stored a e c).1
stored-Outcome a none c h = connected-Outcome a a.client _ h
stored-Outcome a (some m) c (h, d, k) = (h, k, refl)

-- A new controller is initialized just where its stores, its client and its server start and its execution
-- has a status that is neither terminal nor running; and just then a shutdown after it goes on, where any
-- other one returns at once.
pub initialize-begin_shutdown :
    (a : Starts) (analytics block : Bool)
    → let c = (initialize a (make_controller analytics)).1 in
      (c.is_initialized ≡ starts a)
      × ((begin_shutdown block c).0 ≡ (if starts a then stopping else returned))
unfolding initialize make_controller begin_shutdown
initialize-begin_shutdown a analytics block =
    let o = stored-Outcome a a.ex_store (make_controller analytics) (refl, refl, refl) in
    (o.0, begin_shutdown-Outcome (starts a) block _ o)
