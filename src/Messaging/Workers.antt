-- ===== src/Messaging/Workers.antt =====
-- The server of an execution controller: packages/teraslice-messaging/src/execution-controller/server.ts. It
-- keeps a queue of the workers that wait for a slice.
use teraslice.Messaging.Clients.{
  ClientState, offline, online, disconnected, available, unavailable, shutdown, same, Client, Event,
  entered, reconnected, client_of, update_client_state,
}
use teraslice.Base.{
  ℕ, String, Bool, true, false, not, Option, none, some, List, [], ◌∷◌, ◌++◌, if◌then◌else◌, ◌===◌,
  length, keep_if, any_of,
}

pub record Server : Type 0 where
  pub clients : List Client
  pub timeout : ℕ
  pub queue : List String
  pub active_workers : List (String × Bool)

abbrev pub assign : String → Bool → List (String × Bool) → List (String × Bool)
assign id v [] = (id, v) ∷ []
assign id v ((k, w) ∷ m) = if k === id then (k, v) ∷ m else (k, w) ∷ assign id v m

abbrev pub without : String → List (String × Bool) → List (String × Bool)
without id m = keep_if (λ p. not (p.0 === id)) m

abbrev pub is_id : String → String → Bool
is_id id w = w === id

unfoldable pub worker_enqueue : String → Server → Server
worker_enqueue id s =
    if any_of (is_id id) s.queue then s else record s { queue = s.queue ++ id ∷ [] }

unfoldable pub worker_remove : String → Server → Server
worker_remove id s =
    if id === "" then s else record s { queue = keep_if (λ w. not (is_id id w)) s.queue }

-- The listeners of `start`.
unfoldable pub on_event : Event → Server → Server
unfolding worker_enqueue worker_remove
on_event (entered unavailable id) s = worker_remove id s
on_event (entered disconnected id) s =
    worker_remove id (record s { active_workers = without id s.active_workers })
on_event (entered available id) s =
    worker_enqueue id (record s { active_workers = assign id false s.active_workers })
on_event (entered offline id) s = s
on_event (entered online id) s = s
on_event (entered shutdown id) s = s
on_event (reconnected id) s = s

unfoldable pub on_events : List Event → Server → Server
unfolding on_event
on_events [] s = s
on_events (e ∷ l) s = on_events l (on_event e s)

-- `updateClientState`, whose events run the listeners before it returns.
unfoldable pub update_state : ℕ → String → ClientState → Server → Server
unfolding update_client_state on_event on_events
update_state now id state s =
    let r = update_client_state now s.timeout id state s.clients in
    on_events r.1 (record s { clients = r.0 })

-- `extract` of the queue.
abbrev pub remove_first : String → List String → List String
remove_first id [] = []
remove_first id (w ∷ q) = if is_id id w then q else w ∷ remove_first id q

-- `_workerDequeue`: with a requested id that worker is taken out, else the first one.
abbrev pub taken : Option String → Server → Option String × Server
taken none s = (none, s)
taken (some id) s = (some id, record s { active_workers = assign id false s.active_workers })

unfoldable pub worker_dequeue : Option String → Server → Option String × Server
worker_dequeue none s = elim s.queue as (λ _. Option String × Server) [
  | [] ↦ (none, s)
  | w ∷ q ↦ taken (some w) (record s { queue = q })
]
worker_dequeue (some id) s =
    if any_of (is_id id) s.queue
    then taken (some id) (record s { queue = remove_first id s.queue })
    else (none, s)

-- `dispatchSlice` up to its wait: whether the worker is available.
unfoldable pub dispatch_begins : String → Server → Bool × Server
dispatch_begins id s = elim (client_of id s.clients) [
  | none ↦ (false, s)
  | some c ↦
      if same c.state available
      then (true, record s { active_workers = assign id true s.active_workers })
      else (false, s)
]

-- What follows the answer of the worker; `will_process` is false where the sending failed.
unfoldable pub dispatch_ends : ℕ → String → Bool → Server → Server
unfolding update_state
dispatch_ends now id will_process s =
    if will_process
    then update_state now id unavailable s
    else record s { active_workers = assign id false s.active_workers }

unfoldable pub active_worker_count : Server → ℕ
active_worker_count s = length (keep_if (λ p. p.1) s.active_workers)

-- `worker:slice:complete`: the answer is recorded after the event.
unfoldable pub on_slice_complete : String → Server → Server
on_slice_complete id s = record s { active_workers = assign id false s.active_workers }
