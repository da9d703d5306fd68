-- ===== src/Messaging/Membership.antt =====
-- Which workers wait in the queue of packages/teraslice-messaging/src/execution-controller/server.ts.
use teraslice.Messaging.Clients.{
  ClientState, offline, online, disconnected, available, unavailable, shutdown, same, includes,
  disconnected_states, Client, Event, entered, client_of, is_refused, events_of,
  update_client_state,
}
use teraslice.Messaging.Workers.{
  Server, on_event, on_events, update_state, worker_enqueue, worker_remove, assign, is_id, without,
}
use teraslice.Base.{
  ℕ, String, ◌≡◌, refl, ◌∙◌, Bool, true, false, not, ◌&&◌, ◌||◌, some, List, [], ◌∷◌, ◌++◌, arith,
  if◌then◌else◌, ◌===◌, ===_iff, keep_if, any_of,
}

-- Whether a client waits after a change of its state, where it was `waiting` or not before.
pub waits : ClientState → ClientState → Bool → Bool
waits current available waiting = true
waits current unavailable waiting = false
waits current disconnected waiting = false
waits current offline waiting = waiting && includes disconnected_states current
waits current online waiting = waiting
waits current shutdown waiting = waiting

pub waits-disconnected : (current : ClientState) (b : Bool) → waits current disconnected b ≡ false
unfolding waits
waits-disconnected current b = refl

pub waits-online : (current : ClientState) (b : Bool) → waits current online b ≡ b
unfolding waits
waits-online current b = refl

abbrev pub waiting : String → Server → Bool
waiting id s = any_of (is_id id) s.queue

any_of-remove :
    (id j : String) (q : List String)
    → any_of (is_id j) (keep_if (λ w. not (is_id id w)) q)
      ≡ (if id === j then false else any_of (is_id j) q)
any_of-remove id j [] = ground arith
any_of-remove id j (w ∷ q) =
    ground (arith, ===_iff w id, ===_iff w j, ===_iff id j, any_of-remove id j q)

any_of-snoc :
    (j id : String) (q : List String)
    → any_of (is_id j) (q ++ id ∷ []) ≡ any_of (is_id j) q || id === j
any_of-snoc j id [] = ground arith
any_of-snoc j id (w ∷ q) = ground (arith, any_of-snoc j id q)

worker_remove-waiting :
    (id j : String) (s : Server)
    → (id === "") ≡ false
    → waiting j (worker_remove id s) ≡ (if id === j then false else waiting j s)
unfolding worker_remove
worker_remove-waiting id j s h = rw h (any_of-remove id j s.queue)

worker_enqueue-waiting :
    (id j : String) (s : Server)
    → waiting j (worker_enqueue id s) ≡ (if id === j then true else waiting j s)
unfolding worker_enqueue
worker_enqueue-waiting id j s = ground (arith, any_of-snoc j id s.queue, ===_iff id j)

disconnects-waiting :
    (b : Bool) (id j : String) (s : Server)
    → (id === "") ≡ false
    → waiting j (
        on_events
          ((if b then entered unavailable id ∷ [] else []) ++ entered disconnected id ∷ [])
          s)
      ≡ (if id === j then false else waiting j s)
unfolding on_event on_events
disconnects-waiting true id j s h =
    worker_remove-waiting id j (record (worker_remove id s) { active_workers = _ }) h
    ∙ ground (arith, worker_remove-waiting id j s h)
disconnects-waiting false id j s h =
    worker_remove-waiting id j (record s { active_workers = without id s.active_workers }) h

on_events-append :
    (l m : List Event) (s : Server) → on_events (l ++ m) s ≡ on_events m (on_events l s)
unfolding on_events
on_events-append [] m s = refl
on_events-append (e ∷ l) m s = on_events-append l m (on_event e s)

offline-waiting :
    (b c : Bool) (id j : String) (s : Server)
    → (id === "") ≡ false
    → waiting j (
        on_events
          ((if b
              then []
              else (if c then entered unavailable id ∷ [] else []) ++ entered disconnected id ∷ [])
            ++ entered offline id ∷ [])
          s)
      ≡ (if id === j then waiting j s && b else waiting j s)
unfolding on_event on_events
offline-waiting true c id j s h = ground arith
offline-waiting false c id j s h =
    rw
      (on_events-append
        ((if c then entered unavailable id ∷ [] else []) ++ entered disconnected id ∷ [])
        (entered offline id ∷ []) s)
      (ground (arith, disconnects-waiting c id j s h))

events-waiting :
    (current state : ClientState) (id j : String) (s : Server)
    → (id === "") ≡ false
    → waiting j (on_events (events_of current state id) s)
      ≡ (if id === j then waits current state (waiting j s) else waiting j s)
unfolding on_event on_events waits
events-waiting current available id j s h =
    worker_enqueue-waiting id j (record s { active_workers = assign id false s.active_workers })
events-waiting current unavailable id j s h = worker_remove-waiting id j s h
events-waiting current disconnected id j s h = disconnects-waiting (same current available) id j s h
events-waiting current offline id j s h =
    offline-waiting (includes disconnected_states current) (same current available) id j s h
events-waiting current online id j s h = ground arith
events-waiting current shutdown id j s h = ground arith

-- A change of a client's state that is not refused decides whether it waits for a slice: it does when it
-- is available, it does not when it is unavailable or disconnected or goes offline from being connected;
-- and it stays as it was when it is online again, when it shuts down, and when it goes offline after
-- that. No other client's place changes.
pub update_state-waits :
    (now : ℕ) (id j : String) (state : ClientState) (c : Client) (s : Server)
    → (id === "") ≡ false
    → client_of id s.clients ≡ some c
    → is_refused c.state state ≡ false
    → waiting j (update_state now id state s)
      ≡ (if id === j then waits c.state state (waiting j s) else waiting j s)
unfolding update_state update_client_state on_events
update_state-waits now id j state c s n h r =
    rw h (rw r (events-waiting c.state state id j (record s { clients = _ }) n))
