-- ===== src/Messaging/WorkerClient/Reconnecting.antt =====
-- A worker that loses its connection while it waits, on both sides: messenger/client.ts,
-- messenger/server.ts and execution-controller/server.ts of packages/teraslice-messaging/src.
use teraslice.Messaging.Clients.{
  ClientState, offline, online, disconnected, available, unavailable, shutdown, Client, Event,
  entered, reconnected, client_of, set_client, moved, is_refused, update_client_state,
}
use teraslice.Messaging.Workers.{
  Server, on_event, on_events, update_state, worker_enqueue, worker_remove,
}
use teraslice.Messaging.Membership.{waits-disconnected, waits-online, waiting, update_state-waits}
use teraslice.Messaging.Cleanup.{client_of_id}
use teraslice.Messaging.WorkerClient.{WorkerClient, on_reconnect, send_available}
use teraslice.Base.{
  ℕ, ◌+◌, String, ◌≡◌, refl, ap, ◌∙◌, true, false, some, List, [], ◌∷◌, arith, ◌===◌, ===_iff,
}

client_of-set_client_same :
    (id : String) (d c : Client) (l : List Client)
    → d.client_id ≡ id
    → client_of id l ≡ some c
    → client_of id (set_client d l) ≡ some d
client_of-set_client_same id d c [] e h = absurd (ground arith)
client_of-set_client_same id d c (k ∷ l) e h = ground (
  arith,
  ===_iff k.client_id d.client_id,
  ===_iff k.client_id id,
  ===_iff d.client_id id,
  client_of-set_client_same id d c l e,
)

worker_remove_clients : (id : String) (s : Server) → (worker_remove id s).clients ≡ s.clients
unfolding worker_remove
worker_remove_clients id s = ground arith

worker_enqueue_clients : (id : String) (s : Server) → (worker_enqueue id s).clients ≡ s.clients
unfolding worker_enqueue
worker_enqueue_clients id s = ground arith

on_event_clients : (e : Event) (s : Server) → (on_event e s).clients ≡ s.clients
unfolding on_event
on_event_clients (entered unavailable id) s = worker_remove_clients id s
on_event_clients (entered disconnected id) s = worker_remove_clients id _
on_event_clients (entered available id) s = worker_enqueue_clients id _
on_event_clients (entered offline id) s = refl
on_event_clients (entered online id) s = refl
on_event_clients (entered shutdown id) s = refl
on_event_clients (reconnected id) s = refl

on_events_clients : (l : List Event) (s : Server) → (on_events l s).clients ≡ s.clients
unfolding on_events
on_events_clients [] s = refl
on_events_clients (e ∷ l) s = on_events_clients l (on_event e s) ∙ on_event_clients e s

update_state_clients :
    (now : ℕ) (id : String) (state : ClientState) (s : Server)
    → (update_state now id state s).clients
      ≡ (update_client_state now s.timeout id state s.clients).0
unfolding update_state
update_state_clients now id state s =
    let r = update_client_state now s.timeout id state s.clients in
    on_events_clients r.1 (record s { clients = r.0 })

updated_clients :
    (now timeout : ℕ) (id : String) (state : ClientState) (c : Client) (l : List Client)
    → client_of id l ≡ some c
    → is_refused c.state state ≡ false
    → (update_client_state now timeout id state l).0 ≡ set_client (moved (now + timeout) state c) l
unfolding update_client_state
updated_clients now timeout id state c l h r = rw h (rw r refl)

-- The client after its connection was lost.
disconnected_client :
    (now : ℕ) (id : String) (c : Client) (s : Server)
    → client_of id s.clients ≡ some c
    → c.state ≡ available
    → client_of id (update_state now id disconnected s).clients
      ≡ some (record c { state = disconnected; offline_at = some (now + s.timeout) })
disconnected_client now id c s h k =
    let d = moved (now + s.timeout) disconnected c in
    ap (client_of id) (
      update_state_clients now id disconnected s
      ∙ updated_clients now s.timeout id disconnected c s.clients h (rw k refl))
    ∙ client_of-set_client_same id d c s.clients (client_of_id id c s.clients h) h

-- A worker that waits for a slice, loses its connection and connects again sends nothing, since it still
-- counts itself as available; and the execution controller has taken it out of its queue and does not put
-- it back.
pub reconnect-waiting :
    (now later : ℕ) (id : String) (c : Client) (s : Server) (w : WorkerClient)
    → (id === "") ≡ false
    → client_of id s.clients ≡ some c
    → c.state ≡ available
    → w.available ≡ true
    → let s' = update_state later id online (update_state now id disconnected s) in
      ((on_reconnect w).sent ≡ w.sent)
      × ((on_reconnect w).available ≡ true)
      × (waiting id s' ≡ false)
unfolding on_reconnect send_available
reconnect-waiting now later id c s w n h k hw =
    let s1 = update_state now id disconnected s in
    let same = (===_iff id id).1 refl in
    let lost : waiting id s1 ≡ false =
      update_state-waits now id id disconnected c s n h (rw k refl)
      ∙ rw same (waits-disconnected c.state (waiting id s)) in
    let back =
      update_state-waits later id id online _ s1 n (disconnected_client now id c s h k) refl in
    (ground arith, ground arith, back ∙ rw same (waits-online disconnected (waiting id s1) ∙ lost))
