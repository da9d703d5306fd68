-- ===== src/Messaging/Clients.antt =====
-- The clients of a server and their states: packages/teraslice-messaging/src/messenger/server.ts. The
-- clients are a list by their ids, as the object has them, and the time is an argument.
use teraslice.Base.{
  ℕ, ◌+◌, String, Bool, false, not, ◌&&◌, ◌||◌, Option, none, some, List, [], ◌∷◌, ◌++◌, ltb, ◌==◌,
  if◌then◌else◌, ◌===◌, length, keep_if, any_of,
}

pub data ClientState : Type 0 where
  offline online disconnected available unavailable shutdown : ClientState

abbrev pub code : ClientState → ℕ
code offline = 0
code online = 1
code disconnected = 2
code available = 3
code unavailable = 4
code shutdown = 5

abbrev pub same : ClientState → ClientState → Bool
same a b = code a == code b

abbrev pub includes : List ClientState → ClientState → Bool
includes l s = any_of (same s) l

abbrev pub disconnected_states : List ClientState
disconnected_states = offline ∷ disconnected ∷ shutdown ∷ []

abbrev pub unavailable_states : List ClientState
unavailable_states = unavailable ∷ disconnected_states

abbrev pub online_states : List ClientState
online_states = online ∷ available ∷ unavailable ∷ []

abbrev pub connected_states : List ClientState
connected_states = disconnected ∷ online_states

pub record Client : Type 0 where
  pub client_id : String
  pub state : ClientState
  pub offline_at : Option ℕ

-- `client:<state>`, or `client:reconnect`, with the client's id.
pub data Event : Type 0 where
  entered : ClientState → String → Event
  reconnected : String → Event

abbrev pub client_of : String → List Client → Option Client
client_of id [] = none
client_of id (c ∷ l) = if c.client_id === id then some c else client_of id l

abbrev pub set_client : Client → List Client → List Client
set_client c [] = []
set_client c (d ∷ l) = if d.client_id === c.client_id then c ∷ l else d ∷ set_client c l

unfoldable pub filter_clients_by_state : List ClientState → List Client → List Client
filter_clients_by_state states clients = keep_if (λ (c : Client). includes states c.state) clients

unfoldable pub count_clients_by_state : List ClientState → List Client → ℕ
unfolding filter_clients_by_state
count_clients_by_state states clients = length (filter_clients_by_state states clients)

unfoldable pub is_client_in : List ClientState → String → List Client → Bool
is_client_in states id clients = elim (client_of id clients) [
  | none ↦ false
  | some c ↦ includes states c.state
]

unfoldable pub is_client_ready : String → List Client → Bool
unfolding is_client_in
is_client_ready = is_client_in online_states

unfoldable pub is_client_connected : String → List Client → Bool
unfolding is_client_in
is_client_connected = is_client_in connected_states

-- What a change from the first state to the second emits.
abbrev pub events_of : ClientState → ClientState → String → List Event
events_of current disconnected id =
    (if same current available then entered unavailable id ∷ [] else [])
    ++ entered disconnected id ∷ []
events_of current offline id =
    (if includes disconnected_states current
      then []
      else (if same current available then entered unavailable id ∷ [] else [])
        ++ entered disconnected id ∷ [])
    ++ entered offline id ∷ []
events_of current online id = reconnected id ∷ []
events_of current available id = entered available id ∷ []
events_of current unavailable id = entered unavailable id ∷ []
events_of current shutdown id = entered shutdown id ∷ []

abbrev pub is_refused : ClientState → ClientState → Bool
is_refused current state = same current state || (same current shutdown && not (same state offline))

abbrev pub moved : ℕ → ClientState → Client → Client
moved offline_at disconnected c = record c { state = disconnected; offline_at = some offline_at }
moved offline_at state c = record c { state = state }

-- The clients and the events, with the client that the id has.
abbrev pub updated :
    ℕ → String → ClientState → List Client → Option Client → List Client × List Event
updated offline_at id state clients none = (clients, [])
updated offline_at id state clients (some c) =
    if is_refused c.state state
    then (clients, [])
    else (set_client (moved offline_at state c) clients, events_of c.state state id)

-- `timeout` is `clientDisconnectTimeout`.
unfoldable pub update_client_state :
    ℕ → ℕ → String → ClientState → List Client → List Client × List Event
update_client_state now timeout id state clients =
    updated (now + timeout) id state clients (client_of id clients)

-- `ensureClient` on the id of a socket.
unfoldable pub ensure_client : ℕ → ℕ → String → List Client → List Client × List Event
unfolding update_client_state
ensure_client now timeout id clients = elim (client_of id clients) [
  | some c ↦ update_client_state now timeout id online clients
  | none ↦ (
    clients ++ record { client_id = id; state = online; offline_at = none } ∷ [],
    entered online id ∷ [],
  )
]

-- What the clean-up interval asks of one client.
unfoldable pub is_cleaned : ℕ → Client → Bool
is_cleaned now c =
    same c.state shutdown
    || (same c.state disconnected
        && (elim c.offline_at [ none ↦ false | some t ↦ not (t == 0) && ltb now t ]))

abbrev pub cleanup_each : ℕ → ℕ → List Client → List Client → List Client × List Event
cleanup_each now timeout [] clients = (clients, [])
cleanup_each now timeout (c ∷ l) clients =
    let r = update_client_state now timeout c.client_id offline clients in
    let r' = cleanup_each now timeout l (if is_cleaned now c then r.0 else clients) in
    (r'.0, (if is_cleaned now c then r.1 else []) ++ r'.1)

unfoldable pub cleanup_clients : ℕ → ℕ → List Client → List Client × List Event
unfolding is_cleaned update_client_state
cleanup_clients now timeout clients = cleanup_each now timeout clients clients

-- A socket disconnects.
unfoldable pub on_disconnect : ℕ → ℕ → Bool → String → List Client → List Client × List Event
unfolding update_client_state
on_disconnect now timeout is_shutting_down id clients =
    update_client_state now timeout id (if is_shutting_down then shutdown else disconnected) clients
