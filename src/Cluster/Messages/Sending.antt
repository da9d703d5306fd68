-- ===== src/Cluster/Messages/Sending.antt =====
-- Sending and answering of messages: packages/teraslice/lib/cluster/services/cluster/backends/native/messaging.js.
-- A promise of `send` is an id that waits for its response.
use teraslice.Cluster.Messages.{
  Self, cluster_master, node_master, same, name_of, Message, Route, by_network, by_ipc,
  determine_path_for_message,
}
use teraslice.Base.{
  String, Bool, true, false, not, ◌&&◌, ◌||◌, Option, none, some, List, [], ◌∷◌, map, ◌==◌,
  if◌then◌else◌, ◌===◌, length, keep_if, any_of,
}

-- What a process sends: to its socket, to the room of an address, to a child by its id, to its parent, or
-- nothing, where the other side is not connected.
pub data Effect : Type 0 where
  emit : String → Message → Effect
  to_room : Option String → String → Message → Effect
  to_child : String → Message → Effect
  to_parent : Message → Effect
  unsent : Message → Effect

pub record Child : Type 0 where
  pub id : String
  pub assignment : String
  pub ex_id : Option String
  pub connected : Bool

abbrev pub has_ex_id : Option String → Option String → Bool
has_ex_id none c = true
has_ex_id (some e) none = e === ""
has_ex_id (some e) (some c) = e === "" || c === e

-- The filter of `_sendToProcesses`; `ex_id` is the one of the message, or of its payload.
abbrev pub is_meant : Message → Child → Bool
is_meant m c = c.assignment === m.to && has_ex_id m.ex_id c.ex_id

abbrev pub send_to_child : Message → Child → Effect
send_to_child m c = if c.connected then to_child c.id m else unsent m

-- `reply` is the response that is sent where no child is meant.
unfoldable pub find_and_send :
    (Message → Option (List Effect)) → List Child → Message → Option (List Effect)
find_and_send reply children m =
    let l = keep_if (is_meant m) children in
    if length l == 0 && m.response then reply m else some (map (send_to_child m) l)

abbrev pub forward_by :
    (Message → Option (List Effect))
    → Self
    → Bool
    → List Child
    → Message
    → Route
    → Option (List Effect)
unfolding find_and_send
forward_by reply self connected children m by_network = some (
    (if same self node_master
      then emit m.message m
      else to_room m.address (if same self cluster_master then "networkMessage" else m.message) m)
    ∷ [])
forward_by reply self connected children m by_ipc =
    if same self node_master
    then find_and_send reply children m
    else some ((if connected then to_parent m else unsent m) ∷ [])

abbrev pub forward_along :
    (Message → Option (List Effect))
    → Self
    → Bool
    → List Child
    → Message
    → Option Route
    → Option (List Effect)
unfolding forward_by
forward_along reply self connected children m none = none
forward_along reply self connected children m (some r) =
    forward_by reply self connected children m r

-- `_forwardMessage` of a message that wants no response.
unfoldable pub forward_plain : Self → Bool → List Child → Message → Option (List Effect)
unfolding determine_path_for_message forward_along
forward_plain self connected children m =
    forward_along (λ r. some []) self connected children m (determine_path_for_message self m)

abbrev pub with_source : Self → Message → Message
with_source self m = record m { source = some (elim m.source [ none ↦ name_of self | some s ↦ s ]) }

-- The message that `respond` sends.
unfoldable pub response_to : Message → Message → Message
response_to incoming outgoing = record outgoing {
  msg_id = elim incoming.msg_id [ none ↦ outgoing.msg_id | some i ↦ some i ];
  source = incoming.source;
  message = "messaging:response";
  to = elim incoming.source [ none ↦ "" | some s ↦ s ];
}

abbrev pub nothing : Message
nothing = record {
  to = "";
  message = "";
  address = none;
  ex_id = none;
  response = false;
  msg_id = none;
  source = none;
  error = none;
}

-- `respond` without a message of its own, which wants no response.
unfoldable pub respond_empty : Self → Bool → List Child → Message → Option (List Effect)
unfolding forward_plain response_to
respond_empty self connected children incoming =
    forward_plain self connected children (with_source self (response_to incoming nothing))

-- `_forwardMessage`; an empty answer goes back where no child is meant.
unfoldable pub forward_message : Self → Bool → List Child → Message → Option (List Effect)
unfolding determine_path_for_message forward_along respond_empty
forward_message self connected children m =
    forward_along (respond_empty self connected children) self connected children m
      (determine_path_for_message self m)

-- The promises of `send`: those that wait for the response with an id, and those that have settled.
pub data Outcome : Type 0 where
  resolved : Message → Outcome
  rejected : String → Outcome
  timed_out : Outcome

pub record Promises : Type 0 where
  pub waiting : List String
  pub settled : List (String × Outcome)

abbrev pub without : String → List String → List String
without id l = keep_if (λ i. not (i === id)) l

abbrev pub settle : String → Outcome → Promises → Promises
settle id o p = record { waiting = without id p.waiting; settled = (id, o) ∷ p.settled }

-- `send`, with a new id for a message that wants a response.
unfoldable pub send :
    Self → Bool → List Child → String → Message → Promises → Option (List Effect) × Promises
unfolding forward_message
send self connected children id m p =
    let m' = with_source self m in
    if not m.response then (forward_message self connected children m', p) else (
      forward_message self connected children (record m' { msg_id = some id }),
      record p { waiting = id ∷ p.waiting },
    )

-- `respond`: a message that itself wants a response gets a new id, and waits for it.
unfoldable pub respond :
    Self
    → Bool
    → List Child
    → String
    → Message
    → Message
    → Promises
    → Option (List Effect) × Promises
unfolding send response_to
respond self connected children id incoming outgoing p =
    send self connected children id (response_to incoming outgoing) p

abbrev pub outcome_of : Message → Outcome
outcome_of m = elim m.error [
  | none ↦ resolved m
  | some e ↦ if e === "" then resolved m else rejected e
]

abbrev pub completed : Option String → Message → Promises → Promises
completed none m p = p
completed (some id) m p = if any_of (λ i. i === id) p.waiting then settle id (outcome_of m) p else p

-- `_handleResponse`
unfoldable pub handle_response :
    Self → Bool → List Child → Message → Promises → Option (List Effect) × Promises
unfolding forward_message
handle_response self connected children m p =
    if elim m.source [ none ↦ false | some s ↦ s === name_of self ]
    then (some [], completed m.msg_id m p)
    else (forward_message self connected children m, p)

unfoldable pub time_out : String → Promises → Promises
time_out id p = if any_of (λ i. i === id) p.waiting then settle id timed_out p else p

-- `_handleWorkerMessage` of the node master: the messages that go on, or the event of the process.
unfoldable pub handle_worker_message :
    List Child → String → Message → Promises → Option (List Effect) × Promises × Option String
unfolding send find_and_send respond_empty
handle_worker_message children id m p =
    if m.to === "cluster_master"
    then (let r = send node_master true children id m p in (r.0, r.1, none))
    else if m.to === "node_master"
    then (some [], p, some m.message)
    else (find_and_send (respond_empty node_master true children) children m, p, none)

-- A network message at the node master: whether a function is registered for it, or what is passed on.
unfoldable pub on_network_message : Bool → List Child → Message → Option (Option (List Effect))
unfolding find_and_send respond_empty
on_network_message registered children m =
    if registered
    then none
    else some (find_and_send (respond_empty node_master true children) children m)
