-- ===== src/Cluster/Messages.antt =====
-- Messages between the processes of a native cluster:
-- packages/teraslice/lib/cluster/services/cluster/backends/native/messaging.js. An undefined text is `none`,
-- an undefined destination the empty text. What is sent is a list of effects; ids of messages are
-- arguments.
pub mod Sending
pub mod Answering
pub mod Tests
use teraslice.Base.{
  ℕ, zero, suc, ◌+◌, ◌-◌, ◌*◌, ◌≤◌, ◌<◌, String, ◌≡◌, refl, sym, ap, subst, ◌∙◌, ◌≢◌, ◌↔◌, ◌⊎◌, inl,
  inr, Bool, true, false, not, ◌&&◌, ◌||◌, Option, none, some, List, [], ◌∷◌, ◌++◌, map, arith, ltb,
  leb, ◌==◌, if◌then◌else◌, ltb→lt, lt→ltb, leb→le, ==_iff, Bool-cases, Option-cases, ◌===◌,
  ===_iff, length, keep_if, any_of, All, length-append, length-map, length-keep_if-le, All-append,
  Result, ok, err, ◌>>=◌, map_err, map_ok, is_ok, min,
}

-- The assignment of a process; a worker or an execution controller has no entry in `routing`.
pub data Self : Type 0 where
  cluster_master node_master assets_service other_process : Self

abbrev pub code : Self → ℕ
code cluster_master = 0
code node_master = 1
code assets_service = 2
code other_process = 3

abbrev pub same : Self → Self → Bool
same a b = code a == code b

-- The text of an assignment.
abbrev pub name_of : Self → String
name_of cluster_master = "cluster_master"
name_of node_master = "node_master"
name_of assets_service = "assets_service"
name_of other_process = "worker"

pub record Message : Type 0 where
  pub to : String
  pub message : String
  pub address : Option String
  pub ex_id : Option String
  pub response : Bool
  pub msg_id : Option String
  pub source : Option String
  pub error : Option String

-- The messages of a process: the names and the events that they stand for.
pub record Registry : Type 0 where
  pub ipc : List (String × String)
  pub intra_process : List (String × String)
  pub network : List (String × String)

abbrev pub event_of : String → List (String × String) → Option String
event_of k [] = none
event_of k ((j, v) ∷ l) = if j === k then some v else event_of k l

abbrev pub itself : List String → List (String × String)
itself l = map (λ s. (s, s)) l

abbrev pub cluster_master_messages : Registry
cluster_master_messages = record {
  ipc = ("process:SIGTERM", "SIGTERM") ∷ ("process:SIGINT", "SIGINT") ∷ [];
  intra_process = ("network:disconnect", "disconnect") ∷ ("network:error", "error") ∷ [];
  network = itself (
      "node:online" ∷ "node:state" ∷ "execution:recovery:failed" ∷ "execution:finished"
      ∷ "cluster:analytics" ∷ "execution:error:terminal" ∷ "assets:preloaded"
      ∷ "assets:service:available" ∷ []);
}

abbrev pub node_master_messages : Registry
node_master_messages = record {
  ipc = ("cluster:error:terminal", "cluster:error:terminal") ∷ ("child:exit", "exit") ∷ [];
  intra_process =
      ("network:connect", "connect")
      ∷ ("network:disconnect", "disconnect")
      ∷ ("network:error", "error")
      ∷ [];
  network = itself (
      "cluster:execution_controller:create" ∷ "cluster:workers:create" ∷ "cluster:workers:remove"
      ∷ "cluster:node:state" ∷ "cluster:execution:stop" ∷ "cluster:node:get_port" ∷ []);
}

abbrev pub assets_service_messages : Registry
assets_service_messages = record {
  ipc = ("process:SIGTERM", "SIGTERM") ∷ ("process:SIGINT", "SIGINT") ∷ [];
  intra_process = [];
  network = [];
}

-- `_getMessages`; of another process it is an error, which has no messages.
unfoldable pub get_messages : Self → Registry
get_messages cluster_master = cluster_master_messages
get_messages node_master = node_master_messages
get_messages assets_service = assets_service_messages
get_messages other_process = record { ipc = []; intra_process = []; network = [] }

-- Where `register` puts a callback: on the process, or in the function mapping.
pub data Listener : Type 0 where
  on_process : String → Listener
  mapped : String → Listener

abbrev pub network_event : String → Registry → Option String
network_event name r = elim (event_of name r.network) [
  | some e ↦ some e
  | none ↦ event_of name r.intra_process
]

-- `none` where the process cannot register for the event.
unfoldable pub register : Self → String → Option Listener
unfolding get_messages
register self name = elim (event_of name (get_messages self).ipc) [
  | some e ↦ some (on_process e)
  | none ↦ elim (network_event name (get_messages self)) [ some e ↦ some (mapped e) | none ↦ none ]
]

pub data Route : Type 0 where
  by_network by_ipc : Route

unfoldable pub routing : Self → String → Option Route
routing cluster_master to = if to === "node_master" then some by_network else none
routing node_master to =
    if to === "cluster_process"
    then some by_ipc
    else if to === "cluster_master"
    then some by_network
    else none
routing assets_service to = if to === "cluster_master" then some by_ipc else none
routing other_process to = none

abbrev pub is_empty : Option String → Bool
is_empty none = true
is_empty (some s) = s === ""

-- `none` where the code throws.
unfoldable pub determine_path_for_message : Self → Message → Option Route
unfolding get_messages routing
determine_path_for_message self m =
    if same self cluster_master
      && is_empty m.address
      && not (is_empty (event_of m.message cluster_master_messages.ipc))
    then some by_ipc
    else routing self m.to
