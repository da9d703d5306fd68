-- ===== src/Cluster/Messages/Answering.antt =====
-- A request from the cluster master to a node and its answer, through
-- packages/teraslice/lib/cluster/services/cluster/backends/native/messaging.js on both sides.
use teraslice.Cluster.Messages.{
  cluster_master, node_master, Message, is_empty, determine_path_for_message, routing, by_network,
}
use teraslice.Cluster.Messages.Sending.{
  emit, to_room, Child, Promises, outcome_of, with_source, response_to, respond, send,
  handle_response, forward_message,
}
use teraslice.Base.{
  String, ◌≡◌, refl, ap, ◌∙◌, Bool, true, false, none, some, List, [], ◌∷◌, arith, ===_iff,
}

-- The request as it travels.
abbrev pub request_of : String → Message → Message
request_of id m = record m { source = some "cluster_master"; msg_id = some id }

-- The answer as it travels.
abbrev pub answer_of : Message → Message → Message
answer_of incoming outgoing = with_source node_master (response_to incoming outgoing)

routing_to_node :
    (m : Message)
    → m.to ≡ "node_master"
    → is_empty m.address ≡ false
    → determine_path_for_message cluster_master m ≡ some by_network
unfolding determine_path_for_message routing
routing_to_node m h k = ground (arith, ===_iff m.to "node_master")

send_lem :
    (connected : Bool) (children : List Child) (id : String) (m : Message) (p : Promises)
    → m.response ≡ true
    → m.to ≡ "node_master"
    → m.source ≡ none
    → is_empty m.address ≡ false
    → let s = send cluster_master connected children id m p in
      (s.0 ≡ some (to_room m.address "networkMessage" (request_of id m) ∷ []))
      × (s.1 ≡ record p { waiting = id ∷ p.waiting })
unfolding send forward_message
send_lem connected children id m p hr ht hs ha =
    let r = routing_to_node (request_of id m) ht ha in ground (arith, r)

respond_lem :
    (connected : Bool) (children : List Child) (id new : String) (m out : Message) (p : Promises)
    → out.response ≡ false
    → let a = answer_of (request_of id m) out in
      respond node_master connected children new (request_of id m) out p
      ≡ (some (emit "messaging:response" a ∷ []), p)
unfolding respond send forward_message response_to
respond_lem connected children id new m out p h = rw h refl

handle_lem :
    (connected : Bool) (children : List Child) (id : String) (m out : Message) (p : Promises)
    → let a = answer_of (request_of id m) out in
      (handle_response cluster_master connected children a
        (record p { waiting = id ∷ p.waiting })).1.settled
      ≡ (id, outcome_of a) ∷ p.settled
unfolding handle_response response_to
handle_lem connected children id m out p = rw ((===_iff id id).1 refl) refl

-- A request of the cluster master to the address of a node is sent once, to that room; the answer of the
-- node master, whatever it puts into it but a wish for a response to the answer, is sent once, to the
-- cluster master; and there it settles the promise of that request, as its error says. The request wants
-- a response and has no source yet.
pub send-respond :
    (connected connected' : Bool) (children children' : List Child) (id new : String)
    (m out : Message) (p p' : Promises)
    → m.response ≡ true
    → m.to ≡ "node_master"
    → m.source ≡ none
    → is_empty m.address ≡ false
    → out.response ≡ false
    → let s = send cluster_master connected children id m p in
      let a = answer_of (request_of id m) out in
      (s.0 ≡ some (to_room m.address "networkMessage" (request_of id m) ∷ []))
      × (respond node_master connected' children' new (request_of id m) out p'
          ≡ (some (emit "messaging:response" a ∷ []), p'))
      × ((handle_response cluster_master connected children a s.1).1.settled
          ≡ (id, outcome_of a) ∷ p.settled)
send-respond connected connected' children children' id new m out p p' hr ht hs ha ho =
    let s = send_lem connected children id m p hr ht hs ha in
    let a = answer_of (request_of id m) out in
    (
      s.0,
      respond_lem connected' children' id new m out p' ho,
      ap (λ q. (handle_response cluster_master connected children a q).1.settled) s.1
          ∙ handle_lem connected children id m out p,
    )
