-- ===== src/Cluster/Messages/Tests.antt =====
-- A request for a port and its answer.
use teraslice.Cluster.Messages.{cluster_master, node_master, Message}
use teraslice.Cluster.Messages.Sending.{
  Promises, nothing, send, respond, handle_response, emit, to_room, outcome_of,
}
use teraslice.Cluster.Messages.Answering.{request_of, answer_of, send-respond}
use teraslice.Base.{◌≡◌, refl, true, some, [], ◌∷◌}

abbrev request : Message
request = record nothing {
  to = "node_master";
  message = "cluster:node:get_port";
  address = some "n1";
  response = true;
}

abbrev promises : Promises
promises = record { waiting = []; settled = [] }

send-respond_example :
    let s = send cluster_master true [] "m1" request promises in
    let a = answer_of (request_of "m1" request) nothing in
    (s.0 ≡ some (to_room (some "n1") "networkMessage" (request_of "m1" request) ∷ []))
    × (respond node_master true [] "m2" (request_of "m1" request) nothing promises
        ≡ (some (emit "messaging:response" a ∷ []), promises))
    × ((handle_response cluster_master true [] a s.1).1.settled ≡ ("m1", outcome_of a) ∷ [])
send-respond_example =
    send-respond true true [] [] "m1" "m2" request nothing promises promises refl refl refl refl
      refl
