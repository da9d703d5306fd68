-- ===== src/Messaging/Tests.antt =====
-- The servers of packages/teraslice-messaging with one and two clients.
use teraslice.Messaging.Clients.{
  Client, disconnected, available, unavailable, client_of, cleanup_clients,
}
use teraslice.Messaging.Workers.{Server, update_state}
use teraslice.Messaging.Cleanup.{cleanup_clients_late}
use teraslice.Messaging.Membership.{waits, waiting, update_state-waits}
use teraslice.Base.{◌≡◌, refl, none, some, [], ◌∷◌, arith, if◌then◌else◌, ◌===◌}

abbrev gone : Client
gone = record { client_id = "w1"; state = disconnected; offline_at = some 10 }

abbrev ready : Client
ready = record { client_id = "w2"; state = unavailable; offline_at = none }

cleanup_clients_late_example :
    client_of "w1" (cleanup_clients 20 5 (gone ∷ ready ∷ [])).0 ≡ some gone
cleanup_clients_late_example =
    cleanup_clients_late 20 5 10 "w1" gone (gone ∷ ready ∷ []) (refl, (refl, tt)) refl refl refl
      (omega arith)

abbrev server : Server
server = record { clients = gone ∷ ready ∷ []; timeout = 5; queue = []; active_workers = [] }

update_state-waits_example : waiting "w2" (update_state 1 "w2" available server) ≡ (
    if "w2" === "w2"
    then waits ready.state available (waiting "w2" server)
    else waiting "w2" server)
update_state-waits_example = update_state-waits 1 "w2" "w2" available ready server refl refl refl
