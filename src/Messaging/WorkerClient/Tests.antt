-- ===== src/Messaging/WorkerClient/Tests.antt =====
-- A worker with one slice, and one that loses its connection.
use teraslice.Messaging.Clients.{Client, available, disconnected, online}
use teraslice.Messaging.Workers.{Server, update_state}
use teraslice.Messaging.Membership.{waiting}
use teraslice.Messaging.WorkerClient.{WorkerClient, make_client, on_reconnect}
use teraslice.Messaging.WorkerClient.Accepting.{Op, connects, waits, slice_comes, run, run-accepted}
use teraslice.Messaging.WorkerClient.Reconnecting.{reconnect-waiting}
use teraslice.Base.{◌≤◌, ◌≡◌, refl, true, false, none, List, [], ◌∷◌, length}

abbrev ops : List Op
ops = connects ∷ waits ∷ slice_comes "s1" ∷ slice_comes "s2" ∷ []

run-accepted_example :
    let c = run ops make_client in (c.accepted ≡ c.delivered) × (length c.accepted ≤ c.announced)
run-accepted_example = run-accepted ops

abbrev worker : Client
worker = record { client_id = "w1"; state = available; offline_at = none }

abbrev server : Server
server = record { clients = worker ∷ []; timeout = 5; queue = "w1" ∷ []; active_workers = [] }

abbrev idle : WorkerClient
idle = record make_client { ready = true; available = true; waiting = true }

reconnect-waiting_example :
    let s' = update_state 2 "w1" online (update_state 1 "w1" disconnected server) in
    ((on_reconnect idle).sent ≡ idle.sent)
    × ((on_reconnect idle).available ≡ true)
    × (waiting "w1" s' ≡ false)
reconnect-waiting_example = reconnect-waiting 1 2 "w1" worker server idle refl refl refl refl
