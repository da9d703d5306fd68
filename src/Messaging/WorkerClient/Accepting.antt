-- ===== src/Messaging/WorkerClient/Accepting.antt =====
-- How many slices the client of packages/teraslice-messaging/src/execution-controller/client.ts accepts.
use teraslice.Messaging.WorkerClient.{
  WorkerClient, make_client, send_volatile, send_available, send_unavailable, on_connect,
  on_reconnect, on_connection_lost, on_server_shutdown, on_slice, wait_for_slice, wait_tick,
  shutdown,
}
use teraslice.Base.{
  ◌+◌, ◌≤◌, String, ◌≡◌, refl, Bool, true, List, [], ◌∷◌, arith, if◌then◌else◌, length,
}

pub data Op : Type 0 where
  connects reconnects loses_connection server_shuts_down waits shuts_down : Op
  slice_comes : String → Op
  ticks : Bool → Bool → Op

unfoldable pub step : Op → WorkerClient → WorkerClient
unfolding on_connect on_reconnect on_connection_lost on_server_shutdown wait_for_slice shutdown
    on_slice wait_tick
step connects c = on_connect c
step reconnects c = on_reconnect c
step loses_connection c = on_connection_lost c
step server_shuts_down c = on_server_shutdown c
step waits c = wait_for_slice c
step shuts_down c = shutdown c
step (slice_comes id) c = (on_slice id c).1
step (ticks stop expired) c = wait_tick stop expired c

unfoldable pub run : List Op → WorkerClient → WorkerClient
unfolding step
run [] c = c
run (o ∷ os) c = run os (step o c)

abbrev Inv : WorkerClient → Type 0
Inv c =
    (c.accepted ≡ c.delivered) × (length c.accepted + (if c.available then 1 else 0) ≤ c.announced)

send_volatile-Inv : (name : String) (c : WorkerClient) → Inv c → Inv (send_volatile name c)
send_volatile-Inv name c h = ground (arith, h)

send_available-Inv : (c : WorkerClient) → Inv c → Inv (send_available c)
unfolding send_available
send_available-Inv c h = ground (arith, h)

send_unavailable-Inv : (c : WorkerClient) → Inv c → Inv (send_unavailable c)
unfolding send_unavailable
send_unavailable-Inv c h = ground (arith, h)

step-Inv : (o : Op) (c : WorkerClient) → Inv c → Inv (step o c)
unfolding step on_connect on_reconnect on_connection_lost on_server_shutdown wait_for_slice shutdown
    on_slice wait_tick
step-Inv connects c h = h
step-Inv reconnects c h = ground (arith, send_available-Inv (record c { ready = true }) h)
step-Inv loses_connection c h = h
step-Inv server_shuts_down c h = h
step-Inv waits c h = send_available-Inv c h
step-Inv shuts_down c h = ground (arith, h)
step-Inv (slice_comes id) c h = ground (arith, h)
step-Inv (ticks stop expired) c h = ground (arith, h, send_unavailable-Inv c h)

run-Inv : (os : List Op) (c : WorkerClient) → Inv c → Inv (run os c)
unfolding run
run-Inv [] c h = h
run-Inv (o ∷ os) c h = run-Inv os (step o c) (step-Inv o c h)

-- Whatever happens to the connection, and whenever slices come and waits end: every slice that the client
-- has said it will process was given to waitForSlice, and it has accepted no more slices than it has
-- become available.
pub run-accepted :
    (os : List Op)
    → let c = run os make_client in (c.accepted ≡ c.delivered) × (length c.accepted ≤ c.announced)
unfolding make_client
run-accepted os = let h = run-Inv os make_client (refl, omega arith) in (h.0, omega arith)
