-- ===== src/Messaging/WorkerClient.antt =====
-- The client of a worker: packages/teraslice-messaging/src/messenger/client.ts and
-- packages/teraslice-messaging/src/execution-controller/client.ts. `waiting` says that waitForSlice listens,
-- `sent` holds the events that were sent, the last one first, `accepted` the slices that the client has
-- said it will process, `delivered` those that waitForSlice has resolved with, and `announced` counts
-- how often the client became available.
pub mod Accepting
pub mod Reconnecting
pub mod Tests
use teraslice.Base.{
  ℕ, zero, suc, ◌+◌, ◌-◌, ◌*◌, ◌≤◌, ◌<◌, String, ◌≡◌, refl, sym, ap, subst, ◌∙◌, ◌≢◌, ◌↔◌, ◌⊎◌, inl,
  inr, Bool, true, false, not, ◌&&◌, ◌||◌, Option, none, some, List, [], ◌∷◌, ◌++◌, map, arith, ltb,
  leb, ◌==◌, if◌then◌else◌, ltb→lt, lt→ltb, leb→le, ==_iff, Bool-cases, Option-cases, ◌===◌,
  ===_iff, length, keep_if, any_of, All, length-append, length-map, length-keep_if-le, All-append,
  Result, ok, err, ◌>>=◌, map_err, map_ok, is_ok, min,
}

pub record WorkerClient : Type 0 where
  pub ready : Bool
  pub available : Bool
  pub server_shutdown : Bool
  pub closed : Bool
  pub waiting : Bool
  pub sent : List String
  pub announced : ℕ
  pub accepted : List String
  pub delivered : List String

unfoldable pub make_client : WorkerClient
make_client = record {
  ready = false;
  available = false;
  server_shutdown = false;
  closed = false;
  waiting = false;
  sent = [];
  announced = 0;
  accepted = [];
  delivered = [];
}

-- A volatile message, which does not wait for the server to be ready.
abbrev pub send_volatile : String → WorkerClient → WorkerClient
send_volatile name c =
    if c.server_shutdown || c.closed then c else record c { sent = name ∷ c.sent }

unfoldable pub send_available : WorkerClient → WorkerClient
send_available c =
    if c.available
    then c
    else send_volatile "client:available"
        (record c { available = true; announced = c.announced + 1 })

unfoldable pub send_unavailable : WorkerClient → WorkerClient
send_unavailable c =
    if not c.available
    then c
    else send_volatile "client:unavailable" (record c { available = false })

-- The listeners on the socket.
unfoldable pub on_connect : WorkerClient → WorkerClient
on_connect c = record c { ready = true }

unfoldable pub on_reconnect : WorkerClient → WorkerClient
unfolding send_available
on_reconnect c =
    if not c.available
    then record c { ready = true }
    else send_available (record c { ready = true })

unfoldable pub on_connection_lost : WorkerClient → WorkerClient
on_connection_lost c = record c { ready = false }

unfoldable pub on_server_shutdown : WorkerClient → WorkerClient
on_server_shutdown c = record c { ready = false; server_shutdown = true }

unfoldable pub is_client_ready : WorkerClient → Bool
is_client_ready c = not c.server_shutdown && c.ready

-- `emit('execution:slice:new')`: only where waitForSlice listens does it get the slice.
abbrev pub emit_slice : String → WorkerClient → WorkerClient
emit_slice id c =
    if c.waiting then record c { waiting = false; delivered = id ∷ c.delivered } else c

-- The handler of `execution:slice:new`: its answer, and what it does.
unfoldable pub on_slice : String → WorkerClient → Bool × WorkerClient
on_slice id c =
    if not c.waiting
    then (false, c)
    else if c.available
    then (true, emit_slice id (record c { available = false; accepted = id ∷ c.accepted }))
    else (false, c)

unfoldable pub wait_for_slice : WorkerClient → WorkerClient
unfolding send_available
wait_for_slice c = let c' = send_available c in record c' { waiting = true }

-- A run of its interval: `stop` is what the worker's function answers.
unfoldable pub wait_tick : Bool → Bool → WorkerClient → WorkerClient
unfolding send_unavailable
wait_tick stop expired c =
    if not c.waiting
    then c
    else if c.server_shutdown || not c.ready || stop
    then record c { waiting = false }
    else if expired
    then (let c' = send_unavailable c in record c' { waiting = false })
    else c

unfoldable pub shutdown : WorkerClient → WorkerClient
unfolding is_client_ready
shutdown c =
    let c' = if is_client_ready c then send_volatile "client:shutdown" c else c in
    record c' { ready = false; closed = true }
