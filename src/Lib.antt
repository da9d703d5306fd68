-- ===== src/Lib.antt =====
-- A model of the core of teraslice, a distributed data pipeline: a cluster master keeps executions and
-- nodes, an execution controller slices the work of one execution, and workers run the slices.
--
-- The parts, their files and the code they follow (paths from the repository's root):
--
-- - Queue: packages/queue/index.js. The linked queue on a heap of nodes, where a pointer is an
--   address; enqueue, unshift, dequeue, each, remove, extract and exists keep their names. Loops over
--   the links take the size of the queue as fuel, and Queue.Holds says that a heap holds a list of that
--   length, so the fuel is enough.
-- - Execution: packages/teraslice/lib/cluster/storage/execution.js. Status is the lists of statuses,
--   Backend the interface to the documents in Elasticsearch with an instance on lists, Store the
--   functions (setStatus is set_status, verifyStatusUpdate is verify_status_update), History a sequence
--   of status changes. A promise is its settled result.
--   StateStore is storage/state.js beside it, the states of slices, with DateUtils for
--   packages/teraslice/lib/utils/date_utils.js; what toISOString gives is an argument.
-- - Controller: packages/teraslice/lib/workers/execution-controller. Recovery is recovery.js, Scheduler
--   the queue of scheduler.js, Scheduler.Drain the callbacks that move slices from the slicer to the
--   queue, Scheduler.Step the relation that lets them run in any order. The scheduler's queue is a
--   list, as the first part proves of the linked one. Dispatch, Status and Watchdogs are index.js: the
--   rounds of dispatching on the scheduler and the server of Messaging, the status that an execution is
--   given through Execution.Store, and the timers that end or fail it; Lifecycle is its start,
--   run and end, one await at a time. Analytics is execution-analytics.js, SliceStats
--   slice-analytics.js. A slicer's answers and the state store are arguments.
-- - Messaging: packages/teraslice-messaging/src. Clients is messenger/server.ts, the states of clients;
--   Workers is execution-controller/server.ts, whose listeners keep the queue of waiting workers;
--   WorkerClient is the other side, messenger/client.ts and execution-controller/client.ts.
-- - Cluster: packages/teraslice/lib/cluster. State, Allocate, Remove and Handlers are
--   services/cluster/backends/native/index.js and state-utils.js beside it: reading the nodes, handing
--   out and taking back workers, the events of nodes. The loops take the number of workers that are
--   asked for as fuel, which the theorems show to be enough. Messages is native/messaging.js, routing and
--   answering; KubernetesState is kubernetes/k8sState.js. NodeMaster is node_master.js: the requests
--   that wait for the mutex, and the shutdown of child processes, one run of its interval at a time.
--   lodash's orderBy, the nodes' answers and the children that are started are arguments.
-- - Services: packages/teraslice/lib/cluster/services. ExecutionService is execution.js, over Execution;
--   JobsService is jobs.js, over the answers of the stores and of the other services.
-- - Elasticsearch: packages/elasticsearch-api/index.js (Bulk and Backoff: the retries of requests and
--   their waits, Indices: creating and migrating an index) and
--   packages/teraslice/lib/cluster/storage/backends/elasticsearch_store.js (Queries, and Saving, the
--   buffer of bulk requests). A list of answers that has run out is a promise that has not settled.
-- - Worker: packages/teraslice/lib/workers/worker. SliceRun is slice.js, where what bluebird-retry answers
--   is an argument; Process is index.js, the rounds of a worker and its shutdown.
--
-- Base has the names that all of them share. Time is an argument, a text is compared as it is, and
-- numbers are natural numbers where the code only counts with them; Base.Ints has the differences that
-- can be negative. Where a function awaits several promises in turn, the model takes them as one step,
-- unless its state says what is awaited.
--
-- Not modelled: logging, the setting of timers (a run of an interval is a step), the HTTP and socket
-- servers, the comparison of mappings, geo queries, the loading of assets, and the packages beside the
-- core, such as job-components, the command line and the transforms.
pub mod Base
pub mod Queue
pub mod Execution
pub mod Elasticsearch
pub mod Messaging
pub mod Cluster
pub mod Services
pub mod Worker
pub mod Controller
