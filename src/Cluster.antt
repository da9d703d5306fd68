-- ===== src/Cluster.antt =====
-- The native cluster service: packages/teraslice/lib/cluster/services/cluster/backends.
-- The state of the cluster is the list of its nodes by their ids, as the object has them. lodash's
-- `orderBy`, the messages to the nodes and their answers are arguments.
pub mod State
pub mod Allocate
pub mod Allocation
pub mod Remove
pub mod Removal
pub mod Handlers
pub mod Nodes
pub mod NodeMaster
pub mod Messages
pub mod KubernetesState
pub mod Tests
