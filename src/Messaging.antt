-- ===== src/Messaging.antt =====
-- The servers of packages/teraslice-messaging.
pub mod Clients
pub mod Workers
pub mod Cleanup
pub mod Membership
pub mod WorkerClient
pub mod Tests
