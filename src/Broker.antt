-- ===== src/Broker.antt =====
-- pkg/broker/coordinator.go: consumer groups, their leases and the window of committed offsets.
pub mod Names
pub mod Leases
pub mod Group
pub mod Sort
pub mod Fetch
pub mod Topics
pub mod Produce
pub mod Requests
pub mod Expiry
pub mod History
pub mod Sound
pub mod Closing
pub mod Samples
mod Tests
