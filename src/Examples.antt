-- ===== src/Examples.antt =====
-- The theorems at concrete inputs.
pub mod Wire
pub mod Datagrams
pub mod Users
pub mod Notifications
pub mod Replicas
pub mod Serving
pub mod Replicating
pub mod Labels
pub mod Clients
pub mod Delivering
pub mod Takeover
pub mod Interleaving
pub mod Forwarding
pub mod Electing
