-- ===== src/Checks.antt =====
-- Concrete clusters, relays and networks, and the theorems applied to them.
pub mod Samples
pub mod Scheduling
pub mod Topologies
pub mod Relays
pub mod Wakes
pub mod Races
pub mod Power
pub mod Wired
pub mod Journal
pub mod Engines
pub mod Apis
pub mod Messages
pub mod Traffics
pub mod Verifications
pub mod Archives
pub mod Requests
pub mod Services
