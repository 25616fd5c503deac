-- ===== src/Tests.antt =====
-- Runs of the operator on a small cluster, and one use of each theorem on it.
pub mod Cluster
pub mod World
pub mod Segmentations
pub mod Runtimes
pub mod Platforms
pub mod Client
pub mod Deployment
pub mod Copies
pub mod Processes
pub mod Progress
pub mod Unconfigured
pub mod Stored
pub mod Plant
pub mod Bodies
pub mod Rounds
pub mod Setups
pub mod Exchanges
pub mod Refused
