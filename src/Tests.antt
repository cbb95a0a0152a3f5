-- ===== src/Tests.antt =====
-- A Redis that keeps its lists in memory, a small control plane on it, and the theorems at these.
pub mod ListRedis
pub mod Values
pub mod Runs
pub mod Rounds
pub mod Databases
pub mod Hosts
pub mod Pushes
pub mod Deployments
