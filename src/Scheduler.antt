-- ===== src/Scheduler.antt =====
-- internal/scheduler: would a pod fit on a node? The Kubernetes objects, a module for each group
-- of checks, and the simulator that makes them in turn.
pub mod Types
pub mod Labels
pub mod Resources
pub mod Taints
pub mod Topology
pub mod Spread
pub mod Simulator
mod Tests
