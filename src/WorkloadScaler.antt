-- ===== src/WorkloadScaler.antt =====
-- internal/controller/workloadscaler: the coordinator of horizontal and vertical scaling.
pub mod Coordinator
pub mod Horizontal
pub mod Bounds
pub mod Raise
pub mod Surge
pub mod Baselines
pub mod Vertical
pub mod Controller
pub mod Round
pub mod Grouping
pub mod Conflicts
mod Tests
