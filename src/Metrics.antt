-- ===== src/Metrics.antt =====
-- internal/metrics: the time series of nodes and pods in memory.
pub mod Store
pub mod Sorting
pub mod Percentiles
pub mod Ages
pub mod Cap
mod Tests
