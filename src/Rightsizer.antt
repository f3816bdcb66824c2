-- ===== src/Rightsizer.antt =====
-- internal/controller/rightsizer: the analysis of a pod's use, the recommendation to reduce its
-- requests, and the tracker of containers that ran out of memory.
pub mod Analyzer
pub mod Recommender
pub mod Downsize
pub mod Rounding
pub mod OomTracker
pub mod Dedup
mod Tests
