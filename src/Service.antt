-- ===== src/Service.antt =====
-- service/: the orchestrator, its results and its policies.
pub mod Result
pub mod Lifecycle
pub mod Eviction
