-- ===== src/Approx.antt =====
-- reuse/approximate/: the embedding-retrieval strategy and its payload.
pub mod SkipStep
pub mod Payload
pub mod Backends
pub mod Save
pub mod Ranking
pub mod Lookup
