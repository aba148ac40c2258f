-- ===== src/Exact.antt =====
-- reuse/exact_prefix: the trie of action prefixes and its manager.
pub mod Types
pub mod Config
pub mod Trie
pub mod WellFormed
pub mod Path
pub mod Manager
pub mod Reached
pub mod Ingest
pub mod Session
pub mod Strategy
