-- ===== src/Stores.antt =====
-- stores/: the blob stores behind the exact-prefix manager and the byte stores behind the
-- approximate strategy.
pub mod Tier
pub mod InMemory
pub mod TensorTier
pub mod LocalDisk
pub mod Memory
pub mod LocalFile
