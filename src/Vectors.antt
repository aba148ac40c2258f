-- ===== src/Vectors.antt =====
-- backends/vector/: the vector stores.
pub mod Faiss
