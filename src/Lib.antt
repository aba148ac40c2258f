-- ===== src/Lib.antt =====
-- CacheSeek: the cache service for generative inference, its two reuse strategies and their stores.
--
-- The program. `CacheService` (cacheseek/service/lifecycle.py) asks its strategies in turn on a
-- lookup and hands saves to the first one, inline or through a queue that a worker thread empties;
-- a counter and an event make lookups wait for the saves in flight. The exact-prefix strategy keeps,
-- for every world (image, prompt, configuration), a trie of action sequences whose nodes name the KV
-- blobs of chunks in a store; the approximate strategy keeps latents of denoise steps, found by
-- vector search and gated by rerank scores.
--
-- Which file models which part:
--   Keys                cacheseek/reuse/exact_prefix/keys.py: the length-prefixed hash and the key chain
--   Exact/Types         reuse/exact_prefix/types.py and the storage types of cacheseek/stores/base.py
--   Exact/Config        reuse/exact_prefix/config.py: the knobs and `calibrate_break_even_k`
--   Exact/Trie          reuse/exact_prefix/trie.py: `NamespaceForest` with `lookup` and `commit`
--   Exact/Manager       reuse/exact_prefix/manager.py: `try_fast_forward`, `materialize`, `_window_path`
--   Exact/Ingest        reuse/exact_prefix/manager.py: `ingest` and `evict_blob`
--   Exact/Strategy      reuse/exact_prefix/strategy.py: `ExactPrefixStrategy`
--   Stores/Tier         the `KVTierStore` protocol of reuse/exact_prefix/manager.py, as an interface
--   Stores/InMemory     cacheseek/stores/tier.py: `InMemoryTierStore`, which fills that interface
--   Stores/TensorTier   the same file: `TensorStoreTierStore` over any tensor store, its queue, the
--                       rounds of its worker and its flush
--   Stores/LocalDisk    the same file: `LocalDiskTensorStore`, a tensor store that it can stand on
--   Stores/LocalFile    cacheseek/stores/local_file.py: `LocalFileKVStore`
--   Stores/Memory       cacheseek/stores/memory.py: `InMemoryKVStore`
--   Service/Result      cacheseek/service/result.py: the results of a lookup
--   Service/Lifecycle   cacheseek/service/lifecycle.py: `CacheService`; Settings has the two
--                       normalizations, Barrier the interleaved threads, Wait the wait of a lookup,
--                       FirstHit its loop over the strategies
--   Service/Eviction    cacheseek/service/eviction.py: `LRUEviction` and `FIFOEviction`
--   Approx/SkipStep     cacheseek/reuse/approximate/strategy.py: `_select_k_by_score` and
--                       `_determine_skip_step`; Cap has its bound
--   Approx/Backends     cacheseek/service/interfaces: what `VideoBasedApproximateCache` is constructed
--                       with, as records of operations; Laws has what `save` relies on, which
--                       the in-memory KV store fulfils (Memory)
--   Approx/Save         reuse/approximate/strategy.py: `save`, its clean-up and its rollback
--   Approx/Ranking      the same file: the order of the candidates, `_rerank_scores` and the choice
--   Approx/Lookup       the same file: `lookup` and `_lazy_evict_stale_entry`
--   Approx/Payload      cacheseek/reuse/approximate/payload.py: `VideoApproxPayload`
--   Vectors/Faiss       cacheseek/backends/vector/faiss.py: `FAISSVectorStore`, with the faiss library
--                       as an argument (Library); Operations has its methods
--   Metadata            cacheseek/backends/metadata/local.py: `LocalCacheMetadataManager`
--   Dict, Prelude       Python's dict, and the lists, integers and tests that the parts share
-- Exact/WellFormed, Exact/Path, Exact/Reached and Exact/Session are about the trie and its manager
-- together: the invariant, the paths, and every sequence of operations. Tests holds concrete runs.
--
-- How state is modelled. Trie nodes and blob handles are mutable and shared in the source, so they
-- live on a heap (Exact/Types) and are named by numbers in the order of their creation; an operation
-- takes the heap and returns it. The callbacks of `put_async` are the handles that they publish: a
-- store returns those that it runs before the call ends, and the others run later, between
-- operations. A `Queue.put` that blocks runs the worker until there is room. The service's state is a record with the queue, the counter and the events; what its
-- strategies and their backends keep is one type parameter. Threads interleave by a step relation
-- with a step for each stretch that a lock or the queue makes atomic.
--
-- Bounds and fuel. Parents are older than their children, so the number of a node bounds the length
-- of its path: `window_path` runs its two loops on one round more than that. The loop of
-- `calibrate_break_even_k` runs on the number of lengths that are left, the digits of a number on
-- the number itself; all else is structural.
-- `to_le` writes 8 bytes, as the source does; a part of 2^64 bytes or more, which the source rejects
-- with an exception, is excluded by hypothesis where a theorem needs it.
--
-- Parameters. SHA-256 is a function on byte strings; where a theorem needs it, it does not collide.
-- A tensor store is a record of calls that may raise; where a theorem reads tensors back, it keeps
-- what was put under a key and leaves the other keys alone.
-- The faiss library is a record of functions on an index, with the vector under an id as its law;
-- an add raises where the vector's length is not the index's dimension. The engine's window is the
-- calls that it has answered and whether the next one raises.
-- `canonical_json_bytes` of a configuration is an argument. Floats that the source only compares or
-- adds (scores, times, sizes) are whole numbers of one unit. Serialization by torch is a pair of
-- functions; where a theorem needs it, the second undoes the first.
--
-- Not modelled: the Qdrant store, encoders and rerankers, the Fluxon client, the adapters and
-- engine hooks (clients of external libraries), the audit logs and logging (output), the
-- construction from a configuration (glue); the trie's snapshots, the shutdown of the approximate
-- strategy's backends, the metadata's plan of evictions, and the parsing of its files.
mod Prelude
pub mod Dict
pub mod Keys
pub mod Exact
pub mod Stores
pub mod Service
pub mod Vectors
pub mod Approx
pub mod Metadata
pub mod Tests
