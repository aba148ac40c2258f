-- ===== src/Stores/Tier.antt =====
-- The `KVTierStore` protocol of reuse/exact_prefix/manager.py.
use cache_seek.Prelude.{ℕ, Option, List, Text}
use cache_seek.Exact.Types.{BlobHandle, BlobRef}

-- `S` is the store's state, `P` the payload of one layer, `L` a skeleton latent. The callback
-- `on_ready` of `put_async` is the handle that it publishes; the callbacks that run before the
-- call returns come back beside the new state. A failing read, an exception, is `none`.
pub record KvTierStore (S P L : Type 0) : Type 0 where
  pub put_async : S → Text → List P → BlobRef → S × List BlobRef
  pub get_layer : S → BlobHandle → ℕ → Option P
  pub put_skeleton : S → Text → L → S
  pub free : S → BlobHandle → S
