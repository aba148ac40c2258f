-- ===== src/Approx/Backends/Laws.antt =====
-- What reuse/approximate/strategy.py relies on: the contents of each store under its operations.
use cache_seek.Prelude.{◌≡◌, ◌&&◌, Option, none, some, Text, Bytes, bytes_eq, ◌==◌, if◌then◌else◌}
use cache_seek.Approx.Backends.{KvStore}

-- A call that raises leaves the contents.
pub record KvLaws {K : Type 0} (store : KvStore K) : Type 0 where
  pub kv_at : K → Text → Option Bytes
  pub at_put :
      (s : K) (k : Text) (b : Bytes) (j : Text)
      → kv_at (store.kv_put s k b).0 j
        ≡ (if (store.kv_put s k b).1 && (k == j) then some b else kv_at s j)
  pub at_remove :
      (s : K) (k j : Text)
      → kv_at (store.kv_remove s k).0 j
        ≡ (if (store.kv_remove s k).1 && (k == j) then none else kv_at s j)
  pub at_get : (s : K) (k : Text) (o : Option Bytes) → store.kv_get s k ≡ some o → kv_at s k ≡ o
