-- ===== src/Approx/Backends/Memory.antt =====
-- `InMemoryKVStore` of stores/memory.py as the KV store of the approximate strategy.
use cache_seek.Prelude.{◌≡◌, true, some, bytes_eq, arith}
use cache_seek.Dict.{get-put, get-pop}
use cache_seek.Stores.Memory.{InMemoryKvStore, memory_get, memory_put, memory_remove}
use cache_seek.Approx.Backends.{KvStore}
use cache_seek.Approx.Backends.Laws.{KvLaws}

abbrev pub memory_kv_store : KvStore InMemoryKvStore
memory_kv_store = record {
  kv_get = λ s key. some (memory_get s key);
  kv_put = λ s key value. (memory_put s key value, true);
  kv_remove = λ s key. (memory_remove s key, true);
}

answer_is : {A : Type 0} (x y : A) → some x ≡ some y → x ≡ y
answer_is x y h = ground (arith, h)

-- The store fulfils what `save` relies on.
pub memory_kv_store-KvLaws : KvLaws memory_kv_store
unfolding memory_get memory_put memory_remove
memory_kv_store-KvLaws = record {
  kv_at = memory_get;
  at_put = λ s k b j. get-put s.store k j b;
  at_remove = λ s k j. get-pop s.store k j;
  at_get = λ s k o h. answer_is (memory_get s k) o h;
}
