-- ===== src/Stores/LocalFile/Agreement.antt =====
-- stores/local_file.py against stores/memory.py.
use cache_seek.Prelude.{◌≡◌, Bytes, Text, bytes_eq, arith}
use cache_seek.Dict.{get-put, get-pop}
use cache_seek.Keys.Chain.{NoCollision}
use cache_seek.Stores.Memory.{InMemoryKvStore, memory_get, memory_put, memory_remove}
use cache_seek.Stores.LocalFile.{LocalFileKvStore, put, get, remove}
use cache_seek.Stores.LocalFile.Refines.{
  IsIndexed, get-put_file, get-remove_file, put-IsIndexed, remove-IsIndexed,
}

module _ (digest : Bytes → Bytes) where
  -- Every key reads the same in both, and the file store is in order.
  pub record Agree (s : LocalFileKvStore) (m : InMemoryKvStore) : Type 0 where
    pub indexed : IsIndexed digest s
    pub reads : (key : Text) → get s key ≡ memory_get m key

  -- If SHA-256 does not collide, a file store and an in-memory store that read the same under every
  -- key still do after the same `put` or the same `remove` on both.
  pub put_and_remove-Agree :
      (s : LocalFileKvStore) (m : InMemoryKvStore) (key : Text) (value : Bytes)
      → NoCollision digest
      → Agree s m
      → Agree (put digest s key value) (memory_put m key value)
        × Agree (remove s key) (memory_remove m key)
  unfolding memory_get memory_put memory_remove
  put_and_remove-Agree s m key value nc a = (
    record {
      indexed = put-IsIndexed digest s key value a.indexed;
      reads = λ other. ground (
        arith,
        get-put_file digest s key other value nc a.indexed,
        a.reads other,
        get-put m.store key other value,
      );
    },
    record {
      indexed = remove-IsIndexed digest s key a.indexed;
      reads = λ other. ground (
        arith,
        get-remove_file digest s key other nc a.indexed,
        a.reads other,
        get-pop m.store key other,
      );
    },
  )
