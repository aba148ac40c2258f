-- ===== src/Stores/Memory.antt =====
-- stores/memory.py: `InMemoryKVStore`, a dict of byte strings.
use cache_seek.Prelude.{Option, List, Bytes, Text, bytes_eq, map}
use cache_seek.Dict
use cache_seek.Dict.{Dict}

pub record InMemoryKvStore : Type 0 where
  pub store : Dict Text Bytes

unfoldable pub memory_get : InMemoryKvStore → Text → Option Bytes
memory_get s key = Dict.get s.store key

unfoldable pub memory_put : InMemoryKvStore → Text → Bytes → InMemoryKvStore
memory_put s key value = record { store = Dict.put s.store key value }

unfoldable pub memory_remove : InMemoryKvStore → Text → InMemoryKvStore
memory_remove s key = record { store = Dict.pop s.store key }

unfoldable pub memory_list_keys : InMemoryKvStore → List Text
memory_list_keys s = map (λ entry. entry.0) s.store
