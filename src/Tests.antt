-- ===== src/Tests.antt =====
-- Concrete worlds, forests and stores for the tests: a forest with two published chunks.
mod ExactTests
mod ManagerTests
mod StoreTests
mod ServiceTests
mod MetadataTests
mod Backends
mod ApproxTests
mod LookupTests
mod VectorTests
mod TierTests
use cache_seek.Prelude.{
  ℕ, ◌<◌, ◌≡◌, refl, false, none, some, List, [], ◌∷◌, Bytes, bytes_eq, codes, arith,
}
use cache_seek.Prelude.Int.{ℤ, pos, negsuc}
use cache_seek.Dict
use cache_seek.Keys.{to_le, frame, sha256, root_hash, node_key}
use cache_seek.Keys.Chain.{World, root_of}
use cache_seek.Exact.Types.{ActionKey, code, name, action_eq, Tier, NodeRef}
use cache_seek.Exact.Config.{WorldKvConfig, Quant}
use cache_seek.Exact.Trie.{
  Namespace, NamespaceForest, empty_forest, get_or_create_namespace, commit,
}
use cache_seek.Exact.WellFormed.{
  IsWellFormed, IsWellFormed-empty_forest, IsChained, get_or_create_namespace-IsWellFormed,
}
use cache_seek.Exact.Manager.{RollingWindow}
use cache_seek.Exact.Ingest.{hex_digit, hex, publish, stage, ingest}
use cache_seek.Exact.Ingest.Invariant.{ingest-IsWellFormed}
use cache_seek.Stores.InMemory
use cache_seek.Stores.InMemory.{InMemoryTierStore}

-- A hash without collisions.
abbrev pub echo : Bytes → Bytes
echo b = b

abbrev pub bytes_of : ActionKey → Bytes
bytes_of (code (pos n)) = n ∷ []
bytes_of (code (negsuc n)) = 1 ∷ n ∷ []
bytes_of (name t) = t

abbrev pub world : World
world = (1 ∷ [], 2 ∷ [], 3 ∷ [])

abbrev pub world_root : Bytes
world_root = root_of echo world

abbrev pub left : ActionKey
left = code (pos 7)

abbrev pub right : ActionKey
right = name (codes "r")

abbrev pub small : WorldKvConfig
small = record {
  window_chunks = 2;
  sink_chunks = 1;
  break_even_k = 1;
  quant = Quant.none;
  group_size = 64;
  commit_tier = Tier.cpu;
}

abbrev pub no_blobs : InMemoryTierStore ℕ ℕ
no_blobs = record { blobs = []; skeletons = [] }

-- A window that answers every call.
abbrev pub patient : RollingWindow ℕ
patient = record { raises = λ before c. false }

abbrev pub planted : NamespaceForest
planted = (get_or_create_namespace empty_forest world_root (3 ∷ [])).0

abbrev pub space : Namespace
space = record { root_hash = world_root; config_blob_hash = 3 ∷ []; root = 0; pinned = false }

abbrev pub first_key : Bytes
first_key = node_key echo world_root (bytes_of left)

-- The root is node 0; the chunks of `left` and of `left, right` are nodes 1 and 2.
abbrev pub one_chunk : NamespaceForest × InMemoryTierStore ℕ ℕ × NodeRef
one_chunk =
    ingest InMemory.tier_store small no_blobs planted 0 left first_key (pos 0) (10 ∷ 11 ∷ []) 5 64
      none

abbrev pub second_key : Bytes
second_key = node_key echo first_key (bytes_of right)

abbrev pub two_chunks : NamespaceForest × InMemoryTierStore ℕ ℕ × NodeRef
two_chunks =
    ingest InMemory.tier_store small one_chunk.1 one_chunk.0 1 right second_key (pos 1)
      (20 ∷ 21 ∷ []) 6 64 none

pub planted-IsWellFormed : IsWellFormed echo bytes_of planted
planted-IsWellFormed =
    get_or_create_namespace-IsWellFormed echo bytes_of empty_forest world_root (3 ∷ [])
      (IsWellFormed-empty_forest echo bytes_of)

pub first-IsChained : IsChained echo bytes_of planted 0 left first_key (pos 0)
unfolding get_or_create_namespace Dict.get node_key
first-IsChained = record { parent_allocated = omega arith; depth_next = refl; key_chained = refl }

pub one_chunk-IsWellFormed : IsWellFormed echo bytes_of one_chunk.0
one_chunk-IsWellFormed =
    ingest-IsWellFormed echo bytes_of InMemory.tier_store small no_blobs planted 0 left first_key
      (pos 0) (10 ∷ 11 ∷ []) 5 64 none planted-IsWellFormed first-IsChained

pub second-IsChained : IsChained echo bytes_of one_chunk.0 1 right second_key (pos 1)
unfolding get_or_create_namespace Dict.get Dict.put ingest stage commit publish InMemory.put_async
    node_key
second-IsChained = record { parent_allocated = omega arith; depth_next = refl; key_chained = refl }

pub two_chunks-IsWellFormed : IsWellFormed echo bytes_of two_chunks.0
two_chunks-IsWellFormed =
    ingest-IsWellFormed echo bytes_of InMemory.tier_store small one_chunk.1 one_chunk.0 1 right
      second_key (pos 1) (20 ∷ 21 ∷ []) 6 64 none one_chunk-IsWellFormed second-IsChained
