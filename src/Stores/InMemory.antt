-- ===== src/Stores/InMemory.antt =====
-- `InMemoryTierStore` of stores/tier.py: a `KVTierStore` over two dicts.
use cache_seek.Prelude.{◌≡◌, arith, ℕ, Option, none, some, List, [], ◌∷◌, Text, bytes_eq, get_elem?}
use cache_seek.Dict
use cache_seek.Dict.{Dict, get-put_self}
use cache_seek.Exact.Types.{BlobHandle, BlobRef}
use cache_seek.Stores.Tier.{KvTierStore}

pub record InMemoryTierStore (P L : Type 0) : Type 0 where
  pub blobs : Dict Text (List P)
  pub skeletons : Dict Text L

module _ {P L : Type 0} where
  unfoldable pub put_async :
      InMemoryTierStore P L → Text → List P → BlobRef → InMemoryTierStore P L × List BlobRef
  put_async s locator payload on_ready =
      (record s { blobs = Dict.put s.blobs locator payload }, on_ready ∷ [])

  unfoldable pub get_layer : InMemoryTierStore P L → BlobHandle → ℕ → Option P
  get_layer s handle layer = elim (Dict.get s.blobs handle.locator) [
    | none ↦ none
    | some payload ↦ get_elem? payload layer
  ]

  unfoldable pub put_skeleton : InMemoryTierStore P L → Text → L → InMemoryTierStore P L
  put_skeleton s locator latent = record s { skeletons = Dict.put s.skeletons locator latent }

  unfoldable pub get_skeleton : InMemoryTierStore P L → Text → Option L
  get_skeleton s locator = Dict.get s.skeletons locator

  unfoldable pub free : InMemoryTierStore P L → BlobHandle → InMemoryTierStore P L
  free s handle = record s { blobs = Dict.pop s.blobs handle.locator }

  abbrev pub tier_store : KvTierStore (InMemoryTierStore P L) P L
  tier_store = record {
    put_async = put_async;
    get_layer = get_layer;
    put_skeleton = put_skeleton;
    free = free;
  }

  -- A blob that was put is read back layer by layer, through any handle with its locator.
  pub get_layer-put_async :
      (s : InMemoryTierStore P L) (locator : Text) (payload : List P) (on_ready : BlobRef)
      (handle : BlobHandle) (l : ℕ)
      → handle.locator ≡ locator
      → get_layer (put_async s locator payload on_ready).0 handle l ≡ get_elem? payload l
  unfolding get_layer put_async
  get_layer-put_async s locator payload on_ready handle l e =
      ground (arith, e, get-put_self s.blobs locator payload)
