-- ===== src/Tests/ExactTests.antt =====
-- The theorems on the trie and its manager, applied to the forest with two chunks.
use cache_seek.Prelude.{
  ℕ, ◌≤◌, ◌≡◌, refl, ◌↔◌, none, some, List, [], ◌∷◌, Bytes, bytes_eq, All, get_elem?, arith,
}
use cache_seek.Prelude.Int.{pos}
use cache_seek.Dict
use cache_seek.Keys.{to_le, frame, sha256, root_hash, node_key, build_action_chain}
use cache_seek.Keys.Chain.{WorldFits}
use cache_seek.Keys.Framing.{Fits}
use cache_seek.Keys.Chain.{root_of, build_action_chain-injective}
use cache_seek.Exact.Types.{action_eq, has_kv}
use cache_seek.Exact.Config.BreakEven.{Pays, calibrate_break_even_k_iff}
use cache_seek.Exact.Config.{calibrate_break_even_k}
use cache_seek.Exact.Trie.{
  NamespaceForest, get_or_create_namespace, commit, ready_child, descend, lookup, empty_forest,
}
use cache_seek.Exact.Trie.Lookup.{walk, Longest, lookup-Longest}
use cache_seek.Exact.Trie.Commit.{IsClosed}
use cache_seek.Exact.Reached.{Reached, lookup-Reached, lookup-no_false_hit, matched, chain_of}
use cache_seek.Exact.WellFormed.{IsWellFormed, IsWellFormed-empty_forest}
use cache_seek.Exact.Ingest.{publish, stage, ingest}
use cache_seek.Exact.Ingest.Sync.{ingest-InMemory, ingest_pending}
use cache_seek.Exact.Session.{Step, Reach, Reach-IsWellFormed}
use cache_seek.Stores.InMemory
use cache_seek.Stores.InMemory.{InMemoryTierStore}
use cache_seek.Stores.Tier.{KvTierStore}
use cache_seek.Tests.{
  patient, echo, bytes_of, world, world_root, left, right, small, no_blobs, planted, space,
  one_chunk, second_key, two_chunks, first_key, planted-IsWellFormed, first-IsChained,
  one_chunk-IsWellFormed, second-IsChained, two_chunks-IsWellFormed,
}

abbrev two_actions : List Bytes
two_actions = bytes_of left ∷ bytes_of right ∷ []

Fits-two : All Fits (root_of echo world ∷ build_action_chain echo (root_of echo world) two_actions)
unfolding root_hash sha256 frame to_le node_key build_action_chain
Fits-two = (omega arith, (omega arith, (omega arith, tt)))

-- What the forest with two chunks computes to.
found_two : (lookup two_chunks.0 world_root (left ∷ right ∷ [])).node ≡ some 2
unfolding get_or_create_namespace Dict.get Dict.put ingest stage commit publish InMemory.put_async
    lookup descend ready_child has_kv root_hash sha256 frame to_le node_key
found_two = refl

known_two : Dict.get two_chunks.0.namespaces world_root ≡ some space
unfolding get_or_create_namespace Dict.get Dict.put ingest stage commit publish InMemory.put_async
    lookup descend ready_child has_kv root_hash sha256 frame to_le node_key
known_two = refl

known_one : Dict.get one_chunk.0.namespaces world_root ≡ some space
unfolding get_or_create_namespace Dict.get Dict.put ingest stage commit publish InMemory.put_async
    lookup descend ready_child has_kv root_hash sha256 frame to_le node_key
known_one = refl

at_one : walk one_chunk.0.heap 0 (left ∷ []) ≡ some 1
unfolding get_or_create_namespace Dict.get Dict.put ingest stage commit publish InMemory.put_async
    lookup descend ready_child has_kv root_hash sha256 frame to_le node_key walk
at_one = refl

world-WorldFits : WorldFits world
world-WorldFits = (omega arith, (omega arith, (omega arith, tt)))

Fits-matched : All Fits (matched echo bytes_of two_chunks.0 world (left ∷ right ∷ []))
unfolding get_or_create_namespace Dict.get Dict.put ingest stage commit publish InMemory.put_async
    lookup descend ready_child has_kv root_hash sha256 frame to_le node_key
Fits-matched = (omega arith, (omega arith, tt))

Fits-chain : All Fits (chain_of echo bytes_of two_chunks.0 world (left ∷ right ∷ []))
unfolding get_or_create_namespace Dict.get Dict.put ingest stage commit publish InMemory.put_async
    lookup descend ready_child has_kv root_hash sha256 frame to_le node_key build_action_chain
Fits-chain = (omega arith, (omega arith, (omega arith, tt)))

lookup-no_false_hit_example :
    (world ≡ world)
    × (matched echo bytes_of two_chunks.0 world (left ∷ right ∷ [])
        ≡ matched echo bytes_of two_chunks.0 world (left ∷ right ∷ []))
lookup-no_false_hit_example =
    lookup-no_false_hit echo bytes_of two_chunks.0 two_chunks.0 world world (left ∷ right ∷ [])
      (left ∷ right ∷ []) 2 2 (λ x y h. h) two_chunks-IsWellFormed two_chunks-IsWellFormed found_two
      found_two refl world-WorldFits world-WorldFits Fits-matched Fits-matched Fits-chain Fits-chain

build_action_chain-injective_example : (world ≡ world) × (two_actions ≡ two_actions)
build_action_chain-injective_example =
    build_action_chain-injective echo (λ x y h. h) world world two_actions two_actions
      world-WorldFits world-WorldFits (omega arith, (omega arith, tt))
      (omega arith, (omega arith, tt)) Fits-two Fits-two refl

calibrate_break_even_k_iff_example : (calibrate_break_even_k 1 4 2 5 8 ≤ 3) ↔ Pays 1 4 2 5 3
calibrate_break_even_k_iff_example =
    calibrate_break_even_k_iff 1 4 2 5 8 3 (omega arith) (omega arith)

lookup-Longest_example :
    (m : ℕ) × ((lookup two_chunks.0 world_root (left ∷ right ∷ [])).namespace ≡ some space)
    × ((lookup two_chunks.0 world_root (left ∷ right ∷ [])).node ≡ some m)
    × Longest two_chunks.0.heap 0
        (left ∷ right ∷ [])
        m
        (lookup two_chunks.0 world_root (left ∷ right ∷ [])).matched_len
lookup-Longest_example = lookup-Longest two_chunks.0 world_root (left ∷ right ∷ []) space known_two

lookup-Reached_example :
    Reached echo bytes_of two_chunks.0 world_root
      (left ∷ right ∷ [])
      2
      (lookup two_chunks.0 world_root (left ∷ right ∷ [])).matched_len
lookup-Reached_example =
    lookup-Reached echo bytes_of two_chunks.0 world_root (left ∷ right ∷ []) 2
      two_chunks-IsWellFormed found_two

ingest-InMemory_example :
    ((lookup two_chunks.0 world_root (left ∷ right ∷ [])).matched_len ≡ 2)
    × ((lookup two_chunks.0 world_root (left ∷ right ∷ [])).node ≡ some two_chunks.2)
    × ((two_chunks.0.node two_chunks.2).blob ≡ some one_chunk.0.next_blob)
    × ((l : ℕ)
        → InMemory.get_layer two_chunks.1 (two_chunks.0.blob one_chunk.0.next_blob) l
          ≡ get_elem? (20 ∷ 21 ∷ []) l)
ingest-InMemory_example =
    ingest-InMemory echo bytes_of small one_chunk.0 world_root space (left ∷ []) 1 right second_key
      (pos 1) (20 ∷ 21 ∷ []) 6 64 none one_chunk-IsWellFormed second-IsChained known_one at_one
      one_chunk.1

-- A store that runs no callback inside `put_async`.
abbrev later_store : KvTierStore (InMemoryTierStore ℕ ℕ) ℕ ℕ
later_store = record InMemory.tier_store { put_async = λ s loc payload b. (s, []) }

abbrev pending : NamespaceForest
pending =
    (ingest later_store small one_chunk.1 one_chunk.0 1 right second_key (pos 1) (20 ∷ 21 ∷ []) 6 64
      none).0

ingest_pending_example :
    ((lookup pending world_root (left ∷ right ∷ left ∷ [])).matched_len ≡ 1)
    × ((lookup
          (record pending { heap = publish (one_chunk.0.next_blob ∷ []) pending.heap })
          world_root
          (left ∷ right ∷ [])).matched_len
        ≡ 2)
ingest_pending_example =
    ingest_pending echo bytes_of small one_chunk.0 world_root space (left ∷ []) 1 right second_key
      (pos 1) (20 ∷ 21 ∷ []) 6 64 none one_chunk-IsWellFormed second-IsChained known_one at_one
      later_store one_chunk.1 (left ∷ []) (λ s loc. refl)

-- The forest of the last step: a namespace, and a chunk.
Reach-IsWellFormed_example : IsWellFormed echo bytes_of one_chunk.0
Reach-IsWellFormed_example =
    Reach-IsWellFormed echo bytes_of InMemory.tier_store patient small
      (IsWellFormed-empty_forest echo bytes_of)
      (Reach.next (Reach.next Reach.here (Step.create empty_forest no_blobs world_root (3 ∷ []))) (
        Step.write planted no_blobs 0 left first_key (pos 0) (10 ∷ 11 ∷ []) 5 64 none
          first-IsChained one_chunk refl))

planted-IsClosed : IsClosed planted.heap
unfolding get_or_create_namespace Dict.get Dict.put
planted-IsClosed n a c lt e = (planted-IsWellFormed.child n a c lt e).allocated
