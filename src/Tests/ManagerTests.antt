-- ===== src/Tests/ManagerTests.antt =====
-- The theorems on materialization, eviction and the strategy, applied to the forest with two chunks.
use cache_seek.Prelude.{
  ℕ, zero, suc, ◌+◌, ◌*◌, ◌<◌, ◌≡◌, refl, ◌⊎◌, false, true, some, [], ◌∷◌, ◌++◌, bytes_eq, reverse,
  take, drop, arith,
}
use cache_seek.Prelude.Int.{pos}
use cache_seek.Dict
use cache_seek.Keys.{to_le, frame, sha256, root_hash, node_key}
use cache_seek.Exact.Types.{action_eq, has_kv}
use cache_seek.Exact.Trie.{get_or_create_namespace, commit, ready_child, descend, lookup}
use cache_seek.Exact.Trie.Lookup.{walk}
use cache_seek.Exact.Path.{Spine}
use cache_seek.Exact.Ingest.{hex, publish, stage, ingest, evict_blob}
use cache_seek.Exact.Ingest.Evict.{lookup-evict_blob}
use cache_seek.Exact.Manager.{
  returned, set_resume_depth, FastForwardResult, collect_recent, collect_sinks, window_path,
  any_missing_kv, acquire, release, touch, last_n_layers, gather_layer, seed_layers, materialize,
  try_fast_forward,
}
use cache_seek.Exact.Manager.Window.{sinks_of, window_path-Spine}
use cache_seek.Exact.Manager.Materialize.{OnlyTouched, materialize-OnlyTouched}
use cache_seek.Exact.Manager.Seeds.{Serves, seeds, materialize-seeds}
use cache_seek.Exact.Manager.FastForward.{Scratch, Resumes, try_fast_forward-cases}
use cache_seek.Exact.Strategy
use cache_seek.Exact.Strategy.Gate.{answer}
use cache_seek.Stores.InMemory
use cache_seek.Tests.{
  patient, world_root, left, right, small, two_chunks, space, bytes_of, echo,
  two_chunks-IsWellFormed,
}

-- Node n has the layers 10 n and 10 n + 1.
abbrev layer_of : ℕ → ℕ → ℕ
layer_of n l = n * 10 + l

reads_one :
    (l : ℕ) → l < 2 → InMemory.get_layer two_chunks.1 (two_chunks.0.blob 0) l ≡ some (10 + l)
unfolding get_or_create_namespace Dict.get Dict.put ingest stage commit publish InMemory.put_async
    InMemory.get_layer InMemory.put_skeleton hex node_key sha256 frame to_le root_hash
reads_one zero lt = refl
reads_one (suc zero) lt = refl
reads_one (suc (suc l)) lt = absurd (omega arith)

reads_two :
    (l : ℕ) → l < 2 → InMemory.get_layer two_chunks.1 (two_chunks.0.blob 1) l ≡ some (20 + l)
unfolding get_or_create_namespace Dict.get Dict.put ingest stage commit publish InMemory.put_async
    InMemory.get_layer InMemory.put_skeleton hex node_key sha256 frame to_le root_hash
reads_two zero lt = refl
reads_two (suc zero) lt = refl
reads_two (suc (suc l)) lt = absurd (omega arith)

Serves-one : Serves InMemory.tier_store two_chunks.1 layer_of two_chunks.0.heap 2 1
unfolding get_or_create_namespace Dict.get Dict.put ingest stage commit publish InMemory.put_async
Serves-one = record { blob = 0; held = refl; ready = refl; reads = reads_one }

Serves-two : Serves InMemory.tier_store two_chunks.1 layer_of two_chunks.0.heap 2 2
unfolding get_or_create_namespace Dict.get Dict.put ingest stage commit publish InMemory.put_async
Serves-two = record { blob = 1; held = refl; ready = refl; reads = reads_two }

path_two : window_path small two_chunks.0.heap 2 ≡ 1 ∷ 2 ∷ []
unfolding get_or_create_namespace Dict.get Dict.put ingest stage commit publish InMemory.put_async
    window_path collect_recent collect_sinks
path_two = refl

materialize-seeds_example :
    ((materialize InMemory.tier_store patient small two_chunks.1 99 two_chunks.0.heap 2).1
      ≡ seeds InMemory.tier_store two_chunks.1 layer_of two_chunks.0.heap (1 ∷ 2 ∷ []) (pos 1) 2 0
        ++ set_resume_depth (pos 1) ∷ [])
    × ((materialize InMemory.tier_store patient small two_chunks.1 99 two_chunks.0.heap 2).2
        ≡ returned true)
unfolding get_or_create_namespace Dict.get Dict.put ingest stage commit publish InMemory.put_async
    window_path collect_recent collect_sinks last_n_layers
materialize-seeds_example =
    materialize-seeds InMemory.tier_store two_chunks.1 layer_of patient small 99 two_chunks.0.heap 2
      (λ h. absurd (omega arith)) (Serves-one, (Serves-two, tt)) (refl, (refl, (refl, tt)))

materialize-OnlyTouched_example :
    OnlyTouched two_chunks.0.heap
      (materialize InMemory.tier_store patient small two_chunks.1 99 two_chunks.0.heap 2).0
materialize-OnlyTouched_example =
    materialize-OnlyTouched InMemory.tier_store patient small two_chunks.1 99 two_chunks.0.heap 2

abbrev forwarded : FastForwardResult
forwarded = record { start_chunk = 2; node = some 2; namespace = some space }

forward_two :
    (try_fast_forward InMemory.tier_store patient small two_chunks.1 99 two_chunks.0 world_root
      (left ∷ right ∷ [])).2
    ≡ returned forwarded
unfolding get_or_create_namespace Dict.get Dict.put ingest stage commit publish InMemory.put_async
    InMemory.get_layer InMemory.put_skeleton lookup descend ready_child has_kv root_hash sha256
    frame to_le node_key try_fast_forward materialize window_path collect_recent collect_sinks
    last_n_layers gather_layer seed_layers any_missing_kv acquire release touch hex
forward_two = refl

try_fast_forward-cases_example :
    Scratch InMemory.tier_store patient small two_chunks.1 99 two_chunks.0 world_root
      (left ∷ right ∷ [])
      forwarded
    ⊎ Resumes InMemory.tier_store patient small two_chunks.1 99 two_chunks.0 world_root
        (left ∷ right ∷ [])
        forwarded
try_fast_forward-cases_example =
    try_fast_forward-cases InMemory.tier_store patient small two_chunks.1 99 two_chunks.0 world_root
      (left ∷ right ∷ []) forwarded forward_two

missed :
    (answer ℕ ℕ InMemory.tier_store patient small two_chunks.1 99 two_chunks.0 world_root
      (right ∷ [])).hit
    ≡ false
unfolding get_or_create_namespace Dict.get Dict.put ingest stage commit publish InMemory.put_async
    lookup descend ready_child has_kv root_hash sha256 frame to_le node_key Strategy.lookup
    Strategy.gate
missed = refl

Spine-two : Spine two_chunks.0.heap 2 (2 ∷ 1 ∷ [])
unfolding get_or_create_namespace Dict.get Dict.put ingest stage commit publish InMemory.put_async
Spine-two =
    Spine.step {p = 1} (omega arith) refl refl
      (Spine.step {p = 0} (omega arith) refl refl (Spine.root refl refl))

window_path-Spine_example :
    window_path small two_chunks.0.heap 2
    ≡ reverse (sinks_of two_chunks.0.heap 1 (drop 2 (2 ∷ 1 ∷ []))) ++ reverse (take 2 (2 ∷ 1 ∷ []))
window_path-Spine_example = window_path-Spine small two_chunks.0.heap Spine-two

known_two : Dict.get two_chunks.0.namespaces world_root ≡ some space
unfolding get_or_create_namespace Dict.get Dict.put ingest stage commit publish InMemory.put_async
    root_hash sha256 frame to_le node_key
known_two = refl

at_one : walk two_chunks.0.heap 0 (left ∷ []) ≡ some 1
unfolding get_or_create_namespace Dict.get Dict.put ingest stage commit publish InMemory.put_async
    lookup descend ready_child has_kv root_hash sha256 frame to_le node_key walk
at_one = refl

next_two : ready_child two_chunks.0.heap 1 right ≡ some 2
unfolding get_or_create_namespace Dict.get Dict.put ingest stage commit publish InMemory.put_async
    lookup descend ready_child has_kv root_hash sha256 frame to_le node_key
next_two = refl

evicted_two : (evict_blob InMemory.tier_store two_chunks.1 two_chunks.0.heap 2).2 ≡ true
unfolding get_or_create_namespace Dict.get Dict.put ingest stage commit publish InMemory.put_async
    evict_blob
evicted_two = refl

lookup-evict_blob_example :
    ((lookup
        (record two_chunks.0 {
          heap = (evict_blob InMemory.tier_store two_chunks.1 two_chunks.0.heap 2).0;
        })
        world_root
        (left ∷ right ∷ [])).matched_len
      ≡ 1)
    × ((lookup
          (record two_chunks.0 {
            heap = (evict_blob InMemory.tier_store two_chunks.1 two_chunks.0.heap 2).0;
          })
          world_root
          (left ∷ right ∷ [])).node
        ≡ some 1)
lookup-evict_blob_example =
    lookup-evict_blob echo bytes_of two_chunks.0 two_chunks-IsWellFormed world_root space
      (left ∷ []) 1 2 right known_two at_one next_two InMemory.tier_store two_chunks.1 []
      evicted_two
