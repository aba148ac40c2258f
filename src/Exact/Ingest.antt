-- ===== src/Exact/Ingest.antt =====
-- The write path and the eviction of reuse/exact_prefix/manager.py.
pub mod Visible
pub mod Sync
pub mod Evict
pub mod Invariant
use cache_seek.Prelude.{
  ℕ, zero, suc, ◌+◌, ◌-◌, ◌/◌, ◌%◌, Bool, true, false, ◌||◌, Option, none, some, List, [], ◌∷◌,
  ◌++◌, Bytes, Text, codes, length, ltb, if◌then◌else◌,
}
use cache_seek.Prelude.Int.{ℤ, int_ltb}
use cache_seek.Exact.Types.{ActionKey, BlobHandle, TrieNode, Heap, NodeRef, BlobRef, update}
use cache_seek.Exact.Config.{WorldKvConfig}
use cache_seek.Exact.Trie.{NamespaceForest, commit}
use cache_seek.Stores.Tier.{KvTierStore}

-- `bytes.hex()`
unfoldable pub hex_digit : ℕ → ℕ
hex_digit d = if ltb d 10 then 48 + d else 87 + d

unfoldable pub hex : Bytes → Text
unfolding hex_digit
hex [] = []
hex (b ∷ bs) = hex_digit (b / 16) ∷ hex_digit (b % 16) ∷ hex bs

-- Assignments to a node's fields.
abbrev pub set_node : Heap → NodeRef → TrieNode → Heap
set_node h n node = record h { node = update h.node n node }

-- `_publish`, for each handle: `handle.ready = True`.
unfoldable pub publish : List BlobRef → Heap → Heap
publish [] h = h
publish (b ∷ bs) h =
    publish bs (record h { blob = update h.blob b (record (h.blob b) { ready = true }) })

-- What `ingest` does to the forest before the store's write: the node, and its new blob handle,
-- which is not ready.
unfoldable pub stage :
    WorldKvConfig
    → NamespaceForest
    → NodeRef
    → ActionKey
    → Bytes
    → ℤ
    → ℕ
    → ℕ
    → NamespaceForest × NodeRef
stage cfg f parent action node_key depth nbytes n_layers =
    let (f1, c) = commit f parent action node_key depth in
    let h1 = f1.heap in
    let loc = hex node_key in
    let handle : BlobHandle = record {
      tier = cfg.commit_tier;
      locator = loc ++ codes ":kv";
      nbytes = nbytes;
      n_layers = n_layers;
      ready = false;
    } in
    let node = record (h1.node c) {
      pinned = if int_ltb depth cfg.sink_chunks then true else (h1.node c).pinned;
      skeleton = some (loc ++ codes ":lat");
      blob = some h1.next_blob;
    } in
    (
      record f1 {
        heap = record {
          node = update h1.node c node;
          next = h1.next;
          blob = update h1.blob h1.next_blob handle;
          next_blob = suc h1.next_blob;
        };
      },
      c,
    )

module _ {S P L : Type 0} (store : KvTierStore S P L) where
  -- The forest, the store, and the node.
  unfoldable pub ingest :
      WorldKvConfig
      → S
      → NamespaceForest
      → NodeRef
      → ActionKey
      → Bytes
      → ℤ
      → List P
      → L
      → ℕ
      → Option ℕ
      → NamespaceForest × S × NodeRef
  ingest cfg s f parent action node_key depth kv_payload latent nbytes n_layers =
      let layers : ℕ = elim n_layers [ none ↦ length kv_payload | some k ↦ k ] in
      let (f2, c) = stage cfg f parent action node_key depth nbytes layers in
      let s1 = store.put_skeleton s (hex node_key ++ codes ":lat") latent in
      let (s2, callbacks) =
        store.put_async s1 (hex node_key ++ codes ":kv") kv_payload f.next_blob in
      (record f2 { heap = publish callbacks f2.heap }, s2, c)

  -- The heap, the store, and whether the blob was dropped.
  unfoldable pub evict_blob : S → Heap → NodeRef → Heap × S × Bool
  evict_blob s h n = elim (h.node n).blob [
    | none ↦ (h, s, false)
    | some b ↦
        if (h.node n).pinned || ltb 0 (h.node n).ref_count
        then (h, s, false)
        else (set_node h n (record (h.node n) { blob = none }), store.free s (h.blob b), true)
  ]
