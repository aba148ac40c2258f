-- ===== src/Exact/Ingest/Evict.antt =====
-- `evict_blob` of reuse/exact_prefix/manager.py and the lookups after it.
use cache_seek.Prelude.{
  ◌↔◌, ◌&&◌, ◌<◌, ◌≤◌, ◌≡◌, ◌≢◌, true, false, none, some, List, ◌∷◌, ◌++◌, Bytes, bytes_eq, length,
  arith, inl, inr, if◌then◌else◌, Option-cases, nat_eq,
}
use cache_seek.Dict
use cache_seek.Exact.Types.{ActionKey, action_eq, Heap, NodeRef, has_kv}
use cache_seek.Exact.Trie.{Namespace, NamespaceForest, ready_child, lookup}
use cache_seek.Exact.Trie.Lookup.{walk}
use cache_seek.Exact.Trie.Extend.{walk_keep, descend_stop}
use cache_seek.Exact.WellFormed.{IsWellFormed}
use cache_seek.Exact.Path.{walk-key}
use cache_seek.Exact.Ingest.{evict_blob}
use cache_seek.Exact.Ingest.Visible.{IsWellFormed-IsOrdered}
use cache_seek.Stores.Tier.{KvTierStore}

module _ {S P L : Type 0} (store : KvTierStore S P L) (s : S) (h : Heap) (n : NodeRef) where
  abbrev pub Evictable : Type 0
  Evictable = ((h.node n).blob ≢ none) × ((h.node n).pinned ≡ false) × ((h.node n).ref_count ≡ 0)

  -- `evict_blob` drops the blob exactly if there is one and the node is neither pinned nor in use;
  -- otherwise it changes nothing.
  pub evict_blob_iff :
      (((evict_blob store s h n).2 ≡ true) ↔ Evictable)
      × (((evict_blob store s h n).2 ≡ false) ↔ (evict_blob store s h n ≡ (h, s, false)))
  unfolding evict_blob
  evict_blob_iff = elim (Option-cases (h.node n).blob) [
    | inl e ↦ ground arith
    | inr (b, e) ↦ ground arith
  ]

  -- After `evict_blob` the node is without blob if it was dropped, and is otherwise as it was;
  -- every other node and every blob handle is as before.
  pub evict_blob-rest :
      (m : NodeRef)
      → ((evict_blob store s h n).0.node m ≡ (
          if nat_eq n m && (evict_blob store s h n).2
          then record (h.node m) { blob = none }
          else h.node m))
        × ((evict_blob store s h n).0.blob ≡ h.blob)
  unfolding evict_blob
  evict_blob-rest m = ground arith

module _ (digest : Bytes → Bytes) (action_bytes : ActionKey → Bytes) (f : NamespaceForest)
    (w : IsWellFormed digest action_bytes f) (root_hash : Bytes) (ns : Namespace)
    (actions : List ActionKey) (p n : NodeRef) (a : ActionKey)
    (known : Dict.get f.namespaces root_hash ≡ some ns)
    (at_p : walk f.heap ns.root actions ≡ some p) (next : ready_child f.heap p a ≡ some n) where
  module _ {S P L : Type 0} (store : KvTierStore S P L) (s : S)
      (done : (evict_blob store s f.heap n).2 ≡ true) where
    p_inside : p < f.next
    p_inside =
        (walk-key digest action_bytes f w ns.root p actions (w.root root_hash ns known).allocated
          at_p).0

    abbrev left : Heap
    left = (evict_blob store s f.heap n).0

    p_older : p < n
    p_older = (IsWellFormed-IsOrdered digest action_bytes f w p a n p_inside next).0

    evicted : ready_child left p a ≡ none
    unfolding ready_child has_kv
    evicted =
        ground (arith, done, evict_blob-rest store s f.heap n p, evict_blob-rest store s f.heap n n)

    evict_keep :
        (m : NodeRef) (b : ActionKey) (c : NodeRef)
        → m < f.next
        → c ≤ p
        → ready_child f.heap m b ≡ some c
        → ready_child left m b ≡ some c
    unfolding ready_child has_kv
    evict_keep m b c lt le r =
        ground
          (arith, p_older, evict_blob-rest store s f.heap n m, evict_blob-rest store s f.heap n c)

    walk-left : walk left ns.root actions ≡ some p
    walk-left =
        walk_keep f.heap left (IsWellFormed-IsOrdered digest action_bytes f w) ns.root p actions
          evict_keep (w.root root_hash ns known).allocated at_p

  -- In a well-formed forest, after the eviction of a node on a path of ready nodes, a lookup
  -- through it returns its parent.
  pub lookup-evict_blob :
      {S P L : Type 0} (store : KvTierStore S P L) (s : S) (rest : List ActionKey)
      → (evict_blob store s f.heap n).2 ≡ true
      → ((lookup
            (record f { heap = (evict_blob store s f.heap n).0 })
            root_hash
            (actions ++ a ∷ rest)).matched_len
          ≡ length actions)
        × ((lookup
              (record f { heap = (evict_blob store s f.heap n).0 })
              root_hash
              (actions ++ a ∷ rest)).node
            ≡ some p)
  unfolding lookup
  lookup-evict_blob store s rest done = ground (
    arith,
    known,
    descend_stop (left store s done) ns.root p 0 actions a rest (walk-left store s done)
        (evicted store s done),
  )
