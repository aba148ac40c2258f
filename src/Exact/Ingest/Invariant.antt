-- ===== src/Exact/Ingest/Invariant.antt =====
-- The invariant of the forest under the write path and under eviction.
use cache_seek.Prelude.{ℕ, ◌≡◌, refl, Option, List, [], ◌∷◌, Bytes, bytes_eq, arith}
use cache_seek.Prelude.Int.{ℤ}
use cache_seek.Exact.Types.{ActionKey, action_eq, Heap, NodeRef, BlobRef}
use cache_seek.Exact.Config.{WorldKvConfig}
use cache_seek.Exact.Trie.{NamespaceForest}
use cache_seek.Exact.WellFormed.{IsWellFormed, IsChained, commit-IsWellFormed}
use cache_seek.Exact.Ingest.{stage, publish, ingest, evict_blob}
use cache_seek.Stores.Tier.{KvTierStore}

publish_rest :
    (bs : List BlobRef) (h : Heap)
    → ((publish bs h).node ≡ h.node)
      × ((publish bs h).next ≡ h.next)
      × ((publish bs h).next_blob ≡ h.next_blob)
unfolding publish
publish_rest [] h = (refl, refl, refl)
publish_rest (b ∷ bs) h = publish_rest bs (record h { blob = λ j. (publish (b ∷ []) h).blob j })

module _ (digest : Bytes → Bytes) (action_bytes : ActionKey → Bytes) where
  pub publish-IsWellFormed :
      (bs : List BlobRef) (f : NamespaceForest)
      → IsWellFormed digest action_bytes f
      → IsWellFormed digest action_bytes (record f { heap = publish bs f.heap })
  publish-IsWellFormed bs f w =
      let (n, x, b) = publish_rest bs f.heap in
      record {
        child = λ m a c lt e.
            let v = w.child m a c (ground (arith, x)) (ground (arith, n)) in
            record {
              later = v.later;
              allocated = ground (arith, v, x);
              parent = ground (arith, v, n);
              action = ground (arith, v, n);
              depth = ground (arith, v, n);
              key = ground (arith, v, n);
            };
        root = λ r ns e.
            let v = w.root r ns e in
            record {
              allocated = ground (arith, v, x);
              parent = ground (arith, v, n);
              depth = ground (arith, v, n);
              key = ground (arith, v, n);
            };
        handle = λ m c lt e. ground (arith, w.handle m c, n, x, b);
      }

  stage-IsWellFormed :
      (cfg : WorldKvConfig) (f : NamespaceForest) (parent : NodeRef) (action : ActionKey)
      (key : Bytes) (depth : ℤ) (nbytes n_layers : ℕ)
      → IsWellFormed digest action_bytes f
      → IsChained digest action_bytes f parent action key depth
      → IsWellFormed digest action_bytes (stage cfg f parent action key depth nbytes n_layers).0
  unfolding stage
  stage-IsWellFormed cfg f parent action key depth nbytes n_layers w fits =
      let v = commit-IsWellFormed digest action_bytes f parent action key depth w fits in
      record {
        child = λ m a c lt e. ground (arith, v.child m a c);
        root = λ r ns e. ground (arith, v.root r ns);
        handle = λ m c lt e. ground (arith, v.handle m c);
      }

  -- An ingest below a node of the forest, with the chained key and the next depth, keeps the
  -- invariant, whatever callbacks the store runs.
  pub ingest-IsWellFormed :
      {S P L : Type 0} (store : KvTierStore S P L) (cfg : WorldKvConfig) (s : S)
      (f : NamespaceForest) (parent : NodeRef) (action : ActionKey) (key : Bytes) (depth : ℤ)
      (payload : List P) (latent : L) (nbytes : ℕ) (n_layers : Option ℕ)
      → IsWellFormed digest action_bytes f
      → IsChained digest action_bytes f parent action key depth
      → IsWellFormed digest action_bytes
          (ingest store cfg s f parent action key depth payload latent nbytes n_layers).0
  unfolding ingest
  ingest-IsWellFormed store cfg s f parent action key depth payload latent nbytes n_layers w fits =
      publish-IsWellFormed _ _ (stage-IsWellFormed cfg f parent action key depth nbytes _ w fits)

  -- An eviction keeps the invariant.
  pub evict_blob-IsWellFormed :
      {S P L : Type 0} (store : KvTierStore S P L) (s : S) (f : NamespaceForest) (n : NodeRef)
      → IsWellFormed digest action_bytes f
      → IsWellFormed digest action_bytes (record f { heap = (evict_blob store s f.heap n).0 })
  unfolding evict_blob
  evict_blob-IsWellFormed store s f n w = record {
    child = λ m a c lt e. ground (arith, w.child m a c);
    root = λ r ns e. ground (arith, w.root r ns);
    handle = λ m c lt e. ground (arith, w.handle m c);
  }
