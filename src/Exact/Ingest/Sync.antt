-- ===== src/Exact/Ingest/Sync.antt =====
-- `ingest` against the two kinds of store: one that publishes at once, and one that does it later.
use cache_seek.Prelude.{
  Text, ℕ, ◌+◌, ◌≡◌, refl, sym, ap, ◌∙◌, Option, none, some, List, [], ◌∷◌, ◌++◌, Bytes, bytes_eq,
  length, get_elem?, codes, arith,
}
use cache_seek.Prelude.Int.{ℤ}
use cache_seek.Dict
use cache_seek.Dict.{get-put_self}
use cache_seek.Exact.Types.{ActionKey, NodeRef}
use cache_seek.Exact.Config.{WorldKvConfig}
use cache_seek.Exact.Trie.{Namespace, NamespaceForest, lookup, commit}
use cache_seek.Exact.Trie.Lookup.{walk}
use cache_seek.Exact.WellFormed.{IsWellFormed, IsChained}
use cache_seek.Exact.Ingest.{stage, publish, ingest, hex}
use cache_seek.Exact.Ingest.Visible.{lookup-stage, lookup-publish}
use cache_seek.Stores.Tier.{KvTierStore}
use cache_seek.Stores.InMemory
use cache_seek.Stores.InMemory.{InMemoryTierStore}

module _ (digest : Bytes → Bytes) (action_bytes : ActionKey → Bytes) {P L : Type 0}
    (cfg : WorldKvConfig) (f : NamespaceForest) (root_hash : Bytes) (ns : Namespace)
    (actions : List ActionKey) (parent : NodeRef) (action : ActionKey) (key : Bytes) (depth : ℤ)
    (payload : List P) (latent : L) (nbytes : ℕ) (n_layers : Option ℕ)
    (w : IsWellFormed digest action_bytes f)
    (fits : IsChained digest action_bytes f parent action key depth)
    (known : Dict.get f.namespaces root_hash ≡ some ns)
    (at_parent : walk f.heap ns.root actions ≡ some parent) where
  abbrev layers : ℕ
  layers = elim n_layers [ none ↦ length payload | some k ↦ k ]

  abbrev waiting : NamespaceForest × NodeRef
  waiting = stage cfg f parent action key depth nbytes layers

  child : waiting.1 ≡ (commit f parent action key depth).1
  unfolding stage
  child = refl

  blob : ((publish (f.next_blob ∷ []) waiting.0.heap).node waiting.1).blob ≡ some f.next_blob
  unfolding stage publish commit
  blob = ground arith

  locator :
      ((publish (f.next_blob ∷ []) waiting.0.heap).blob f.next_blob).locator
      ≡ hex key ++ codes ":kv"
  unfolding stage publish commit
  locator = ground arith

  -- With the in-memory store, after the ingest, with the chained key and the next depth, of a chunk
  -- below the node at the end of a ready path of a well-formed forest, a lookup of the path and the
  -- chunk's action finds one chunk more, at the node that `ingest` returned; that node's blob reads
  -- back every layer of the payload.
  pub ingest-InMemory :
      (s : InMemoryTierStore P L)
      → let r =
          ingest InMemory.tier_store cfg s f parent action key depth payload latent nbytes
            n_layers in
        ((lookup r.0 root_hash (actions ++ action ∷ [])).matched_len ≡ length actions + 1)
        × ((lookup r.0 root_hash (actions ++ action ∷ [])).node ≡ some r.2)
        × ((r.0.node r.2).blob ≡ some f.next_blob)
        × ((l : ℕ) → InMemory.get_layer r.1 (r.0.blob f.next_blob) l ≡ get_elem? payload l)
  unfolding ingest InMemory.put_async
  ingest-InMemory s =
      let seen =
        lookup-publish digest action_bytes cfg f parent action key depth nbytes layers w fits
          root_hash ns actions known at_parent
          (ingest InMemory.tier_store cfg s f parent action key depth payload latent nbytes
            n_layers).0
          refl refl in
      (
        seen.0,
        seen.1 ∙ ap some (sym child),
        blob,
        λ l.
            InMemory.get_layer-put_async (InMemory.put_skeleton s (hex key ++ codes ":lat") latent)
              (hex key ++ codes ":kv") payload f.next_blob
              ((publish (f.next_blob ∷ []) waiting.0.heap).blob f.next_blob) l locator,
      )

  -- With a store whose `put_async` runs no callback itself, after such an ingest, also of a chunk
  -- that was published before, a lookup through the chunk stops at its parent; once its handle is
  -- published, a lookup finds the chunk.
  pub ingest_pending :
      {S : Type 0} (store : KvTierStore S P L) (s : S) (rest : List ActionKey)
      → ((s' : S) (loc : Text) → (store.put_async s' loc payload f.next_blob).1 ≡ [])
      → let g = (ingest store cfg s f parent action key depth payload latent nbytes n_layers).0 in
        ((lookup g root_hash (actions ++ action ∷ rest)).matched_len ≡ length actions)
        × ((lookup
              (record g { heap = publish (f.next_blob ∷ []) g.heap })
              root_hash
              (actions ++ action ∷ [])).matched_len
            ≡ length actions + 1)
  unfolding ingest publish
  ingest_pending store s rest later =
      let s1 = store.put_skeleton s (hex key ++ codes ":lat") latent in
      let e = later s1 (hex key ++ codes ":kv") in
      let g = (ingest store cfg s f parent action key depth payload latent nbytes n_layers).0 in
      (
        ap
              (λ calls.
                (lookup (record waiting.0 { heap = publish calls waiting.0.heap }) root_hash
                  (actions ++ action ∷ rest)).matched_len)
              e
            ∙ lookup-stage digest action_bytes cfg f parent action key depth nbytes layers w fits
                root_hash ns actions known at_parent rest,
        (lookup-publish digest action_bytes cfg f parent action key depth nbytes layers w fits
            root_hash ns actions known at_parent
            (record g { heap = publish (f.next_blob ∷ []) g.heap })
            (ap (λ calls. publish (f.next_blob ∷ []) (publish calls waiting.0.heap)) e) refl).0,
      )
