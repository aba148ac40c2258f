-- ===== src/Exact/WellFormed.antt =====
-- The invariant of the forest of reuse/exact_prefix/trie.py: every trie is a tree whose nodes carry
-- the chained key, the depth and the parent of their place.
use cache_seek.Prelude.{◌<◌, ◌≡◌, none, some, Bytes, bytes_eq, arith, inl, inr, Option-cases}
use cache_seek.Prelude.Int.{ℤ, negsuc, next_int}
use cache_seek.Dict
use cache_seek.Dict.{get-put}
use cache_seek.Keys.{node_key}
use cache_seek.Exact.Types.{ActionKey, action_eq, action_beq_iff, Heap, NodeRef, BlobRef}
use cache_seek.Exact.Trie.{
  Namespace, NamespaceForest, empty_forest, get_or_create_namespace, commit,
}
use cache_seek.Exact.Trie.Commit.{commit_existing}

module _ (digest : Bytes → Bytes) (action_bytes : ActionKey → Bytes) where
  -- `c` is the child of `n` by the action `a`.
  pub record IsChild (h : Heap) (n : NodeRef) (a : ActionKey) (c : NodeRef) : Type 0 where
    pub later : n < c
    pub allocated : c < h.next
    pub parent : (h.node c).parent ≡ some n
    pub action : (h.node c).action ≡ a
    pub depth : (h.node c).depth ≡ next_int (h.node n).depth
    pub key : (h.node c).node_key ≡ node_key digest (h.node n).node_key (action_bytes a)

  pub record IsRoot (h : Heap) (root_hash : Bytes) (n : NodeRef) : Type 0 where
    pub allocated : n < h.next
    pub parent : (h.node n).parent ≡ none
    pub depth : (h.node n).depth ≡ negsuc 0
    pub key : (h.node n).node_key ≡ root_hash

  pub record IsWellFormed (f : NamespaceForest) : Type 0 where
    pub child :
        (n : NodeRef) (a : ActionKey) (c : NodeRef)
        → n < f.next
        → Dict.get (f.node n).children a ≡ some c
        → IsChild f.heap n a c
    pub root :
        (r : Bytes) (ns : Namespace) → Dict.get f.namespaces r ≡ some ns → IsRoot f.heap r ns.root
    pub handle :
        (n : NodeRef) (b : BlobRef) → n < f.next → (f.node n).blob ≡ some b → b < f.next_blob

  pub IsWellFormed-empty_forest : IsWellFormed empty_forest
  unfolding Dict.get
  IsWellFormed-empty_forest = record {
    child = λ n a c lt e. absurd (omega arith);
    root = λ r ns e. cc;
    handle = λ n b lt e. absurd (omega arith);
  }

  -- The arguments that `ingest` and `load_snapshot` give to `commit`.
  pub record IsChained (f : NamespaceForest) (parent : NodeRef) (action : ActionKey) (key : Bytes)
      (depth : ℤ) : Type 0 where
    pub parent_allocated : parent < f.next
    pub depth_next : depth ≡ next_int (f.node parent).depth
    pub key_chained : key ≡ node_key digest (f.node parent).node_key (action_bytes action)

  module _ (f : NamespaceForest) (parent : NodeRef) (action : ActionKey) (key : Bytes) (depth : ℤ)
      (w : IsWellFormed f) (fits : IsChained f parent action key depth)
      (new : Dict.get (f.node parent).children action ≡ none) where
    commit-IsChild :
        (n : NodeRef) (a : ActionKey) (c : NodeRef)
        → n < (commit f parent action key depth).0.next
        → Dict.get ((commit f parent action key depth).0.node n).children a ≡ some c
        → IsChild (commit f parent action key depth).0.heap n a c
    unfolding commit Dict.get
    commit-IsChild n a c lt e = ground (
      arith,
      new,
      fits,
      get-put (f.node parent).children action a f.next,
      action_beq_iff action a,
      w.child n a c,
    )

    commit-root :
        (r : Bytes) (ns : Namespace)
        → Dict.get (commit f parent action key depth).0.namespaces r ≡ some ns
        → IsRoot (commit f parent action key depth).0.heap r ns.root
    unfolding commit
    commit-root r ns e = ground (arith, new, fits, w.root r ns)

    commit-handle :
        (n : NodeRef) (b : BlobRef)
        → n < (commit f parent action key depth).0.next
        → ((commit f parent action key depth).0.node n).blob ≡ some b
        → b < (commit f parent action key depth).0.next_blob
    unfolding commit
    commit-handle n b lt e = ground (arith, new, fits, w.handle n b)

  pub commit-IsWellFormed :
      (f : NamespaceForest) (parent : NodeRef) (action : ActionKey) (key : Bytes) (depth : ℤ)
      → IsWellFormed f
      → IsChained f parent action key depth
      → IsWellFormed (commit f parent action key depth).0
  commit-IsWellFormed f parent action key depth w fits =
      elim (Option-cases (Dict.get (f.node parent).children action)) [
        | inl e ↦ record {
          child = commit-IsChild f parent action key depth w fits e;
          root = commit-root f parent action key depth w fits e;
          handle = commit-handle f parent action key depth w fits e;
        }
        | inr (c, e) ↦ rw (commit_existing f parent c action key depth e) w
      ]

  module _ (f : NamespaceForest) (root_hash config_hash : Bytes) (w : IsWellFormed f)
      (new : Dict.get f.namespaces root_hash ≡ none) where
    create-IsChild :
        (n : NodeRef) (a : ActionKey) (c : NodeRef)
        → n < (get_or_create_namespace f root_hash config_hash).0.next
        → Dict.get ((get_or_create_namespace f root_hash config_hash).0.node n).children a ≡ some c
        → IsChild (get_or_create_namespace f root_hash config_hash).0.heap n a c
    unfolding get_or_create_namespace Dict.get
    create-IsChild n a c lt e = ground (arith, new, w.child n a c)

    create-root :
        (r : Bytes) (ns : Namespace)
        → Dict.get (get_or_create_namespace f root_hash config_hash).0.namespaces r ≡ some ns
        → IsRoot (get_or_create_namespace f root_hash config_hash).0.heap r ns.root
    unfolding get_or_create_namespace
    create-root r ns e = ground (
      arith,
      new,
      get-put f.namespaces root_hash r (get_or_create_namespace f root_hash config_hash).1,
      bytes_eq.same_iff root_hash r,
      w.root r ns,
    )

    create-handle :
        (n : NodeRef) (b : BlobRef)
        → n < (get_or_create_namespace f root_hash config_hash).0.next
        → ((get_or_create_namespace f root_hash config_hash).0.node n).blob ≡ some b
        → b < (get_or_create_namespace f root_hash config_hash).0.next_blob
    unfolding get_or_create_namespace
    create-handle n b lt e = ground (arith, new, w.handle n b)

  existing_namespace :
      (f : NamespaceForest) (root_hash config_hash : Bytes) (ns : Namespace)
      → Dict.get f.namespaces root_hash ≡ some ns
      → get_or_create_namespace f root_hash config_hash ≡ (f, ns)
  unfolding get_or_create_namespace
  existing_namespace f root_hash config_hash ns e = rw (e, get_or_create_namespace)

  pub get_or_create_namespace-IsWellFormed :
      (f : NamespaceForest) (root_hash config_hash : Bytes)
      → IsWellFormed f
      → IsWellFormed (get_or_create_namespace f root_hash config_hash).0
  get_or_create_namespace-IsWellFormed f root_hash config_hash w =
      elim (Option-cases (Dict.get f.namespaces root_hash)) [
        | inl e ↦ record {
          child = create-IsChild f root_hash config_hash w e;
          root = create-root f root_hash config_hash w e;
          handle = create-handle f root_hash config_hash w e;
        }
        | inr (ns, e) ↦ rw (existing_namespace f root_hash config_hash ns e) w
      ]
