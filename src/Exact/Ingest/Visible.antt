-- ===== src/Exact/Ingest/Visible.antt =====
-- Lookups of reuse/exact_prefix/trie.py during an `ingest` of manager.py.
use cache_seek.Prelude.{
  ℕ, ◌+◌, ◌<◌, ◌≤◌, ◌≡◌, ◌∙◌, none, some, List, [], ◌∷◌, ◌++◌, Bytes, bytes_eq, length, arith, inl,
  inr, Option-cases,
}
use cache_seek.Prelude.Int.{ℤ}
use cache_seek.Dict
use cache_seek.Exact.Types.{ActionKey, action_eq, action_beq_iff, Heap, NodeRef, has_kv}
use cache_seek.Exact.Config.{WorldKvConfig}
use cache_seek.Exact.Trie.{Namespace, NamespaceForest, ready_child, lookup, commit}
use cache_seek.Exact.Trie.Lookup.{walk}
use cache_seek.Exact.Trie.Commit.{commit_links, ready_child-commit, namespaces-commit}
use cache_seek.Exact.Trie.Extend.{IsOrdered, walk_keep, descend_stop, descend_step}
use cache_seek.Exact.WellFormed.{IsChild, IsWellFormed, IsChained, commit-IsWellFormed}
use cache_seek.Exact.Ingest.{stage, publish}

module _ (digest : Bytes → Bytes) (action_bytes : ActionKey → Bytes) where
  pub IsWellFormed-IsOrdered :
      (f : NamespaceForest) → IsWellFormed digest action_bytes f → IsOrdered f.heap
  unfolding ready_child
  IsWellFormed-IsOrdered f w n a c lt e =
      let g : Dict.get (f.node n).children a ≡ some c = ground arith in
      let ch = w.child n a c lt g in (ch.later, ch.allocated)

  module _ (cfg : WorldKvConfig) (f : NamespaceForest) (parent : NodeRef) (action : ActionKey)
      (key : Bytes) (depth : ℤ) (nbytes n_layers : ℕ) (w : IsWellFormed digest action_bytes f)
      (fits : IsChained digest action_bytes f parent action key depth) where
    abbrev made : NamespaceForest
    made = (commit f parent action key depth).0

    abbrev child_ref : NodeRef
    child_ref = (commit f parent action key depth).1

    made-IsWellFormed : IsWellFormed digest action_bytes made
    made-IsWellFormed = commit-IsWellFormed digest action_bytes f parent action key depth w fits

    parent-made : (parent < made.next) × (made.next_blob ≡ f.next_blob)
    unfolding commit
    parent-made = ground (arith, fits.parent_allocated)

    made-IsChild : IsChild digest action_bytes made.heap parent action child_ref
    made-IsChild =
        made-IsWellFormed.child parent action child_ref parent-made.0
          (commit_links f parent action key depth)

    next-commit-le : f.next ≤ made.next
    unfolding commit
    next-commit-le = ground arith

    abbrev staged : Heap
    staged = (stage cfg f parent action key depth nbytes n_layers).0.heap

    abbrev published : Heap
    published = publish (f.next_blob ∷ []) staged

    walk-made :
        (n : NodeRef) (actions : List ActionKey)
        → n < f.next
        → walk f.heap n actions ≡ some parent
        → walk made.heap n actions ≡ some parent
    walk-made n actions lt e =
        walk_keep f.heap made.heap (IsWellFormed-IsOrdered f w) n parent actions
          (λ m a c lt' le r.
            ready_child-commit f parent action key depth
              (λ m' a' c' l g. (w.child m' a' c' l g).allocated) fits.parent_allocated m a lt'
            ∙ r)
          lt e

    staged_children : (m : NodeRef) → (staged.node m).children ≡ (made.node m).children
    unfolding stage
    staged_children m = ground arith

    -- A node other than the child is read as before, from both heaps.
    has_kv_below :
        (c : NodeRef)
        → c ≤ parent
        → ((staged.node c).action ≡ (made.node c).action)
          × (has_kv staged c ≡ has_kv made.heap c)
          × ((published.node c).action ≡ (made.node c).action)
          × (has_kv published c ≡ has_kv made.heap c)
    unfolding stage publish has_kv
    has_kv_below c le = elim (Option-cases (made.node c).blob) [
      | inl e ↦ ground (arith, made-IsChild.later)
      | inr (b, e) ↦ ground (arith, made-IsChild.later, parent-made, made-IsWellFormed.handle c b)
    ]

    published_children : (m : NodeRef) → (published.node m).children ≡ (made.node m).children
    unfolding stage publish
    published_children m = ground arith

    staged_keep :
        (m : NodeRef) (a : ActionKey) (c : NodeRef)
        → m < made.next
        → c ≤ parent
        → ready_child made.heap m a ≡ some c
        → ready_child staged m a ≡ some c
    unfolding ready_child
    staged_keep m a c lt le r = ground (arith, staged_children m, has_kv_below c le)

    published_keep :
        (m : NodeRef) (a : ActionKey) (c : NodeRef)
        → m < made.next
        → c ≤ parent
        → ready_child made.heap m a ≡ some c
        → ready_child published m a ≡ some c
    unfolding ready_child
    published_keep m a c lt le r = ground (arith, published_children m, has_kv_below c le)

    staged_child : ready_child staged parent action ≡ none
    unfolding ready_child has_kv stage
    staged_child = ground (arith, made-IsChild.later, commit_links f parent action key depth)

    published_child : ready_child published parent action ≡ some child_ref
    unfolding ready_child has_kv stage publish
    published_child = ground (
      arith,
      made-IsChild.later,
      made-IsChild.action,
      parent-made.1,
      commit_links f parent action key depth,
      action_beq_iff (made.node child_ref).action action,
    )

    walk-staged :
        (n : NodeRef) (actions : List ActionKey)
        → n < f.next
        → walk f.heap n actions ≡ some parent
        → (walk staged n actions ≡ some parent) × (walk published n actions ≡ some parent)
    walk-staged n actions lt e =
        let o = IsWellFormed-IsOrdered made made-IsWellFormed in
        let lt' : n < made.next = omega (arith, next-commit-le) in
        let e' = walk-made n actions lt e in
        (
          walk_keep made.heap staged o n parent actions staged_keep lt' e',
          walk_keep made.heap published o n parent actions published_keep lt' e',
        )

    module _ (root_hash : Bytes) (ns : Namespace) (actions : List ActionKey)
        (known : Dict.get f.namespaces root_hash ≡ some ns)
        (at_parent : walk f.heap ns.root actions ≡ some parent) where
      namespaces-stage :
          Dict.get (stage cfg f parent action key depth nbytes n_layers).0.namespaces root_hash
          ≡ some ns
      unfolding stage
      namespaces-stage = rw (namespaces-commit f parent action key depth) known

      root_allocated : ns.root < f.next
      root_allocated = (w.root root_hash ns known).allocated

      -- Between the staging of a chunk and its publication, a lookup that goes through the chunk
      -- stops above it, also where the chunk was published before.
      pub lookup-stage :
          (rest : List ActionKey)
          → (lookup
              (stage cfg f parent action key depth nbytes n_layers).0
              root_hash
              (actions ++ action ∷ rest)).matched_len
            ≡ length actions
      unfolding lookup
      lookup-stage rest = ground (
        arith,
        namespaces-stage,
        descend_stop staged ns.root parent 0 actions action rest
            (walk-staged ns.root actions root_allocated at_parent).0 staged_child,
      )

      pub lookup-publish :
          (g : NamespaceForest)
          → g.heap ≡ published
          → g.namespaces ≡ (stage cfg f parent action key depth nbytes n_layers).0.namespaces
          → ((lookup g root_hash (actions ++ action ∷ [])).matched_len ≡ length actions + 1)
            × ((lookup g root_hash (actions ++ action ∷ [])).node ≡ some child_ref)
      unfolding lookup
      lookup-publish g eh en = ground (
        arith,
        eh,
        en,
        namespaces-stage,
        descend_step published ns.root parent child_ref 0 actions action
            (walk-staged ns.root actions root_allocated at_parent).1 published_child,
      )
