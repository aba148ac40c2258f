-- ===== src/Exact/Trie/Commit.antt =====
-- `commit` of reuse/exact_prefix/trie.py, repeated, and the lookups after it.
use cache_seek.Prelude.{
  ℕ, ◌<◌, ◌+◌, ◌≡◌, refl, some, List, [], ◌∷◌, Bytes, bytes_eq, arith, inl, inr, Option-cases,
}
use cache_seek.Prelude.Int.{ℤ}
use cache_seek.Dict
use cache_seek.Dict.{get-put, get-put_self}
use cache_seek.Exact.Types.{ActionKey, action_eq, action_beq_iff, Heap, NodeRef, has_kv}
use cache_seek.Exact.Trie.{Namespace, NamespaceForest, ready_child, descend, lookup, commit}

pub commit_existing :
    (f : NamespaceForest) (parent c : NodeRef) (action : ActionKey) (key : Bytes) (depth : ℤ)
    → Dict.get (f.node parent).children action ≡ some c
    → commit f parent action key depth ≡ (f, c)
unfolding commit
commit_existing f parent c action key depth e = rw (e, commit)

pub commit_links :
    (f : NamespaceForest) (parent : NodeRef) (action : ActionKey) (key : Bytes) (depth : ℤ)
    → Dict.get ((commit f parent action key depth).0.node parent).children action
      ≡ some (commit f parent action key depth).1
unfolding commit
commit_links f parent action key depth =
    ground
      (arith, action_beq_iff action action, get-put (f.node parent).children action action f.next)

-- `commit` links the node that it returns under the action, and a later `commit` of the same
-- action under the same parent, whatever key and depth it brings, returns that node and changes
-- nothing.
pub commit-commit :
    (f : NamespaceForest) (parent : NodeRef) (action : ActionKey) (key key' : Bytes)
    (depth depth' : ℤ)
    → (Dict.get ((commit f parent action key depth).0.node parent).children action
        ≡ some (commit f parent action key depth).1)
      × (commit (commit f parent action key depth).0 parent action key' depth'
          ≡ commit f parent action key depth)
commit-commit f parent action key key' depth depth' =
    let e = commit_links f parent action key depth in
    (
      e,
      commit_existing (commit f parent action key depth).0 parent
          (commit f parent action key depth).1 action key' depth' e,
    )

pub namespaces-commit :
    (f : NamespaceForest) (parent : NodeRef) (action : ActionKey) (key : Bytes) (depth : ℤ)
    → (commit f parent action key depth).0.namespaces ≡ f.namespaces
unfolding commit
namespaces-commit f parent action key depth = ground arith

-- The children stay in the heap.
abbrev pub IsClosed : Heap → Type 0
IsClosed h =
    (n : NodeRef) (a : ActionKey) (c : NodeRef)
    → n < h.next
    → Dict.get (h.node n).children a ≡ some c
    → c < h.next

module _ (f : NamespaceForest) (parent : NodeRef) (action : ActionKey) (key : Bytes) (depth : ℤ)
    (closed : IsClosed f.heap) (inside : parent < f.next) where
  has_kv-commit :
      (n : NodeRef)
      → n < f.next
      → has_kv (commit f parent action key depth).0.heap n ≡ has_kv f.heap n
  unfolding commit has_kv
  has_kv-commit n lt = ground arith

  pub ready_child-commit :
      (n : NodeRef) (a : ActionKey)
      → n < f.next
      → ready_child (commit f parent action key depth).0.heap n a ≡ ready_child f.heap n a
  unfolding commit ready_child has_kv
  ready_child-commit n a lt = elim (Option-cases (Dict.get (f.node parent).children action)) [
    | inr (c, e) ↦ rw (e, commit) refl
    | inl e ↦ elim (Option-cases (Dict.get (f.node n).children a)) [
      | inl g ↦
          ground
            (arith, e, g, get-put (f.node parent).children action a f.next, action_beq_iff action a)
      | inr (c, g) ↦ ground (
        arith,
        e,
        g,
        closed n a c lt g,
        get-put (f.node parent).children action a f.next,
        action_beq_iff action a,
      )
    ]
  ]

  ready_child-lt :
      (n : NodeRef) (a : ActionKey) (c : NodeRef)
      → n < f.next
      → ready_child f.heap n a ≡ some c
      → c < f.next
  unfolding ready_child
  ready_child-lt n a c lt e = ground (arith, closed n a c lt)

  descend-commit :
      (n : NodeRef) (k : ℕ) (actions : List ActionKey)
      → n < f.next
      → descend (commit f parent action key depth).0.heap n k actions ≡ descend f.heap n k actions
  unfolding descend
  descend-commit n k [] lt = refl
  descend-commit n k (a ∷ rest) lt = elim (Option-cases (ready_child f.heap n a)) [
    | inl e ↦ ground (arith, ready_child-commit n a lt)
    | inr (c, e) ↦ ground (
      arith,
      ready_child-commit n a lt,
      descend-commit c (k + 1) rest (ready_child-lt n a c lt e),
    )
  ]

  -- In a forest whose children and roots are allocated, a `commit` under an allocated parent
  -- changes no lookup: the new node is not ready.
  pub lookup-commit :
      (root_hash : Bytes) (actions : List ActionKey)
      → ((ns : Namespace) → Dict.get f.namespaces root_hash ≡ some ns → ns.root < f.next)
      → lookup (commit f parent action key depth).0 root_hash actions ≡ lookup f root_hash actions
  unfolding lookup
  lookup-commit root_hash actions roots = elim (Option-cases (Dict.get f.namespaces root_hash)) [
    | inl e ↦ ground (arith, namespaces-commit f parent action key depth)
    | inr (ns, e) ↦ ground (
      arith,
      namespaces-commit f parent action key depth,
      descend-commit ns.root 0 actions (roots ns e),
    )
  ]
