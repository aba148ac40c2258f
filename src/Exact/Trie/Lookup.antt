-- ===== src/Exact/Trie/Lookup.antt =====
-- `lookup` of reuse/exact_prefix/trie.py against paths of ready nodes.
use mathlib.Core.Path.{subst}
use cache_seek.Prelude.{
  true, ℕ, suc, ◌+◌, ◌-◌, ◌≤◌, ◌≡◌, refl, ◌⊎◌, Option, none, some, List, [], ◌∷◌, Bytes, bytes_eq,
  length, take, arith, inl, inr, Option-cases,
}
use cache_seek.Dict
use cache_seek.Exact.Types.{ActionKey, action_eq, Heap, NodeRef, BlobRef, has_kv}
use cache_seek.Exact.Trie.{Namespace, NamespaceForest, ready_child, descend, lookup}

-- The node at the end of a path of ready nodes, if the whole path is there.
unfoldable pub walk : Heap → NodeRef → List ActionKey → Option NodeRef
walk h n [] = some n
walk h n (a ∷ rest) = elim (ready_child h n a) [ none ↦ none | some c ↦ walk h c rest ]

no_some : (o : Option NodeRef) (c : NodeRef) → o ≡ none → ¬ (o ≡ some c)
no_some o c e h = ground (arith, e, h)

-- `m` ends the first `k` actions, and either no action is left or one more action has no path.
pub record Walked (h : Heap) (n : NodeRef) (actions : List ActionKey) (m : NodeRef) (k : ℕ)
    : Type 0 where
  pub bounded : k ≤ length actions
  pub found : walk h n (take k actions) ≡ some m
  pub maximal : (k ≡ length actions) ⊎ (walk h n (take (suc k) actions) ≡ none)

descend-Walked :
    (h : Heap) (n : NodeRef) (k : ℕ) (actions : List ActionKey) (m : NodeRef) (k' : ℕ)
    → descend h n k actions ≡ (m, k')
    → (k ≤ k') × Walked h n actions m (k' - k)
unfolding descend walk
descend-Walked h n k [] m k' d =
    let e : k' - k ≡ 0 = ground arith in
    (
      ground arith,
      rw e (record { bounded = omega arith; found = ground arith; maximal = inl refl }),
    )
descend-Walked h n k (a ∷ rest) m k' d = elim (Option-cases (ready_child h n a)) [
  | inl r ↦
      let e : k' - k ≡ 0 = ground arith in
      (
        ground arith,
        rw e (record { bounded = omega arith; found = ground arith; maximal = inr (ground arith) }),
      )
  | inr (c, r) ↦
      let (le, ih) = descend-Walked h c (k + 1) rest m k' (ground arith) in
      let e : k' - k ≡ suc (k' - (k + 1)) = omega arith in
      (
        omega arith,
        rw e (record {
          bounded = omega (arith, ih.bounded);
          found = ground (arith, ih.found);
          maximal = ground (arith, ih.maximal);
        }),
      )
]

pub lookup-Walked :
    (f : NamespaceForest) (root_hash : Bytes) (actions : List ActionKey) (ns : Namespace)
    → Dict.get f.namespaces root_hash ≡ some ns
    → (m : NodeRef) × ((lookup f root_hash actions).namespace ≡ some ns)
      × ((lookup f root_hash actions).node ≡ some m)
      × Walked f.heap ns.root actions m (lookup f root_hash actions).matched_len
unfolding lookup
lookup-Walked f root_hash actions ns e =
    let (m, k) = descend f.heap ns.root 0 actions in
    let (_, long) = descend-Walked f.heap ns.root 0 actions m k refl in
    let k0 : k - 0 ≡ k = omega arith in
    (m, ground arith, ground arith, rw (e, lookup) (rw k0 at long))

-- `c` is the child of `n` by the action `a`, and its blob is there and published.
pub record IsPublished (h : Heap) (n : NodeRef) (a : ActionKey) (c : NodeRef) : Type 0 where
  pub child : Dict.get (h.node n).children a ≡ some c
  pub action : (h.node c).action ≡ a
  pub blob : BlobRef
  pub held : (h.node c).blob ≡ some blob
  pub ready : (h.blob blob).ready ≡ true

-- A path of published nodes leads from `n` by the actions to `m`.
abbrev pub Leads : Heap → NodeRef → List ActionKey → NodeRef → Type 0
Leads h n [] m = n ≡ m
Leads h n (a ∷ rest) m = (c : NodeRef) × IsPublished h n a c × Leads h c rest m

-- The first `k` actions lead to `m`, and either no action is left or one more leads nowhere.
pub record Longest (h : Heap) (n : NodeRef) (actions : List ActionKey) (m : NodeRef) (k : ℕ)
    : Type 0 where
  pub bounded : k ≤ length actions
  pub leads : Leads h n (take k actions) m
  pub maximal : (k ≡ length actions) ⊎ (¬ ((c : NodeRef) × Leads h n (take (suc k) actions) c))

ready_child-IsPublished :
    (h : Heap) (n : NodeRef) (a : ActionKey) (c : NodeRef)
    → ready_child h n a ≡ some c
    → IsPublished h n a c
unfolding ready_child has_kv
ready_child-IsPublished h n a c r = elim (Option-cases (Dict.get (h.node n).children a)) [
  | inl e ↦ ground (arith, e, r)
  | inr (d, e) ↦ elim (Option-cases (h.node d).blob) [
    | inl none_held ↦ ground (arith, e, none_held, r)
    | inr (b, held) ↦
        let same : d ≡ c = ground (arith, e, held, r) in
        subst (IsPublished h n a) same (record {
          child = e;
          action = ground (arith, e, held, r, action_eq.same_iff (h.node d).action a);
          blob = b;
          held = held;
          ready = ground (arith, e, held, r);
        })
  ]
]

IsPublished-ready_child :
    (h : Heap) (n : NodeRef) (a : ActionKey) (c : NodeRef)
    → IsPublished h n a c
    → ready_child h n a ≡ some c
unfolding ready_child has_kv
IsPublished-ready_child h n a c p =
    ground (arith, p.child, p.action, p.held, p.ready, action_eq.same_iff (h.node c).action a)

walk-Leads :
    (h : Heap) (n : NodeRef) (actions : List ActionKey) (m : NodeRef)
    → walk h n actions ≡ some m
    → Leads h n actions m
unfolding walk
walk-Leads h n [] m e = ground (arith, e)
walk-Leads h n (a ∷ rest) m e = elim (Option-cases (ready_child h n a)) [
  | inl r ↦ ground (arith, r, e)
  | inr (c, r) ↦
      (c, ready_child-IsPublished h n a c r, walk-Leads h c rest m (ground (arith, r, e)))
]

Leads-walk :
    (h : Heap) (n : NodeRef) (actions : List ActionKey) (m : NodeRef)
    → Leads h n actions m
    → walk h n actions ≡ some m
unfolding walk
Leads-walk h n [] m e = ground (arith, e)
Leads-walk h n (a ∷ rest) m (c, p, l) =
    ground (arith, IsPublished-ready_child h n a c p, Leads-walk h c rest m l)

-- In a world that the forest knows, `lookup` returns the node to which the longest prefix of the
-- actions leads over nodes with a published blob, and the length of that prefix.
pub lookup-Longest :
    (f : NamespaceForest) (root_hash : Bytes) (actions : List ActionKey) (ns : Namespace)
    → Dict.get f.namespaces root_hash ≡ some ns
    → (m : NodeRef) × ((lookup f root_hash actions).namespace ≡ some ns)
      × ((lookup f root_hash actions).node ≡ some m)
      × Longest f.heap ns.root actions m (lookup f root_hash actions).matched_len
lookup-Longest f root_hash actions ns e =
    let (m, at, found, long) = lookup-Walked f root_hash actions ns e in
    let k = (lookup f root_hash actions).matched_len in
    (
      m,
      at,
      found,
      record {
        bounded = long.bounded;
        leads = walk-Leads f.heap ns.root (take k actions) m long.found;
        maximal = elim long.maximal [
          | inl all ↦ inl all
          | inr stop ↦ inr (λ (c, l).
              no_some (walk f.heap ns.root (take (suc k) actions)) c stop
                (Leads-walk f.heap ns.root (take (suc k) actions) c l))
        ];
      },
    )
