-- ===== src/Exact/Path.antt =====
-- The paths of the tries of reuse/exact_prefix/trie.py: keys, depths and ancestors of their nodes.
use mathlib.Core.Path.{subst}
use cache_seek.Prelude.{
  ℕ, zero, suc, ◌+◌, ◌<◌, ◌≤◌, ◌≡◌, refl, ap, ◌∙◌, none, some, List, [], ◌∷◌, map, Bytes, length,
  arith, inl, inr, Option-cases,
}
use cache_seek.Prelude.Int.{ℤ, pos, negsuc, next_int}
use cache_seek.Keys.Chain.{path_key}
use cache_seek.Exact.Types.{ActionKey, action_eq, Heap, NodeRef}
use cache_seek.Exact.Trie.{NamespaceForest, ready_child}
use cache_seek.Exact.Trie.Lookup.{walk}
use cache_seek.Exact.WellFormed.{IsChild, IsWellFormed}

-- The depth of a node `k` actions below the virtual root.
abbrev pub depth_at : ℕ → ℤ
depth_at zero = negsuc 0
depth_at (suc k) = pos k

next_int-depth_at : (k : ℕ) → next_int (depth_at k) ≡ pos k
next_int-depth_at zero = refl
next_int-depth_at (suc k) = ground arith

-- The nodes from `n` up to, and without, the virtual root.
pub data Spine (h : Heap) : NodeRef → List NodeRef → Type 0 where
  root : {n : NodeRef} → (h.node n).parent ≡ none → (h.node n).depth ≡ negsuc 0 → Spine h n []
  step :
      {n p : NodeRef} {ps : List NodeRef}
      → p < n
      → (h.node n).parent ≡ some p
      → (h.node n).depth ≡ pos (length ps)
      → Spine h p ps
      → Spine h n (n ∷ ps)

pub length-Spine-le : {h : Heap} {n : NodeRef} {ps : List NodeRef} → Spine h n ps → length ps ≤ n
length-Spine-le (root e d) = omega arith
length-Spine-le (step lt e d s) = omega (arith, length-Spine-le s)

pub Spine-depth :
    {h : Heap} {n : NodeRef} {ps : List NodeRef}
    → Spine h n ps
    → (h.node n).depth ≡ depth_at (length ps)
Spine-depth (root e d) = d
Spine-depth (step lt e d s) = d

module _ (digest : Bytes → Bytes) (action_bytes : ActionKey → Bytes) (f : NamespaceForest)
    (w : IsWellFormed digest action_bytes f) where
  ready_child-IsChild :
      (n : NodeRef) (a : ActionKey) (c : NodeRef)
      → n < f.next
      → ready_child f.heap n a ≡ some c
      → IsChild digest action_bytes f.heap n a c
  unfolding ready_child
  ready_child-IsChild n a c lt e = w.child n a c lt (ground arith)

  pub walk-key :
      (n m : NodeRef) (actions : List ActionKey)
      → n < f.next
      → walk f.heap n actions ≡ some m
      → (m < f.next)
        × ((f.node m).node_key ≡ path_key digest (f.node n).node_key (map action_bytes actions))
  unfolding walk path_key
  walk-key n m [] lt e = ground arith
  walk-key n m (a ∷ rest) lt e = elim (Option-cases (ready_child f.heap n a)) [
    | inl r ↦ ground arith
    | inr (c, r) ↦
        let ch = ready_child-IsChild n a c lt r in
        ground (arith, ch.key, walk-key c m rest ch.allocated (ground arith))
  ]

  pub walk-Spine :
      (n m : NodeRef) (actions : List ActionKey) (ps : List NodeRef)
      → n < f.next
      → Spine f.heap n ps
      → walk f.heap n actions ≡ some m
      → (qs : List NodeRef) × Spine f.heap m qs × (length qs ≡ length ps + length actions)
  unfolding walk
  walk-Spine n m [] ps lt s e = (ps, subst (λ x. Spine f.heap x ps) (ground arith) s, omega arith)
  walk-Spine n m (a ∷ rest) ps lt s e = elim (Option-cases (ready_child f.heap n a)) [
    | inl r ↦ ground arith
    | inr (c, r) ↦
        let ch = ready_child-IsChild n a c lt r in
        let d = ch.depth ∙ ap next_int (Spine-depth s) ∙ next_int-depth_at (length ps) in
        let (qs, sq, l) =
          walk-Spine c m rest (c ∷ ps) ch.allocated (step ch.later ch.parent d s) (ground arith) in
        (qs, sq, omega arith)
  ]
