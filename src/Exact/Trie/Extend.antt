-- ===== src/Exact/Trie/Extend.antt =====
-- How lookups read a heap that differs from a well-formed one above the path.
use cache_seek.Prelude.{
  ℕ, ◌+◌, ◌<◌, ◌≤◌, ◌≡◌, none, some, List, [], ◌∷◌, ◌++◌, bytes_eq, length, arith, inl, inr,
  Option-cases,
}
use cache_seek.Exact.Types.{ActionKey, Heap, NodeRef}
use cache_seek.Exact.Trie.{ready_child, descend}
use cache_seek.Exact.Trie.Lookup.{walk}

-- Ready children are younger than their parents, and allocated.
abbrev pub IsOrdered : Heap → Type 0
IsOrdered h =
    (n : NodeRef) (a : ActionKey) (c : NodeRef)
    → n < h.next
    → ready_child h n a ≡ some c
    → (n < c) × (c < h.next)

walk-le :
    (h : Heap) (o : IsOrdered h) (n p : NodeRef) (actions : List ActionKey)
    → n < h.next
    → walk h n actions ≡ some p
    → n ≤ p
unfolding walk
walk-le h o n p [] lt e = ground arith
walk-le h o n p (a ∷ rest) lt e = elim (Option-cases (ready_child h n a)) [
  | inl r ↦ ground arith
  | inr (c, r) ↦ ground (arith, o n a c lt r, walk-le h o c p rest)
]

-- A walk to `p` is still there in a heap that keeps the ready children up to `p`.
pub walk_keep :
    (h h' : Heap) (o : IsOrdered h) (n p : NodeRef) (actions : List ActionKey)
    → ((m : NodeRef) (a : ActionKey) (c : NodeRef)
        → m < h.next
        → c ≤ p
        → ready_child h m a ≡ some c
        → ready_child h' m a ≡ some c)
    → n < h.next
    → walk h n actions ≡ some p
    → walk h' n actions ≡ some p
unfolding walk
walk_keep h h' o n p [] keep lt e = e
walk_keep h h' o n p (a ∷ rest) keep lt e = elim (Option-cases (ready_child h n a)) [
  | inl r ↦ ground arith
  | inr (c, r) ↦
      let (younger, inside) = o n a c lt r in
      let e' : walk h c rest ≡ some p = ground arith in
      ground (
        arith,
        keep n a c lt (walk-le h o c p rest inside e') r,
        walk_keep h h' o c p rest keep inside e',
      )
]

-- After a walk the loop of `lookup` stops where the next child is not ready.
pub descend_stop :
    (h : Heap) (n p : NodeRef) (k : ℕ) (actions : List ActionKey) (a : ActionKey)
    (rest : List ActionKey)
    → walk h n actions ≡ some p
    → ready_child h p a ≡ none
    → descend h n k (actions ++ a ∷ rest) ≡ (p, k + length actions)
unfolding walk descend
descend_stop h n p k [] a rest e stop = ground arith
descend_stop h n p k (b ∷ bs) a rest e stop = elim (Option-cases (ready_child h n b)) [
  | inl r ↦ ground arith
  | inr (c, r) ↦ ground (arith, descend_stop h c p (k + 1) bs a rest)
]

pub descend_step :
    (h : Heap) (n p c : NodeRef) (k : ℕ) (actions : List ActionKey) (a : ActionKey)
    → walk h n actions ≡ some p
    → ready_child h p a ≡ some c
    → descend h n k (actions ++ a ∷ []) ≡ (c, k + (length actions + 1))
unfolding walk descend
descend_step h n p c k [] a e more = ground arith
descend_step h n p c k (b ∷ bs) a e more = elim (Option-cases (ready_child h n b)) [
  | inl r ↦ ground arith
  | inr (d, r) ↦ ground (arith, descend_step h d p c (k + 1) bs a)
]
