-- ===== src/Exact/Manager/FastForward.antt =====
-- The results of `try_fast_forward` of reuse/exact_prefix/manager.py.
use cache_seek.Prelude.{
  ℕ, ◌<◌, ◌≤◌, ◌≡◌, ◌⊎◌, ◌||◌, List, [], Bytes, arith, inl, inr, nat_eq, ltb, Bool-cases,
  Option-cases,
}
use cache_seek.Exact.Types.{ActionKey, NodeRef}
use cache_seek.Exact.Config.{WorldKvConfig}
use cache_seek.Exact.Trie.{NamespaceForest, lookup}
use cache_seek.Exact.Manager.{
  RollingWindow, returned, materialize, FastForwardResult, try_fast_forward,
}
use cache_seek.Exact.Manager.Materialize.{
  OnlyTouched, OnlyTouched-refl, materialize-OnlyTouched, materialize-false,
}
use cache_seek.Stores.Tier.{KvTierStore}

module _ {S P L : Type 0} (store : KvTierStore S P L) (window : RollingWindow P)
    (cfg : WorldKvConfig) (s : S) (now : ℕ) (f : NamespaceForest) (root_hash : Bytes)
    (actions : List ActionKey) where
  -- The request starts from scratch, and the window was not called.
  pub record Scratch (r : FastForwardResult) : Type 0 where
    pub start : r.start_chunk ≡ 0
    pub untouched : (try_fast_forward store window cfg s now f root_hash actions).1 ≡ []

  pub record Resumes (r : FastForwardResult) : Type 0 where
    pub positive : 0 < r.start_chunk
    pub gate : cfg.break_even_k ≤ r.start_chunk
    pub matched : r.start_chunk ≡ (lookup f root_hash actions).matched_len
    pub node : r.node ≡ (lookup f root_hash actions).node
    pub namespace : r.namespace ≡ (lookup f root_hash actions).namespace

  namespaces_same :
      (try_fast_forward store window cfg s now f root_hash actions).0.namespaces ≡ f.namespaces
  unfolding try_fast_forward
  namespaces_same = ground arith

  heap_after :
      ((try_fast_forward store window cfg s now f root_hash actions).0.heap ≡ f.heap)
      ⊎ ((n : NodeRef) × ((try_fast_forward store window cfg s now f root_hash actions).0.heap
            ≡ (materialize store window cfg s now f.heap n).0))
  unfolding try_fast_forward
  heap_after = elim (Option-cases (lookup f root_hash actions).node) [
    | inl none_found ↦ inl (ground arith)
    | inr (n, found) ↦ elim (Option-cases (lookup f root_hash actions).namespace) [
      | inl unknown ↦ inl (ground arith)
      | inr (ns, known) ↦
          elim (Bool-cases (
            nat_eq (lookup f root_hash actions).matched_len 0
            || ltb (lookup f root_hash actions).matched_len cfg.break_even_k)) [
              | inl short ↦ inl (ground arith)
              | inr long ↦ inr (n, ground arith)
            ]
    ]
  ]

  heap_touched :
      OnlyTouched f.heap (try_fast_forward store window cfg s now f root_hash actions).0.heap
  heap_touched = elim heap_after [
    | inl e ↦ rw e (OnlyTouched-refl f.heap)
    | inr (n, e) ↦ rw e (materialize-OnlyTouched store window cfg s now f.heap n)
  ]

  -- If `try_fast_forward` returns, either the request starts from chunk 0 and the window was not
  -- called, or it resumes at the matched length of `lookup`, which is positive and reaches
  -- `break_even_k`, from the node and the namespace that `lookup` found.
  pub try_fast_forward-cases :
      (r : FastForwardResult)
      → (try_fast_forward store window cfg s now f root_hash actions).2 ≡ returned r
      → Scratch r ⊎ Resumes r
  unfolding try_fast_forward
  try_fast_forward-cases r e = elim (Option-cases (lookup f root_hash actions).node) [
    | inl none_found ↦ ground arith
    | inr (n, found) ↦ ground (arith, materialize-false store window cfg s now f.heap n)
  ]

  -- However `try_fast_forward` ends, an exception of the store or the window included, the namespaces are the
  -- same and the nodes changed in access times only.
  pub try_fast_forward-OnlyTouched :
      ((try_fast_forward store window cfg s now f root_hash actions).0.namespaces ≡ f.namespaces)
      × OnlyTouched f.heap (try_fast_forward store window cfg s now f root_hash actions).0.heap
  try_fast_forward-OnlyTouched = (namespaces_same, heap_touched)
