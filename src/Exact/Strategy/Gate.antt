-- ===== src/Exact/Strategy/Gate.antt =====
-- The gate of reuse/exact_prefix/strategy.py against that of manager.py.
use cache_seek.Prelude.{ℕ, ◌<◌, ◌≡◌, false, some, List, [], Bytes, arith, inl, inr, Option-cases}
use cache_seek.Exact.Types.{ActionKey, NodeRef}
use cache_seek.Exact.Config.{WorldKvConfig}
use cache_seek.Exact.Trie.{Namespace, NamespaceForest}
use cache_seek.Exact.Trie
use cache_seek.Exact.Manager.{
  RollingWindow, Outcome, returned, raised, FastForwardResult, try_fast_forward,
}
use cache_seek.Exact.Strategy.{gate, lookup}
use cache_seek.Service.Result.{LookupResult, hit_fast_forward}
use cache_seek.Stores.Tier.{KvTierStore}

-- The outcome is a start from chunk 0.
abbrev pub FromScratch : Outcome FastForwardResult → Type 0
FromScratch (returned r) = r.start_chunk ≡ 0
FromScratch raised = ⊥

module _ {S P L : Type 0} (Payload Score : Type 0) (store : KvTierStore S P L)
    (window : RollingWindow P) (cfg : WorldKvConfig) (s : S) (now : ℕ) (f : NamespaceForest)
    (root_hash : Bytes) (actions : List ActionKey) where
  abbrev pub answer : LookupResult Payload Score NodeRef Namespace
  answer = lookup cfg f (record { root_hash = some root_hash; actions = some actions })

  -- When `try_fast_forward` resumes a request, the strategy's answer on the same forest is the hit
  -- that names the same chunk, node and namespace.
  pub lookup-resumes :
      (r : FastForwardResult)
      → (try_fast_forward store window cfg s now f root_hash actions).2 ≡ returned r
      → 0 < r.start_chunk
      → answer ≡ hit_fast_forward r.start_chunk r.node r.namespace
  unfolding lookup gate try_fast_forward
  lookup-resumes r e pos = ground (arith, e)

  -- When the strategy misses, `try_fast_forward` leaves the forest as it is, calls the window for
  -- nothing, and starts at chunk 0.
  pub lookup-miss :
      answer.hit ≡ false
      → ((try_fast_forward store window cfg s now f root_hash actions).0 ≡ f)
        × ((try_fast_forward store window cfg s now f root_hash actions).1 ≡ [])
        × FromScratch (try_fast_forward store window cfg s now f root_hash actions).2
  unfolding lookup gate try_fast_forward
  lookup-miss h = elim (Option-cases (Trie.lookup f root_hash actions).namespace) [
    | inl unknown ↦ ground (arith, h)
    | inr (ns, known) ↦ elim (Option-cases (Trie.lookup f root_hash actions).node) [
      | inl none_found ↦ ground (arith, h)
      | inr (n, found) ↦ ground (arith, h)
    ]
  ]
