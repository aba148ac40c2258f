-- ===== src/Exact/Strategy.antt =====
-- reuse/exact_prefix/strategy.py: `ExactPrefixStrategy`, the shared strategy protocol over the trie.
pub mod Gate
use cache_seek.Prelude.{
  ℕ, Bool, true, false, Option, none, some, List, Bytes, codes, ltb, nat_eq, if◌then◌else◌,
}
use cache_seek.Prelude.Int.{ℤ}
use cache_seek.Exact.Types.{ActionKey, NodeRef}
use cache_seek.Exact.Config.{WorldKvConfig}
use cache_seek.Exact.Trie.{Namespace, NamespaceForest}
use cache_seek.Exact.Trie
use cache_seek.Exact.Ingest.{ingest}
use cache_seek.Service.Result.{LookupResult, miss, hit_fast_forward}
use cache_seek.Stores.Tier.{KvTierStore}

-- The two keys of `query.extra` that the strategy reads; `none` for a missing key or `None`.
pub record QueryExtra : Type 0 where
  pub root_hash : Option Bytes
  pub actions : Option (List ActionKey)

-- The keys of `ctx`. (`ns` is handed to `ingest`, which only takes its lock.)
pub record ChunkCtx (P L : Type 0) : Type 0 where
  pub parent : NodeRef
  pub action : ActionKey
  pub node_key : Bytes
  pub depth : ℤ
  pub payload : List P
  pub latent : L
  pub nbytes : Option ℕ
  pub node : Option NodeRef

module _ {Payload Score : Type 0} where
  -- The tests after the trie lookup.
  unfoldable pub gate :
      ℕ → Option NodeRef → Option Namespace → ℕ → LookupResult Payload Score NodeRef Namespace
  gate break_even_k _ none matched_len = miss (codes "exact_prefix_namespace_miss")
  gate break_even_k none (some ns) matched_len = miss (codes "exact_prefix_no_match")
  gate break_even_k (some n) (some ns) matched_len =
      if nat_eq matched_len 0
      then miss (codes "exact_prefix_no_match")
      else (if ltb matched_len break_even_k
          then miss (codes "exact_prefix_below_break_even")
          else hit_fast_forward matched_len (some n) (some ns))

  unfoldable pub lookup :
      WorldKvConfig → NamespaceForest → QueryExtra → LookupResult Payload Score NodeRef Namespace
  unfolding gate
  lookup cfg f extra = elim extra.root_hash [
    | none ↦ miss (codes "exact_prefix_query_missing_fields")
    | some root ↦ elim extra.actions [
      | none ↦ miss (codes "exact_prefix_query_missing_fields")
      | some actions ↦
          let m = Trie.lookup f root actions in
          gate cfg.break_even_k m.node m.namespace m.matched_len
    ]
  ]

-- `none` is the `AssertionError` on a `ctx` that is not a dict of the chunk's fields.
unfoldable pub save :
    {S P L : Type 0}
    → KvTierStore S P L
    → WorldKvConfig
    → S
    → NamespaceForest
    → Option (ChunkCtx P L)
    → Option (NamespaceForest × S × ChunkCtx P L)
save store cfg s f none = none
save store cfg s f (some ctx) =
    let nbytes : ℕ = elim ctx.nbytes [ none ↦ 0 | some n ↦ n ] in
    let (f', s', node) =
      ingest store cfg s f ctx.parent ctx.action ctx.node_key ctx.depth ctx.payload ctx.latent
        nbytes none in
    some (f', s', record ctx { node = some node })
