-- ===== src/Exact/Manager.antt =====
-- reuse/exact_prefix/manager.py: lookup, materialize (fast-forward), ingest and evict.
pub mod Window
pub mod Materialize
pub mod Seeds
pub mod FastForward
use cache_seek.Prelude.{
  ℕ, zero, suc, ◌+◌, ◌-◌, ◌/◌, ◌%◌, Bool, true, false, not, ◌||◌, ◌&&◌, Option, none, some, List,
  [], ◌∷◌, ◌++◌, reverse, Bytes, Text, codes, length, ltb, nat_eq, if◌then◌else◌,
}
use cache_seek.Prelude.Int.{ℤ, is_nonneg, int_ltb}
use cache_seek.Exact.Types.{
  ActionKey, Tier, BlobHandle, TrieNode, Heap, NodeRef, BlobRef, update, has_kv,
}
use cache_seek.Exact.Trie.{Namespace, PrefixMatch, NamespaceForest, lookup, commit}
use cache_seek.Exact.Config.{WorldKvConfig}
use cache_seek.Stores.Tier.{KvTierStore}

-- The calls that the manager makes of the engine's `RollingWindow`, in order.
pub data WindowCall (P : Type 0) : Type 0 where
  seed_layer : ℕ → List (ℤ × P) → ℤ → WindowCall P
  set_resume_depth : ℤ → WindowCall P

-- The engine's `RollingWindow`: whether a call raises, by the calls that it has answered before.
pub record RollingWindow (P : Type 0) : Type 0 where
  pub raises : List (WindowCall P) → WindowCall P → Bool

pub record FastForwardResult : Type 0 where
  pub start_chunk : ℕ
  pub node : Option NodeRef
  pub namespace : Option Namespace

-- The first loop of `_window_path`: at most `room` nodes from `n` upwards, and where it stopped.
unfoldable pub collect_recent : ℕ → Heap → Option NodeRef → ℕ → List NodeRef × Option NodeRef
collect_recent zero h n room = ([], n)
collect_recent (suc fuel) h none room = ([], none)
collect_recent (suc fuel) h (some n) zero = ([], some n)
collect_recent (suc fuel) h (some n) (suc room) =
    let rest = collect_recent fuel h (h.node n).parent room in
    if is_nonneg (h.node n).depth then (n ∷ rest.0, rest.1) else ([], some n)

-- The second loop: the sinks further up.
unfoldable pub collect_sinks : ℕ → Heap → Option NodeRef → ℕ → List NodeRef
collect_sinks zero h n sink_chunks = []
collect_sinks (suc fuel) h none sink_chunks = []
collect_sinks (suc fuel) h (some n) sink_chunks =
    let rest = collect_sinks fuel h (h.node n).parent sink_chunks in
    if is_nonneg (h.node n).depth
    then (if int_ltb (h.node n).depth sink_chunks then n ∷ rest else rest)
    else []

-- Parents are older than their children, so `suc n` bounds the rounds from the node `n`.
unfoldable pub window_path : WorldKvConfig → Heap → NodeRef → List NodeRef
window_path cfg h n =
    let (recent, above) = collect_recent (suc n) h (some n) cfg.window_chunks in
    let sinks = collect_sinks (suc n) h above cfg.sink_chunks in reverse sinks ++ reverse recent

unfoldable pub any_missing_kv : Heap → List NodeRef → Bool
any_missing_kv h [] = false
any_missing_kv h (n ∷ ns) = not (has_kv h n) || any_missing_kv h ns

-- `n.ref_count += 1`, `n.ref_count -= 1` and `n.last_access = now` for the nodes of a path.
unfoldable pub acquire : List NodeRef → Heap → Heap
acquire [] h = h
acquire (n ∷ ns) h = acquire ns (record h {
  node = update h.node n (record (h.node n) { ref_count = (h.node n).ref_count + 1 });
})

unfoldable pub release : List NodeRef → Heap → Heap
release [] h = h
release (n ∷ ns) h = release ns (record h {
  node = update h.node n (record (h.node n) { ref_count = (h.node n).ref_count - 1 });
})

unfoldable pub touch : ℕ → List NodeRef → Heap → Heap
touch now [] h = h
touch now (n ∷ ns) h =
    touch now ns (record h { node = update h.node n (record (h.node n) { last_access = now }) })

-- `len(path)` nodes, the last one's `blob.n_layers`; a node with no blob has none.
unfoldable pub last_n_layers : Heap → List NodeRef → ℕ
last_n_layers h [] = 0
last_n_layers h (n ∷ []) = elim (h.node n).blob [ none ↦ 0 | some b ↦ (h.blob b).n_layers ]
last_n_layers h (n ∷ m ∷ ns) = last_n_layers h (m ∷ ns)

-- What `materialize` and its caller return; `raised` is an exception of the store or the
-- window.
pub data Outcome (A : Type 0) : Type 0 where
  returned : A → Outcome A
  raised : Outcome A

module _ {S P L : Type 0} (store : KvTierStore S P L) where
  -- `[(n.depth, self.store.get_layer(n.blob, layer)) for n in path]`
  unfoldable pub gather_layer : S → Heap → ℕ → List NodeRef → Option (List (ℤ × P))
  gather_layer s h layer [] = some []
  gather_layer s h layer (n ∷ ns) = elim (h.node n).blob [
    | none ↦ none
    | some b ↦ elim (store.get_layer s (h.blob b) layer) [
      | none ↦ none
      | some p ↦ elim (gather_layer s h layer ns) [
        | none ↦ none
        | some rest ↦ some (((h.node n).depth, p) ∷ rest)
      ]
    ]
  ]

  -- The loop over the layers from `layer` on, `rounds` of them, behind the calls `before`: the calls
  -- that the window has answered, and whether the loop ended without an exception.
  unfoldable pub seed_layers :
      RollingWindow P
      → S
      → Heap
      → List NodeRef
      → ℤ
      → List (WindowCall P)
      → ℕ
      → ℕ
      → List (WindowCall P) × Bool
  seed_layers window s h path depth before zero layer = (before, true)
  seed_layers window s h path depth before (suc rounds) layer = elim (gather_layer s h layer path) [
    | none ↦ (before, false)
    | some blobs ↦
        let seed : WindowCall P = seed_layer layer blobs depth in
        let rest = seed_layers window s h path depth (before ++ seed ∷ []) rounds (suc layer) in
        if window.raises before seed then (before, false) else rest
  ]

  module _ (window : RollingWindow P) (cfg : WorldKvConfig) where
    -- The heap afterwards, the calls that the window has answered, and the result. `finally` releases
    -- the path on every way out.
    unfoldable pub materialize : S → ℕ → Heap → NodeRef → Heap × List (WindowCall P) × Outcome Bool
    materialize s now h n =
        let path = window_path cfg h n in
        if nat_eq (length path) 0 || any_missing_kv h path
        then (h, [], returned false)
        else (let held = acquire path h in
            let depth = (h.node n).depth in
            let (calls, done) =
              seed_layers window s held path depth [] (last_n_layers held path) 0 in
            if done && not (window.raises calls (set_resume_depth depth))
            then (
              release path (touch now path held),
              calls ++ set_resume_depth depth ∷ [],
              returned true,
            )
            else (release path held, calls, raised))

    unfoldable pub try_fast_forward :
        S
        → ℕ
        → NamespaceForest
        → Bytes
        → List ActionKey
        → NamespaceForest × List (WindowCall P) × Outcome FastForwardResult
    try_fast_forward s now f root_hash actions =
        let m = lookup f root_hash actions in
        elim m.namespace [
          | none ↦ (f, [], returned (record { start_chunk = 0; node = none; namespace = none }))
          | some ns ↦
              let scratch : FastForwardResult = record {
                start_chunk = 0;
                node = some ns.root;
                namespace = some ns;
              } in
              elim m.node [
                | none ↦ (f, [], returned scratch)
                | some n ↦
                    if nat_eq m.matched_len 0 || ltb m.matched_len cfg.break_even_k
                    then (f, [], returned scratch)
                    else (let (h, calls, out) = materialize s now f.heap n in
                        let f' : NamespaceForest = record f { heap = h } in
                        elim out [
                          | raised ↦ (f', calls, raised)
                          | returned ok ↦ (
                            f',
                            calls,
                            returned (
                                if ok
                                then record {
                                  start_chunk = m.matched_len;
                                  node = some n;
                                  namespace = some ns;
                                }
                                else scratch),
                          )
                        ])
              ]
        ]
