-- ===== src/Exact/Reached.antt =====
-- The node that `lookup` of reuse/exact_prefix/trie.py returns: its key, depth and ancestors.
use cache_seek.Prelude.{
  ℕ, zero, suc, ◌<◌, ◌≤◌, ◌≡◌, refl, ap, sym, ◌∙◌, some, List, [], ◌∷◌, map, Bytes, bytes_eq,
  length, take, All, arith, inl, inr, Option-cases,
}
use cache_seek.Dict
use cache_seek.Keys.{build_action_chain}
use cache_seek.Keys.Framing.{Fits}
use cache_seek.Keys.Chain.{
  path_key, last_key, build_action_chain_lem, NoCollision, World, WorldFits, root_of,
  build_action_chain-injective,
}
use cache_seek.Exact.Types.{ActionKey, NodeRef}
use cache_seek.Exact.Trie.{Namespace, NamespaceForest, lookup}
use cache_seek.Exact.Trie.Lookup.{walk, lookup-Walked}
use cache_seek.Exact.WellFormed.{IsWellFormed}
use cache_seek.Exact.Path.{Spine, depth_at, Spine-depth, walk-key, walk-Spine}

length-take_le {ℓ} : {A : Type ℓ} (n : ℕ) (xs : List A) → n ≤ length xs → length (take n xs) ≡ n
length-take_le zero xs h = refl
length-take_le (suc n) [] h = absurd (omega arith)
length-take_le (suc n) (x ∷ xs) h = omega (arith, length-take_le n xs)

module _ (digest : Bytes → Bytes) (action_bytes : ActionKey → Bytes) where
  -- The node `m` stands `k` actions below the root, and carries the last key of their chain.
  pub record Reached (f : NamespaceForest) (root_hash : Bytes) (actions : List ActionKey)
      (m : NodeRef) (k : ℕ) : Type 0 where
    pub bounded : k ≤ length actions
    pub allocated : m < f.next
    pub depth : (f.node m).depth ≡ depth_at k
    pub key :
        (f.node m).node_key
        ≡ last_key digest root_hash
            (build_action_chain digest root_hash (map action_bytes (take k actions)))
    pub ancestors : List NodeRef
    pub spine : Spine f.heap m ancestors
    pub spine_length : length ancestors ≡ k

  lookup-known :
      (f : NamespaceForest) (root_hash : Bytes) (actions : List ActionKey) (m : NodeRef)
      → (lookup f root_hash actions).node ≡ some m
      → (ns : Namespace) × (Dict.get f.namespaces root_hash ≡ some ns)
  unfolding lookup
  lookup-known f root_hash actions m e = elim (Option-cases (Dict.get f.namespaces root_hash)) [
    | inl r ↦ ground arith
    | inr known ↦ known
  ]

  -- In a well-formed forest the node that a lookup returns is the one of the matched prefix: its
  -- key is the last key of `build_action_chain` of the world's root over those actions, its depth
  -- is one less than their number, and as many nodes lie on its path below the virtual root.
  pub lookup-Reached :
      (f : NamespaceForest) (root_hash : Bytes) (actions : List ActionKey) (m : NodeRef)
      → IsWellFormed digest action_bytes f
      → (lookup f root_hash actions).node ≡ some m
      → Reached f root_hash actions m (lookup f root_hash actions).matched_len
  lookup-Reached f root_hash actions m w e =
      let (ns, known) = lookup-known f root_hash actions m e in
      let (m', _, found, long) = lookup-Walked f root_hash actions ns known in
      let same : m' ≡ m = cc (found, e) in
      let k = (lookup f root_hash actions).matched_len in
      let at = w.root root_hash ns known in
      let reach : walk f.heap ns.root (take k actions) ≡ some m = ground (arith, long.found) in
      let (inside, key) =
        walk-key digest action_bytes f w ns.root m (take k actions) at.allocated reach in
      let (qs, sp, l) =
        walk-Spine digest action_bytes f w ns.root m (take k actions) [] at.allocated
          (Spine.root at.parent at.depth) reach in
      let len : length qs ≡ k = omega (arith, length-take_le k actions long.bounded) in
      record {
        bounded = long.bounded;
        allocated = inside;
        depth = Spine-depth sp ∙ ap depth_at len;
        key =
            key
            ∙ ap (λ r. path_key digest r (map action_bytes (take k actions))) at.key
            ∙ sym (build_action_chain_lem digest root_hash (map action_bytes (take k actions))).1;
        ancestors = qs;
        spine = sp;
        spine_length = len;
      }

  -- The bytes of the actions that a lookup matched, and the keys of their chain with the root's.
  abbrev pub matched : NamespaceForest → World → List ActionKey → List Bytes
  matched f w actions =
      map action_bytes (take (lookup f (root_of digest w) actions).matched_len actions)

  abbrev pub chain_of : NamespaceForest → World → List ActionKey → List Bytes
  chain_of f w actions =
      root_of digest w ∷ build_action_chain digest (root_of digest w) (matched f w actions)

  -- If SHA-256 does not collide, two lookups, in any two well-formed forests, whose nodes carry the
  -- same key asked for the same world (image, prompt and configuration) and matched the same
  -- actions. (Every part that is hashed is shorter than 2^64 bytes.)
  pub lookup-no_false_hit :
      (f g : NamespaceForest) (v w : World) (acts bcts : List ActionKey) (m n : NodeRef)
      → NoCollision digest
      → IsWellFormed digest action_bytes f
      → IsWellFormed digest action_bytes g
      → (lookup f (root_of digest v) acts).node ≡ some m
      → (lookup g (root_of digest w) bcts).node ≡ some n
      → (f.node m).node_key ≡ (g.node n).node_key
      → WorldFits v
      → WorldFits w
      → All Fits (matched f v acts)
      → All Fits (matched g w bcts)
      → All Fits (chain_of f v acts)
      → All Fits (chain_of g w bcts)
      → (v ≡ w) × (matched f v acts ≡ matched g w bcts)
  lookup-no_false_hit f g v w acts bcts m n nc wf wg ef eg same fv fw fa fb ka kb =
      let rf = lookup-Reached f (root_of digest v) acts m wf ef in
      let rg = lookup-Reached g (root_of digest w) bcts n wg eg in
      build_action_chain-injective digest nc v w (matched f v acts) (matched g w bcts) fv fw fa fb
        ka kb (sym rf.key ∙ same ∙ rg.key)
