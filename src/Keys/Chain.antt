-- ===== src/Keys/Chain.antt =====
-- The key chain of reuse/exact_prefix/keys.py, for worlds and action sequences.
use mathlib.Core.Path.{ap₂}
use mathlib.Core.List.{append-nil}
use cache_seek.Prelude.{
  suc, ◌≡◌, ◌≢◌, refl, sym, ap, ◌∙◌, List, [], ◌∷◌, ◌++◌, Bytes, codes, length, All, arith,
}
use cache_seek.Keys.{root_hash, node_key, build_action_chain}
use cache_seek.Keys.Framing.{Fits, frame-injective}

-- The key of the last chunk of a path, `chain[-1] if chain else root`.
unfoldable pub path_key : (Bytes → Bytes) → Bytes → List Bytes → Bytes
path_key digest root [] = root
path_key digest root (ab ∷ abs) = path_key digest (node_key digest root ab) abs

abbrev pub NoCollision : (Bytes → Bytes) → Type 0
NoCollision digest = (x y : Bytes) → digest x ≡ digest y → x ≡ y

module _ (digest : Bytes → Bytes) where
  unfoldable pub last_key : Bytes → List Bytes → Bytes
  last_key k [] = k
  last_key k (c ∷ cs) = last_key c cs

  -- The chain's last key is the path's key, and the chain has one key for each chunk.
  pub build_action_chain_lem :
      (root : Bytes) (abs : List Bytes)
      → (length (build_action_chain digest root abs) ≡ length abs)
        × (last_key root (build_action_chain digest root abs) ≡ path_key digest root abs)
  unfolding build_action_chain last_key path_key
  build_action_chain_lem root [] = (refl, refl)
  build_action_chain_lem root (ab ∷ abs) =
      let (l, k) = build_action_chain_lem (node_key digest root ab) abs in (ap suc l, k)

  module _ (nc : NoCollision digest) where
    node_key-injective :
        (p q a b : Bytes)
        → All Fits (p ∷ q ∷ a ∷ b ∷ [])
        → node_key digest p a ≡ node_key digest q b
        → (p ≡ q) × (a ≡ b)
    unfolding node_key
    node_key-injective p q a b fits h =
        let e =
          frame-injective (codes "node" ∷ p ∷ a ∷ []) (codes "node" ∷ q ∷ b ∷ []) (omega arith)
            (omega arith) (nc _ _ h) in
        ground arith

    node_key-ne-root_hash :
        (p a i t c : Bytes)
        → All Fits (p ∷ a ∷ i ∷ t ∷ c ∷ [])
        → node_key digest p a ≢ root_hash digest i t c
    unfolding node_key root_hash
    node_key-ne-root_hash p a i t c fits h =
        let e =
          frame-injective (codes "node" ∷ p ∷ a ∷ []) (codes "root" ∷ i ∷ t ∷ c ∷ []) (omega arith)
            (omega arith) (nc _ _ h) in
        ground arith

-- The walked part of a path, latest action first.
abbrev rev_onto : List Bytes → List Bytes → List Bytes
rev_onto [] ps = ps
rev_onto (a ∷ us) ps = rev_onto us (a ∷ ps)

rev_onto-rev_onto : (us ps qs : List Bytes) → rev_onto (rev_onto us ps) qs ≡ rev_onto ps (us ++ qs)
rev_onto-rev_onto [] ps qs = refl
rev_onto-rev_onto (a ∷ us) ps qs = rev_onto-rev_onto us (a ∷ ps) qs

rev_onto-injective : (us vs : List Bytes) → rev_onto us [] ≡ rev_onto vs [] → us ≡ vs
rev_onto-injective us vs h =
    sym (append-nil us)
    ∙ sym (rev_onto-rev_onto us [] [])
    ∙ ap (λ l. rev_onto l []) h
    ∙ rev_onto-rev_onto vs [] []
    ∙ append-nil vs

-- One world: image, prompt and configuration.
abbrev pub World : Type 0
World = Bytes × Bytes × Bytes

abbrev pub WorldFits : World → Type 0
WorldFits w = All Fits (w.0 ∷ w.1 ∷ w.2 ∷ [])

module _ (digest : Bytes → Bytes) where
  abbrev pub root_of : World → Bytes
  root_of w = root_hash digest w.0 w.1 w.2

  abbrev rev_key : Bytes → List Bytes → Bytes
  rev_key r [] = r
  rev_key r (a ∷ us) = node_key digest (rev_key r us) a

  abbrev ChainFits : Bytes → List Bytes → Type 0
  ChainFits r [] = Unit
  ChainFits r (a ∷ us) = Fits (rev_key r us) × Fits a × ChainFits r us

  path_key-rev_key :
      (r : Bytes) (us ps : List Bytes)
      → path_key digest (rev_key r ps) us ≡ rev_key r (rev_onto us ps)
  unfolding path_key
  path_key-rev_key r [] ps = refl
  path_key-rev_key r (a ∷ us) ps = path_key-rev_key r us (a ∷ ps)

  ChainFits-rev_onto :
      (r : Bytes) (us ps : List Bytes)
      → ChainFits r ps
      → All Fits us
      → All Fits (rev_key r ps ∷ build_action_chain digest (rev_key r ps) us)
      → ChainFits r (rev_onto us ps)
  unfolding build_action_chain
  ChainFits-rev_onto r [] ps c ha hk = c
  ChainFits-rev_onto r (a ∷ us) ps c ha hk =
      ChainFits-rev_onto r us (a ∷ ps) (hk.0, ha.0, c) ha.1 hk.1

  module _ (nc : NoCollision digest) where
    root_of-injective : (v w : World) → WorldFits v → WorldFits w → root_of v ≡ root_of w → v ≡ w
    unfolding root_hash
    root_of-injective v w fv fw h =
        let e =
          frame-injective (codes "root" ∷ v.0 ∷ v.1 ∷ v.2 ∷ [])
            (codes "root" ∷ w.0 ∷ w.1 ∷ w.2 ∷ []) (omega arith) (omega arith) (nc _ _ h) in
        ground arith

    rev_key-injective :
        (v w : World) (us vs : List Bytes)
        → WorldFits v
        → WorldFits w
        → ChainFits (root_of v) us
        → ChainFits (root_of w) vs
        → rev_key (root_of v) us ≡ rev_key (root_of w) vs
        → (v ≡ w) × (us ≡ vs)
    rev_key-injective v w [] [] fv fw ca cb h = (root_of-injective v w fv fw h, refl)
    rev_key-injective v w [] (b ∷ vs) fv fw ca cb h =
        absurd (node_key-ne-root_hash digest nc _ b _ _ _ (omega arith) (sym h))
    rev_key-injective v w (a ∷ us) [] fv fw ca cb h =
        absurd (node_key-ne-root_hash digest nc _ a _ _ _ (omega arith) h)
    rev_key-injective v w (a ∷ us) (b ∷ vs) fv fw ca cb h =
        let (hk, ha) = node_key-injective digest nc _ _ a b (omega arith) h in
        let (hw, hl) = rev_key-injective v w us vs fv fw ca.2 cb.2 hk in (hw, ap₂ ◌∷◌ ha hl)

    -- If SHA-256 does not collide, a node key names one world and one action sequence: two chains
    -- of any lengths, in any two worlds, that end in the same key have the same image, prompt and
    -- configuration and the same actions. (Every part that is hashed is shorter than 2^64 bytes.)
    pub build_action_chain-injective :
        (v w : World) (us vs : List Bytes)
        → WorldFits v
        → WorldFits w
        → All Fits us
        → All Fits vs
        → All Fits (root_of v ∷ build_action_chain digest (root_of v) us)
        → All Fits (root_of w ∷ build_action_chain digest (root_of w) vs)
        → last_key digest (root_of v) (build_action_chain digest (root_of v) us)
          ≡ last_key digest (root_of w) (build_action_chain digest (root_of w) vs)
        → (v ≡ w) × (us ≡ vs)
    build_action_chain-injective v w us vs fv fw fa fb ka kb h =
        let e =
          sym (path_key-rev_key (root_of v) us [])
          ∙ sym (build_action_chain_lem digest (root_of v) us).1
          ∙ h
          ∙ (build_action_chain_lem digest (root_of w) vs).1
          ∙ path_key-rev_key (root_of w) vs [] in
        let (hw, hl) =
          rev_key-injective v w (rev_onto us []) (rev_onto vs []) fv fw
            (ChainFits-rev_onto (root_of v) us [] tt fa ka)
            (ChainFits-rev_onto (root_of w) vs [] tt fb kb) e in
        (hw, rev_onto-injective us vs hl)
