-- ===== src/Exact/Manager/Seeds.antt =====
-- `materialize` of reuse/exact_prefix/manager.py with a store that serves every layer of the path.
use mathlib.Core.Path.{subst}
use cache_seek.Prelude.{
  sym, ap, ℕ, zero, suc, ◌+◌, ◌<◌, ◌≤◌, ◌≡◌, ◌≢◌, refl, true, false, some, List, [], ◌∷◌, ◌++◌, map,
  length, All, arith,
}
use cache_seek.Prelude.Int.{ℤ}
use cache_seek.Exact.Types.{Heap, NodeRef, BlobRef, has_kv}
use cache_seek.Exact.Config.{WorldKvConfig}
use cache_seek.Exact.Manager.{
  RollingWindow, WindowCall, seed_layer, set_resume_depth, returned, window_path, any_missing_kv,
  acquire, last_n_layers, gather_layer, seed_layers, materialize,
}
use cache_seek.Exact.Manager.Materialize.{acquire_node, acquire_rest}
use cache_seek.Stores.Tier.{KvTierStore}

module _ {S P L : Type 0} (store : KvTierStore S P L) (s : S) (payload : NodeRef → ℕ → P) where
  -- The node's blob is published, and the store reads `payload` for each of its first layers.
  pub record Serves (h : Heap) (layers : ℕ) (n : NodeRef) : Type 0 where
    pub blob : BlobRef
    pub held : (h.node n).blob ≡ some blob
    pub ready : (h.blob blob).ready ≡ true
    pub reads : (l : ℕ) → l < layers → store.get_layer s (h.blob blob) l ≡ some (payload n l)

  abbrev pub layer_blobs : Heap → List NodeRef → ℕ → List (ℤ × P)
  layer_blobs h path l = map (λ n. ((h.node n).depth, payload n l)) path

  -- The seeds of the layers from `l` on, `rounds` of them.
  abbrev pub seeds : Heap → List NodeRef → ℤ → ℕ → ℕ → List (WindowCall P)
  seeds h path depth zero l = []
  seeds h path depth (suc rounds) l =
      seed_layer l (layer_blobs h path l) depth ∷ seeds h path depth rounds (suc l)

  gather_layer-Serves :
      (h : Heap) (layers l : ℕ) (path : List NodeRef)
      → All (Serves h layers) path
      → l < layers
      → gather_layer store s h l path ≡ some (layer_blobs h path l)
  unfolding gather_layer
  gather_layer-Serves h layers l [] serves lt = refl
  gather_layer-Serves h layers l (n ∷ ns) serves lt =
      ground
        (arith, serves.0.held, serves.0.reads l lt, gather_layer-Serves h layers l ns serves.1 lt)

  -- The window answers each of the calls, in their order, behind those before.
  abbrev pub Answers : RollingWindow P → List (WindowCall P) → List (WindowCall P) → Type 0
  Answers window before [] = Unit
  Answers window before (c ∷ cs) =
      (window.raises before c ≡ false) × Answers window (before ++ c ∷ []) cs

  append_assoc :
      (xs : List (WindowCall P)) (c : WindowCall P) (ys : List (WindowCall P))
      → (xs ++ c ∷ []) ++ ys ≡ xs ++ c ∷ ys
  append_assoc [] c ys = refl
  append_assoc (x ∷ xs) c ys = ap (λ l. x ∷ l) (append_assoc xs c ys)

  append_nil : (xs : List (WindowCall P)) → xs ++ [] ≡ xs
  append_nil [] = refl
  append_nil (x ∷ xs) = ap (λ l. x ∷ l) (append_nil xs)

  -- The loop makes the seeds, and the window answers what comes after them.
  seed_layers-Serves :
      (window : RollingWindow P) (h : Heap) (layers : ℕ) (path : List NodeRef) (depth : ℤ)
      (before after : List (WindowCall P)) (rounds l : ℕ)
      → All (Serves h layers) path
      → l + rounds ≤ layers
      → Answers window before (seeds h path depth rounds l ++ after)
      → (seed_layers store window s h path depth before rounds l
          ≡ (before ++ seeds h path depth rounds l, true))
        × Answers window (before ++ seeds h path depth rounds l) after
  unfolding seed_layers
  seed_layers-Serves window h layers path depth before after zero l serves le answers = (
    ap (λ x. (x, true)) (sym (append_nil before)),
    subst (λ x. Answers window x after) (sym (append_nil before)) answers,
  )
  seed_layers-Serves window h layers path depth before after (suc rounds) l serves le
        (now, answers) =
      let seed : WindowCall P = seed_layer l (layer_blobs h path l) depth in
      let (ih, left) =
        seed_layers-Serves window h layers path depth (before ++ seed ∷ []) after rounds (suc l)
          serves (omega (arith, le)) answers in
      let assoc = append_assoc before seed (seeds h path depth rounds (suc l)) in
      (
        ground
            (arith, gather_layer-Serves h layers l path serves (omega (arith, le)), now, ih, assoc),
        subst (λ x. Answers window x after) assoc left,
      )

  any_missing_kv-Serves :
      (h : Heap) (layers : ℕ) (path : List NodeRef)
      → All (Serves h layers) path
      → any_missing_kv h path ≡ false
  unfolding any_missing_kv has_kv
  any_missing_kv-Serves h layers [] serves = refl
  any_missing_kv-Serves h layers (n ∷ ns) serves =
      ground (arith, serves.0.held, serves.0.ready, any_missing_kv-Serves h layers ns serves.1)

  layer_blobs-acquire :
      (h : Heap) (held path : List NodeRef) (l : ℕ)
      → layer_blobs (acquire held h) path l ≡ layer_blobs h path l
  layer_blobs-acquire h held [] l = refl
  layer_blobs-acquire h held (n ∷ ns) l =
      ground (arith, acquire_node held h n, layer_blobs-acquire h held ns l)

  seeds-acquire :
      (h : Heap) (held path : List NodeRef) (depth : ℤ) (rounds l : ℕ)
      → seeds (acquire held h) path depth rounds l ≡ seeds h path depth rounds l
  seeds-acquire h held path depth zero l = refl
  seeds-acquire h held path depth (suc rounds) l =
      ground
        (arith, layer_blobs-acquire h held path l, seeds-acquire h held path depth rounds (suc l))

  Serves-acquire :
      (h : Heap) (layers : ℕ) (held path : List NodeRef)
      → All (Serves h layers) path
      → All (Serves (acquire held h) layers) path
  Serves-acquire h layers held [] serves = tt
  Serves-acquire h layers held (n ∷ ns) (v, vs) =
      let e : (acquire held h).blob ≡ h.blob = (acquire_rest held h).blob in
      (
        record {
          blob = v.blob;
          held = ground (arith, acquire_node held h n, v.held);
          ready = rw e v.ready;
          reads = λ l lt. rw e (v.reads l lt);
        },
        Serves-acquire h layers held ns vs,
      )

  last_n_layers-acquire :
      (h : Heap) (held path : List NodeRef)
      → last_n_layers (acquire held h) path ≡ last_n_layers h path
  unfolding last_n_layers
  last_n_layers-acquire h held [] = refl
  last_n_layers-acquire h held (n ∷ []) =
      ground (arith, acquire_node held h n, (acquire_rest held h).blob)
  last_n_layers-acquire h held (n ∷ m ∷ ns) = last_n_layers-acquire h held (m ∷ ns)

  -- The calls that a fast-forward makes of the window.
  abbrev pub calls_of : WorldKvConfig → Heap → NodeRef → List (WindowCall P)
  calls_of cfg h n =
      let path = window_path cfg h n in
      seeds h path (h.node n).depth (last_n_layers h path) 0
      ++ set_resume_depth (h.node n).depth ∷ []

  -- If every node of a non-empty window path is published and served, and the window answers the
  -- calls, `materialize` returns true, and the window gets one seed for each layer, with the blobs of
  -- the whole path oldest first, and then the resume depth, and nothing else.
  pub materialize-seeds :
      (window : RollingWindow P) (cfg : WorldKvConfig) (now : ℕ) (h : Heap) (n : NodeRef)
      → length (window_path cfg h n) ≢ 0
      → All (Serves h (last_n_layers h (window_path cfg h n))) (window_path cfg h n)
      → Answers window [] (calls_of cfg h n)
      → ((materialize store window cfg s now h n).1 ≡ calls_of cfg h n)
        × ((materialize store window cfg s now h n).2 ≡ returned true)
  unfolding materialize
  materialize-seeds window cfg now h n some_path serves answers =
      let path = window_path cfg h n in
      let layers = last_n_layers h path in
      let depth = (h.node n).depth in
      let held = acquire path h in
      let same = seeds-acquire h path path depth layers 0 in
      let (seeded, left) =
        seed_layers-Serves window held layers path depth [] (set_resume_depth depth ∷ []) layers 0
          (Serves-acquire h layers path path serves) (omega arith)
          (subst (λ x. Answers window [] (x ++ set_resume_depth depth ∷ [])) (sym same) answers) in
      ground (
        arith,
        some_path,
        any_missing_kv-Serves h layers path serves,
        last_n_layers-acquire h path path,
        seeded,
        left.0,
        same,
      )
