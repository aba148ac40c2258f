-- ===== src/Exact/Manager/Window.antt =====
-- `_window_path` of reuse/exact_prefix/manager.py against the path to the virtual root.
use mathlib.Core.Path.{ap₂}
use mathlib.Core.List.{reverse}
use cache_seek.Prelude.{
  ℕ, zero, suc, ◌<◌, ◌≡◌, refl, some, List, [], ◌∷◌, ◌++◌, length, take, drop, arith, if◌then◌else◌,
}
use cache_seek.Prelude.Int.{int_ltb}
use cache_seek.Exact.Types.{Heap, NodeRef}
use cache_seek.Exact.Path.{Spine, length-Spine-le}
use cache_seek.Exact.Config.{WorldKvConfig}
use cache_seek.Exact.Manager.{collect_recent, collect_sinks, window_path}

-- The nodes of a path, latest first, that are sinks.
abbrev pub sinks_of : Heap → ℕ → List NodeRef → List NodeRef
sinks_of h s [] = []
sinks_of h s (n ∷ ps) = if int_ltb (h.node n).depth s then n ∷ sinks_of h s ps else sinks_of h s ps

collect_sinks-Spine :
    (h : Heap) (s fuel : ℕ) {n : NodeRef} {ps : List NodeRef}
    → Spine h n ps
    → length ps < fuel
    → collect_sinks fuel h (some n) s ≡ sinks_of h s ps
unfolding collect_sinks
collect_sinks-Spine h s zero sp lt = elim lt [ ]
collect_sinks-Spine h s (suc fuel) (Spine.root e d) lt = ground arith
collect_sinks-Spine h s (suc fuel) (Spine.step p e d sp) lt =
    ground (arith, collect_sinks-Spine h s fuel sp)

-- With fuel above the path's length the loops collect what is there to collect.
collect-Spine :
    (h : Heap) (w s fuel fuel' : ℕ) {n : NodeRef} {ps : List NodeRef}
    → Spine h n ps
    → length ps < fuel
    → length ps < fuel'
    → ((collect_recent fuel h (some n) w).0 ≡ take w ps)
      × (collect_sinks fuel' h (collect_recent fuel h (some n) w).1 s ≡ sinks_of h s (drop w ps))
unfolding collect_recent
collect-Spine h w s zero fuel' sp lt lt' = elim lt [ ]
collect-Spine h zero s (suc fuel) fuel' sp lt lt' = (refl, collect_sinks-Spine h s fuel' sp lt')
collect-Spine h (suc w) s (suc fuel) fuel' {n} (Spine.root e d) lt lt' =
    ground (arith, collect_sinks-Spine h s fuel' {n = n} (Spine.root e d) lt')
collect-Spine h (suc w) s (suc fuel) fuel' (Spine.step p e d sp) lt lt' =
    ground (arith, collect-Spine h w s fuel fuel' sp)

-- `_window_path` returns, oldest first, the sinks above the window and then the window: the latest
-- `window_chunks` nodes of the path from the virtual root to the node. The fuel is enough.
pub window_path-Spine :
    (cfg : WorldKvConfig) (h : Heap) {n : NodeRef} {ps : List NodeRef}
    → Spine h n ps
    → window_path cfg h n
      ≡ reverse (sinks_of h cfg.sink_chunks (drop cfg.window_chunks ps))
        ++ reverse (take cfg.window_chunks ps)
unfolding window_path
window_path-Spine cfg h {n} {ps} sp =
    let le = length-Spine-le sp in
    let (r, s) =
      collect-Spine h cfg.window_chunks cfg.sink_chunks (suc n) (suc n) sp (omega arith)
        (omega arith) in
    ap₂ (λ x y. reverse x ++ reverse y) s r
