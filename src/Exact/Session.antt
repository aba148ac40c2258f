-- ===== src/Exact/Session.antt =====
-- The forest under any sequence of the manager's operations, and of the publications that a store
-- with asynchronous writes makes between them.
use cache_seek.Prelude.{ℕ, ◌≡◌, Option, List, Bytes, bytes_eq, arith}
use cache_seek.Prelude.Int.{ℤ}
use cache_seek.Exact.Types.{ActionKey, action_eq, Heap, NodeRef, BlobRef}
use cache_seek.Exact.Config.{WorldKvConfig}
use cache_seek.Exact.Trie.{NamespaceForest, get_or_create_namespace}
use cache_seek.Exact.WellFormed.{IsWellFormed, IsChained, get_or_create_namespace-IsWellFormed}
use cache_seek.Exact.Manager.{RollingWindow, try_fast_forward}
use cache_seek.Exact.Manager.Materialize.{OnlyTouched}
use cache_seek.Exact.Manager.FastForward.{try_fast_forward-OnlyTouched}
use cache_seek.Exact.Ingest.{publish, ingest, evict_blob}
use cache_seek.Exact.Ingest.Invariant.{
  publish-IsWellFormed, ingest-IsWellFormed, evict_blob-IsWellFormed,
}
use cache_seek.Stores.Tier.{KvTierStore}

module _ (digest : Bytes → Bytes) (action_bytes : ActionKey → Bytes) {S P L : Type 0}
    (store : KvTierStore S P L) (window : RollingWindow P) (cfg : WorldKvConfig) where
  -- The forest and the store. The callers chain keys and depths as `build_action_chain` does.
  pub data Step : NamespaceForest × S → NamespaceForest × S → Type 0 where
    create :
        (f : NamespaceForest) (s : S) (root_hash config_hash : Bytes)
        → Step (f, s) ((get_or_create_namespace f root_hash config_hash).0, s)
    write :
        (f : NamespaceForest) (s : S) (parent : NodeRef) (action : ActionKey) (key : Bytes)
        (depth : ℤ) (payload : List P) (latent : L) (nbytes : ℕ) (n_layers : Option ℕ)
        → IsChained digest action_bytes f parent action key depth
        → (r : NamespaceForest × S × NodeRef)
        → r ≡ ingest store cfg s f parent action key depth payload latent nbytes n_layers
        → Step (f, s) (r.0, r.1)
    ready :
        (f : NamespaceForest) (s s' : S) (bs : List BlobRef)
        → Step (f, s) (record f { heap = publish bs f.heap }, s')
    forward :
        (f : NamespaceForest) (s : S) (now : ℕ) (root_hash : Bytes) (actions : List ActionKey)
        → Step (f, s) ((try_fast_forward store window cfg s now f root_hash actions).0, s)
    evict :
        (f : NamespaceForest) (s : S) (n : NodeRef) (r : Heap × S)
        → r ≡ ((evict_blob store s f.heap n).0, (evict_blob store s f.heap n).1)
        → Step (f, s) (record f { heap = r.0 }, r.1)

  pub data Reach (x : NamespaceForest × S) : NamespaceForest × S → Type 0 where
    here : Reach x x
    next : {y z : NamespaceForest × S} → Reach x y → Step y z → Reach x z

  OnlyTouched-IsWellFormed :
      (f g : NamespaceForest)
      → g.namespaces ≡ f.namespaces
      → OnlyTouched f.heap g.heap
      → IsWellFormed digest action_bytes f
      → IsWellFormed digest action_bytes g
  OnlyTouched-IsWellFormed f g en t w = record {
    child = λ m a c lt e.
        let v = w.child m a c (ground (arith, t.next)) (ground (arith, t.node m)) in
        record {
          later = v.later;
          allocated = ground (arith, v, t.next);
          parent = ground (arith, v, t.node c);
          action = ground (arith, v, t.node c);
          depth = ground (arith, v, t.node c, t.node m);
          key = ground (arith, v, t.node c, t.node m);
        };
    root = λ r ns e.
        let v = w.root r ns (ground (arith, en)) in
        record {
          allocated = ground (arith, v, t.next);
          parent = ground (arith, v, t.node ns.root);
          depth = ground (arith, v, t.node ns.root);
          key = ground (arith, v, t.node ns.root);
        };
    handle = λ m b lt e. ground (arith, w.handle m b, t.node m, t.next, t.next_blob);
  }

  Step-IsWellFormed :
      {x y : NamespaceForest × S}
      → Step x y
      → IsWellFormed digest action_bytes x.0
      → IsWellFormed digest action_bytes y.0
  Step-IsWellFormed (create f s r c) w =
      get_or_create_namespace-IsWellFormed digest action_bytes f r c w
  Step-IsWellFormed (write f s parent action key depth payload latent nbytes n_layers fits r e) w =
      rw e (
        ingest-IsWellFormed digest action_bytes store cfg s f parent action key depth payload latent
          nbytes n_layers w fits)
  Step-IsWellFormed (ready f s s' bs) w = publish-IsWellFormed digest action_bytes bs f w
  Step-IsWellFormed (forward f s now r actions) w =
      let (en, t) = try_fast_forward-OnlyTouched store window cfg s now f r actions in
      OnlyTouched-IsWellFormed f (try_fast_forward store window cfg s now f r actions).0 en t w
  Step-IsWellFormed (evict f s n r e) w =
      rw e (evict_blob-IsWellFormed digest action_bytes store s f n w)

  -- Every forest that namespaces, ingests, publications, fast-forwards and evictions, in any order
  -- and number, make from a well-formed one is well formed.
  pub Reach-IsWellFormed :
      {x y : NamespaceForest × S}
      → IsWellFormed digest action_bytes x.0
      → Reach x y
      → IsWellFormed digest action_bytes y.0
  Reach-IsWellFormed w here = w
  Reach-IsWellFormed w (next r st) = Step-IsWellFormed st (Reach-IsWellFormed w r)
