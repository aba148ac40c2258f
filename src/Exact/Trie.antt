-- ===== src/Exact/Trie.antt =====
-- reuse/exact_prefix/trie.py: the forest of namespaces, each with one trie of actions.
pub mod Lookup
pub mod Commit
pub mod Extend
use cache_seek.Prelude.{
  ℕ, zero, suc, ◌+◌, Bool, true, false, not, ◌||◌, Option, none, some, List, [], ◌∷◌, Bytes,
  bytes_eq, ◌==◌, if◌then◌else◌,
}
use cache_seek.Prelude.Int.{ℤ, pos, negsuc}
use cache_seek.Dict
use cache_seek.Dict.{Dict}
use cache_seek.Exact.Types.{
  ActionKey, code, Tier, BlobHandle, action_eq, TrieNode, Heap, NodeRef, BlobRef, update, has_kv,
}

-- `root` is the virtual root; the lock is held for one operation and has no value of its own.
pub record Namespace : Type 0 where
  pub root_hash : Bytes
  pub config_blob_hash : Bytes
  pub root : NodeRef
  pub pinned : Bool

pub record PrefixMatch : Type 0 where
  pub namespace : Option Namespace
  pub node : Option NodeRef
  pub matched_len : ℕ

pub record NamespaceForest : Type 0 where
  pub heap : Heap
  pub open heap use *
  pub namespaces : Dict Bytes Namespace

-- `TrieNode(node_key=…, action=…, depth=…, parent=…, pinned=…)`
abbrev pub new_node : Bytes → ActionKey → ℤ → Option NodeRef → Bool → TrieNode
new_node key action depth parent pinned = record {
  node_key = key;
  action = action;
  depth = depth;
  parent = parent;
  children = [];
  skeleton = none;
  blob = none;
  ref_count = 0;
  last_access = 0;
  pinned = pinned;
}

-- `NamespaceForest()`. What stands at a reference that is free is never read.
abbrev pub empty_forest : NamespaceForest
empty_forest = record {
  heap = record {
    node = λ n. new_node [] (code (pos 0)) (pos 0) none false;
    next = 0;
    blob = λ b. record { tier = Tier.cpu; locator = []; nbytes = 0; n_layers = 0; ready = false };
    next_blob = 0;
  };
  namespaces = [];
}

unfoldable pub get_or_create_namespace :
    NamespaceForest → Bytes → Bytes → NamespaceForest × Namespace
get_or_create_namespace f root_hash config_blob_hash = elim (Dict.get f.namespaces root_hash) [
  | some ns ↦ (f, ns)
  | none ↦
      let ns : Namespace = record {
        root_hash = root_hash;
        config_blob_hash = config_blob_hash;
        root = f.next;
        pinned = false;
      } in
      let root = new_node root_hash (code (negsuc 0)) (negsuc 0) none true in
      (
        record {
          heap = record f.heap { node = update f.node f.next root; next = suc f.next };
          namespaces = Dict.put f.namespaces root_hash ns;
        },
        ns,
      )
]

-- `child is None or not child.has_kv or child.action != a`, negated, with the child.
unfoldable pub ready_child : Heap → NodeRef → ActionKey → Option NodeRef
ready_child h n a = elim (Dict.get (h.node n).children a) [
  | none ↦ none
  | some c ↦ if not (has_kv h c) || not ((h.node c).action == a) then none else some c
]

-- The loop of `lookup`.
unfoldable pub descend : Heap → NodeRef → ℕ → List ActionKey → NodeRef × ℕ
descend h n k [] = (n, k)
descend h n k (a ∷ rest) = elim (ready_child h n a) [
  | none ↦ (n, k)
  | some c ↦ descend h c (k + 1) rest
]

unfoldable pub lookup : NamespaceForest → Bytes → List ActionKey → PrefixMatch
lookup f root_hash actions = elim (Dict.get f.namespaces root_hash) [
  | none ↦ record { namespace = none; node = none; matched_len = 0 }
  | some ns ↦
      let (n, k) = descend f.heap ns.root 0 actions in
      record { namespace = some ns; node = some n; matched_len = k }
]

unfoldable pub commit :
    NamespaceForest → NodeRef → ActionKey → Bytes → ℤ → NamespaceForest × NodeRef
commit f parent action key depth = elim (Dict.get (f.node parent).children action) [
  | some existing ↦ (f, existing)
  | none ↦
      let child = new_node key action depth (some parent) false in
      let p = f.node parent in
      let linked = record p { children = Dict.put p.children action f.next } in
      (
        record f {
          heap = record f.heap {
            node = update (update f.node f.next child) parent linked;
            next = suc f.next;
          };
        },
        f.next,
      )
]
