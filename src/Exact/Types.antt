-- ===== src/Exact/Types.antt =====
-- reuse/exact_prefix/types.py, and the storage types of stores/base.py that it re-exports. Nodes
-- and blob handles are mutable and shared, so they live on a heap and are named by references.
use cache_seek.Prelude.{
  ℕ, ◌≡◌, ◌↔◌, Bool, true, false, Option, none, some, Bytes, Text, HasEq, ◌==◌, bytes_eq, nat_eq,
  arith, if◌then◌else◌,
}
use cache_seek.Prelude.Int.{ℤ, int_beq, int_beq_iff}
use cache_seek.Dict.{Dict}

-- `int | str`
pub data ActionKey : Type 0 where
  code : ℤ → ActionKey
  name : Text → ActionKey

abbrev pub action_beq : ActionKey → ActionKey → Bool
action_beq (code a) (code b) = int_beq a b
action_beq (name a) (name b) = a == b
action_beq (code a) (name b) = false
action_beq (name a) (code b) = false

pub action_beq_iff : (a b : ActionKey) → (action_beq a b ≡ true) ↔ (a ≡ b)
action_beq_iff (code a) (code b) = ground (arith, int_beq_iff a b)
action_beq_iff (name a) (name b) = ground (arith, bytes_eq.same_iff a b)
action_beq_iff (code a) (name b) = ground arith
action_beq_iff (name a) (code b) = ground arith

instance abbrev pub action_eq : HasEq ActionKey
action_eq = record { same = action_beq; same_iff = action_beq_iff }

pub data Tier : Type 0 where
  hbm_staging cpu fluxon_dram disk : Tier

pub record BlobHandle : Type 0 where
  pub tier : Tier
  pub locator : Text
  pub nbytes : ℕ
  pub n_layers : ℕ
  pub ready : Bool

-- References to objects on the heap.
abbrev pub NodeRef : Type 0
NodeRef = ℕ

abbrev pub BlobRef : Type 0
BlobRef = ℕ

-- `skeleton` is the `latent_locator` of the node's `Skeleton`; times are ticks of the clock.
pub record TrieNode : Type 0 where
  pub node_key : Bytes
  pub action : ActionKey
  pub depth : ℤ
  pub parent : Option NodeRef
  pub children : Dict ActionKey NodeRef
  pub skeleton : Option Text
  pub blob : Option BlobRef
  pub ref_count : ℕ
  pub last_access : ℕ
  pub pinned : Bool

-- The objects; `next` and `next_blob` are the references that are free.
pub record Heap : Type 0 where
  pub node : NodeRef → TrieNode
  pub next : NodeRef
  pub blob : BlobRef → BlobHandle
  pub next_blob : BlobRef

abbrev pub update {ℓ} : {A : Type ℓ} → (ℕ → A) → ℕ → A → ℕ → A
update f k v j = if nat_eq k j then v else f j

unfoldable pub has_kv : Heap → NodeRef → Bool
has_kv h n = elim (h.node n).blob [ none ↦ false | some b ↦ (h.blob b).ready ]
