-- ===== src/Keys.antt =====
-- reuse/exact_prefix/keys.py: content-addressed keys. `digest` is SHA-256 of a whole message, of
-- hashlib; `canonical` is `canonical_json_bytes` of the configuration, by the json library.
pub mod Framing
pub mod Chain
use cache_seek.Prelude.{
  ℕ, zero, suc, ◌+◌, ◌*◌, ◌/◌, ◌%◌, List, [], ◌∷◌, ◌++◌, Bytes, codes, length, take,
}

-- `n.to_bytes(width, "little")`, for n < 256 ^ width.
unfoldable pub to_le : ℕ → ℕ → Bytes
to_le zero n = []
to_le (suc width) n = n % 256 ∷ to_le width (n / 256)

-- `int.from_bytes(bs, "little")`
unfoldable pub from_le : Bytes → ℕ
from_le [] = 0
from_le (b ∷ bs) = b + 256 * from_le bs

-- What the loop of `sha256` feeds to the hash: each part behind its length.
unfoldable pub frame : List Bytes → Bytes
frame [] = []
frame (p ∷ ps) = to_le 8 (length p) ++ (p ++ frame ps)

module _ (digest : Bytes → Bytes) where
  unfoldable pub sha256 : List Bytes → Bytes
  sha256 parts = digest (frame parts)

  unfoldable pub config_blob_hash : Bytes → Bytes → Bytes
  unfolding sha256
  config_blob_hash canonical weights_fingerprint =
      sha256 (codes "cfg" ∷ canonical ∷ weights_fingerprint ∷ [])

  unfoldable pub root_hash : Bytes → Bytes → Bytes → Bytes
  unfolding sha256
  root_hash image_fp prompt_fp config_hash =
      sha256 (codes "root" ∷ image_fp ∷ prompt_fp ∷ config_hash ∷ [])

  unfoldable pub node_key : Bytes → Bytes → Bytes
  unfolding sha256
  node_key parent_node_key action_bytes =
      sha256 (codes "node" ∷ parent_node_key ∷ action_bytes ∷ [])

  -- `prev` is the loop's variable.
  unfoldable pub build_action_chain : Bytes → List Bytes → List Bytes
  build_action_chain prev [] = []
  build_action_chain prev (ab ∷ abs) = let k = node_key prev ab in k ∷ build_action_chain k abs

  unfoldable pub derive_seed : Bytes → ℕ
  unfolding sha256
  derive_seed node_key_bytes = from_le (take 8 (sha256 (codes "seed" ∷ node_key_bytes ∷ [])))
