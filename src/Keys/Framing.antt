-- ===== src/Keys/Framing.antt =====
-- The length-prefixed framing in `sha256` of reuse/exact_prefix/keys.py.
use native.Mathlib.Nat.{pow-suc}
use cache_seek.Prelude.{
  ℕ, zero, suc, ◌/◌, ◌^◌, ◌<◌, ◌≡◌, refl, sym, ap, ◌∙◌, List, [], ◌∷◌, ◌++◌, Bytes, length, All,
  arith,
}
use cache_seek.Keys.{to_le, from_le, frame}

-- The parts that `len(p).to_bytes(8, …)` accepts.
abbrev pub Fits : Bytes → Type 0
Fits p = length p < 2 ^ 64

from_le-to_le : (w n : ℕ) → n < 256 ^ w → from_le (to_le w n) ≡ n
unfolding to_le from_le
from_le-to_le zero n h = omega arith
from_le-to_le (suc w) n h =
    let low : n / 256 < 256 ^ w = omega (arith, pow-suc 256 w) in
    omega (arith, from_le-to_le w (n / 256) low)

length-to_le : (w n : ℕ) → length (to_le w n) ≡ w
unfolding to_le
length-to_le zero n = refl
length-to_le (suc w) n = ap suc (length-to_le w (n / 256))

-- Lists that begin with parts of one length split in one way.
append-split :
    (xs ys us vs : Bytes) → length xs ≡ length us → xs ++ ys ≡ us ++ vs → (xs ≡ us) × (ys ≡ vs)
append-split [] ys [] vs l h = (refl, h)
append-split [] ys (u ∷ us) vs l h = absurd (omega arith)
append-split (x ∷ xs) ys [] vs l h = absurd (omega arith)
append-split (x ∷ xs) ys (u ∷ us) vs l h = grind (arith, append-split xs ys us vs (omega arith))

-- Two lists of parts, each shorter than 2^64 bytes, that are framed to the same bytes are the same.
pub frame-injective :
    (xs ys : List Bytes) → All Fits xs → All Fits ys → frame xs ≡ frame ys → xs ≡ ys
unfolding frame to_le
frame-injective [] [] hx hy h = refl
frame-injective [] (y ∷ ys) hx hy h = cc
frame-injective (x ∷ xs) [] hx hy h = cc
frame-injective (x ∷ xs) (y ∷ ys) hx hy h =
    let (hl, hr) =
      append-split _ _ _ _ (length-to_le 8 (length x) ∙ sym (length-to_le 8 (length y))) h in
    let l : length x ≡ length y =
      sym (from_le-to_le 8 (length x) hx.0) ∙ ap from_le hl ∙ from_le-to_le 8 (length y) hy.0 in
    let (hp, hs) = append-split x _ y _ l hr in ground (arith, frame-injective xs ys hx.1 hy.1 hs)
