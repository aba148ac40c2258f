-- ===== src/Stores/LocalFile/Names.antt =====
-- The file names of `_hash_key` of stores/local_file.py.
use cache_seek.Prelude.{
  ℕ, ◌/◌, ◌%◌, ◌≡◌, refl, [], ◌∷◌, ◌++◌, ap, Bytes, Text, codes, arith, length, length-append,
}
use cache_seek.Keys.Chain.{NoCollision}
use cache_seek.Exact.Ingest.{hex_digit, hex}
use cache_seek.Stores.LocalFile.{utf8, hash_key}

utf8-injective : (us vs : Text) → utf8 us ≡ utf8 vs → us ≡ vs
unfolding utf8
utf8-injective [] [] h = refl
utf8-injective [] (v ∷ vs) h = ground (arith, h)
utf8-injective (u ∷ us) [] h = ground (arith, h)
utf8-injective (u ∷ us) (v ∷ vs) h = ground (arith, h, utf8-injective us vs)

hex_digit-injective : (a b : ℕ) → hex_digit a ≡ hex_digit b → a ≡ b
unfolding hex_digit
hex_digit-injective a b h = ground (arith, h)

hex-injective : (us vs : Bytes) → hex us ≡ hex vs → us ≡ vs
unfolding hex
hex-injective [] [] h = refl
hex-injective [] (v ∷ vs) h = ground (arith, h)
hex-injective (u ∷ us) [] h = ground (arith, h)
hex-injective (u ∷ us) (v ∷ vs) h = ground (
  arith,
  h,
  hex-injective us vs,
  hex_digit-injective (u / 16) (v / 16),
  hex_digit-injective (u % 16) (v % 16),
)

append_suffix : (us vs s : Bytes) → us ++ s ≡ vs ++ s → us ≡ vs
append_suffix [] [] s h = refl
append_suffix [] (v ∷ vs) s h = absurd (omega (arith, ap length h, length-append vs s))
append_suffix (u ∷ us) [] s h = absurd (omega (arith, ap length h, length-append us s))
append_suffix (u ∷ us) (v ∷ vs) s h = ground (arith, h, append_suffix us vs s)

pub hash_key-injective :
    (digest : Bytes → Bytes) (a b : Text)
    → NoCollision digest
    → hash_key digest a ≡ hash_key digest b
    → a ≡ b
unfolding hash_key
hash_key-injective digest a b nc h = utf8-injective a b (
    nc (utf8 a) (utf8 b)
      (hex-injective (digest (utf8 a)) (digest (utf8 b)) (append_suffix _ _ (codes ".bin") h)))
