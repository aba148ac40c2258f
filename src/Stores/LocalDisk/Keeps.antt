-- ===== src/Stores/LocalDisk/Keeps.antt =====
-- `LocalDiskTensorStore` of stores/tier.py keeps what was put, behind `TensorStoreTierStore`.
use cache_seek.Prelude.{
  ◌≡◌, refl, ap, ◌∙◌, false, Option, none, some, Text, Bytes, bytes_eq, ◌==◌, arith,
}
use cache_seek.Dict
use cache_seek.Dict.{Dict, get-put}
use cache_seek.Keys.Chain.{NoCollision}
use cache_seek.Stores.LocalFile.{hash_key}
use cache_seek.Stores.LocalFile.Names.{hash_key-injective}
use cache_seek.Stores.TensorTier.Layers.{TensorLaws}
use cache_seek.Stores.LocalDisk.{LocalDisk, put_tensor, get_tensor, put, get, tensor_store}

-- Two keys have two files.
two_files :
    (sha1 : Bytes → Bytes) (a b : Text)
    → NoCollision sha1
    → (a == b) ≡ false
    → (hash_key sha1 a == hash_key sha1 b) ≡ false
two_files sha1 a b nc ne = ground (
  arith,
  ne,
  bytes_eq.same_iff a b,
  bytes_eq.same_iff (hash_key sha1 a) (hash_key sha1 b),
  hash_key-injective sha1 a b nc,
)

get-put_other :
    (d : Dict Text Bytes) (sha1 : Bytes → Bytes) (a b : Text) (x : Bytes)
    → NoCollision sha1
    → (a == b) ≡ false
    → Dict.get (Dict.put d (hash_key sha1 a) x) (hash_key sha1 b) ≡ Dict.get d (hash_key sha1 b)
get-put_other d sha1 a b x nc ne =
    ground (arith, get-put d (hash_key sha1 a) (hash_key sha1 b) x, two_files sha1 a b nc ne)

module _ {T Spec : Type 0} (sha1 : Bytes → Bytes) (raw_of : T → Bytes)
    (view : Spec → Bytes → Option T) (spec_of : T → Spec) (dumps : Spec → Bytes)
    (loads : Bytes → Option Spec) (nc : NoCollision sha1)
    (views : (t : T) → view (spec_of t) (raw_of t) ≡ some t) where
  abbrev Holds : LocalDisk → Text → T → Type 0
  Holds s name t = Dict.get s.files (hash_key sha1 name) ≡ some (raw_of t)

  put_tensor-Holds :
      (s : LocalDisk) (name : Text) (t : T) → Holds (put_tensor sha1 raw_of view s name t) name t
  unfolding put_tensor
  put_tensor-Holds s name t = Dict.get-put_self s.files (hash_key sha1 name) (raw_of t)

  put_keeps :
      (s : LocalDisk) (a : Text) (t : T) (b : Text) (u : T)
      → (a == b) ≡ false
      → Holds s b u
      → Holds (put_tensor sha1 raw_of view s a t) b u
  unfolding put_tensor
  put_keeps s a t b u ne holds = get-put_other s.files sha1 a b (raw_of t) nc ne ∙ holds

  bytes_keep :
      (s : LocalDisk) (a : Text) (x : Bytes) (b : Text) (u : T)
      → (a == b) ≡ false
      → Holds s b u
      → Holds (put sha1 raw_of view s a x) b u
  unfolding put
  bytes_keep s a x b u ne holds = get-put_other s.files sha1 a b x nc ne ∙ holds

  bytes_put :
      (s : LocalDisk) (a : Text) (t : T) (b : Text)
      → (a == b) ≡ false
      → get sha1 raw_of view (put_tensor sha1 raw_of view s a t) b ≡ get sha1 raw_of view s b
  unfolding put_tensor get
  bytes_put s a t b ne = get-put_other s.files sha1 a b (raw_of t) nc ne

  bytes_bytes :
      (s : LocalDisk) (a : Text) (x : Bytes) (b : Text)
      → (a == b) ≡ false
      → get sha1 raw_of view (put sha1 raw_of view s a x) b ≡ get sha1 raw_of view s b
  unfolding put get
  bytes_bytes s a x b ne = get-put_other s.files sha1 a b x nc ne

  reads :
      (s : LocalDisk) (name : Text) (t : T)
      → Holds s name t
      → get_tensor sha1 raw_of view s name (spec_of t) ≡ some (some t)
  unfolding get_tensor
  reads s name t holds =
      ap
        (λ (o : Option Bytes). elim o as (λ _. Option (Option T)) [
          | none ↦ some none
          | some raw ↦ elim (view (spec_of t) raw) [ none ↦ none | some u ↦ some (some u) ]
        ])
        holds
      ∙ ap
          (λ (o : Option T). elim o as (λ _. Option (Option T)) [
            | none ↦ none
            | some u ↦ some (some u)
          ])
          (views t)

  pub tensor_store-TensorLaws : TensorLaws (tensor_store sha1 raw_of view spec_of dumps loads)
  unfolding get
  tensor_store-TensorLaws = record {
    Holds = Holds;
    put_holds = λ s name t ok. put_tensor-Holds s name t;
    put_keeps = put_keeps;
    bytes_keep = bytes_keep;
    bytes_at = get sha1 raw_of view;
    bytes_put = bytes_put;
    bytes_bytes = bytes_bytes;
    gets = λ s name. refl;
    reads = reads;
  }
