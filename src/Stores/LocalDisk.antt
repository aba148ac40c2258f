-- ===== src/Stores/LocalDisk.antt =====
-- stores/tier.py: `LocalDiskTensorStore`, one file for each key. The SHA-1 of a key, the bytes of a
-- tensor and the view of bytes by a spec are arguments.
pub mod Keeps
use cache_seek.Prelude.{Bool, true, Option, none, some, Text, Bytes, bytes_eq}
use cache_seek.Dict
use cache_seek.Dict.{Dict}
use cache_seek.Stores.LocalFile.{hash_key}
use cache_seek.Stores.TensorTier.{TensorStore}

-- The files under the root, by their name.
pub record LocalDisk : Type 0 where
  pub files : Dict Text Bytes

module _ {T Spec : Type 0} (sha1 : Bytes → Bytes) (raw_of : T → Bytes)
    (view : Spec → Bytes → Option T) where
  -- `hashlib.sha1(key.encode()).hexdigest() + ".bin"`
  abbrev pub path : Text → Text
  path name = hash_key sha1 name

  unfoldable pub put_tensor : LocalDisk → Text → T → LocalDisk
  put_tensor s name t = record s { files = Dict.put s.files (path name) (raw_of t) }

  -- `none` where the bytes do not have the shape and the dtype.
  unfoldable pub get_tensor : LocalDisk → Text → Spec → Option (Option T)
  get_tensor s name spec = elim (Dict.get s.files (path name)) [
    | none ↦ some none
    | some raw ↦ elim (view spec raw) [ none ↦ none | some t ↦ some (some t) ]
  ]

  unfoldable pub put : LocalDisk → Text → Bytes → LocalDisk
  put s name val = record s { files = Dict.put s.files (path name) val }

  unfoldable pub get : LocalDisk → Text → Option Bytes
  get s name = Dict.get s.files (path name)

  -- What `TensorStoreTierStore` calls.
  abbrev pub tensor_store :
      (T → Spec) → (Spec → Bytes) → (Bytes → Option Spec) → TensorStore LocalDisk T Spec
  tensor_store spec_of dumps loads = record {
    put_tensor = λ s name t. (put_tensor s name t, true);
    get_tensor = get_tensor;
    has_bytes = true;
    put_bytes = λ s name x. (put s name x, true);
    get_bytes = λ s name. some (get s name);
    spec_of = spec_of;
    dumps = dumps;
    loads = loads;
  }
