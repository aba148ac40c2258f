-- ===== src/Tests/StoreTests.antt =====
-- The theorems on the byte stores and on the payload, applied to small stores.
use cache_seek.Prelude.{◌≡◌, refl, some, [], ◌∷◌, Bytes, bytes_eq, codes, arith}
use cache_seek.Prelude.Int.{pos, int_eq}
use cache_seek.Dict
use cache_seek.Dict.{Dict}
use cache_seek.Approx.Payload.{tensor, raw, VideoApproxPayload}
use cache_seek.Approx.Payload.RoundTrip.{Once}
use cache_seek.Stores.LocalFile.{LocalFileKvStore, put, get, remove}
use cache_seek.Stores.LocalFile.Refines.{IsIndexed, put-IsIndexed}
use cache_seek.Stores.LocalFile.Agreement.{Agree, put_and_remove-Agree}
use cache_seek.Stores.LocalFile.{indexed}
use cache_seek.Stores.Memory.{memory_get, memory_put, memory_remove}
use cache_seek.Tests.{echo}

abbrev no_files : LocalFileKvStore
no_files = record { index = []; saved_index = []; files = [] }

no_files-IsIndexed : IsIndexed echo no_files
unfolding Dict.get
no_files-IsIndexed = record { named = λ key name h. ground (arith, h); saved = refl }

abbrev one_file : LocalFileKvStore
one_file = put echo no_files (codes "k") (1 ∷ 2 ∷ [])

one_file-IsIndexed : IsIndexed echo one_file
one_file-IsIndexed = put-IsIndexed echo no_files (codes "k") (1 ∷ 2 ∷ []) no_files-IsIndexed

empty-Agree : Agree echo no_files (record { store = [] })
unfolding Dict.get get indexed memory_get
empty-Agree = record { indexed = no_files-IsIndexed; reads = λ key. refl }

put_and_remove-Agree_example :
    Agree echo
      (put echo no_files (codes "k") (1 ∷ []))
      (memory_put (record { store = [] }) (codes "k") (1 ∷ []))
    × Agree echo (remove no_files (codes "k")) (memory_remove (record { store = [] }) (codes "k"))
put_and_remove-Agree_example =
    put_and_remove-Agree echo no_files (record { store = [] }) (codes "k") (1 ∷ []) (λ x y h. h)
      empty-Agree

-- Tensors are byte strings here, serialized behind a header byte.
abbrev pack : Bytes → Bytes
pack t = 128 ∷ t

abbrev unpack : Bytes → Bytes
unpack [] = []
unpack (c ∷ cs) = cs

abbrev two_steps : VideoApproxPayload Bytes
two_steps = record {
  cache_id = codes "a";
  step_to_latents = (pos 5, tensor (1 ∷ [])) ∷ (pos 10, raw (128 ∷ 2 ∷ [])) ∷ [];
}

two_steps-Once : Once pack unpack two_steps.step_to_latents
unfolding Dict.get
two_steps-Once = (refl, (refl, tt))

five_known : Dict.get two_steps.step_to_latents (pos 5) ≡ some (tensor (1 ∷ []))
unfolding Dict.get
five_known = refl
