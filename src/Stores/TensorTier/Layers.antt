-- ===== src/Stores/TensorTier/Layers.antt =====
-- The layers that `TensorStoreTierStore` of stores/tier.py reads back.
use mathlib.Core.Path.{subst}
use cache_seek.Prelude.{
  ◌≡◌, refl, sym, ap, ◌∙◌, Bool, true, false, Option, some, List, [], ◌∷◌, ◌++◌, Text, Bytes,
  bytes_eq, ◌==◌, beq_refl, codes, arith, inl, inr, All, Bool-cases, if◌then◌else◌,
}
use cache_seek.Dict
use cache_seek.Dict.{get-put}
use cache_seek.Stores.TensorTier.{TensorStore, TensorTier, put_sidecar, put_one, put_entries}

-- What the tensor store has under its keys; a read needs the spec of the tensor.
pub record TensorLaws {B T Spec : Type 0} (store : TensorStore B T Spec) : Type 1 where
  pub Holds : B → Text → T → Type 0
  pub put_holds :
      (b : B) (key : Text) (t : T)
      → (store.put_tensor b key t).1 ≡ true
      → Holds (store.put_tensor b key t).0 key t
  pub put_keeps :
      (b : B) (key : Text) (t : T) (j : Text) (u : T)
      → (key == j) ≡ false
      → Holds b j u
      → Holds (store.put_tensor b key t).0 j u
  pub bytes_keep :
      (b : B) (key : Text) (x : Bytes) (j : Text) (u : T)
      → (key == j) ≡ false
      → Holds b j u
      → Holds (store.put_bytes b key x).0 j u
  pub bytes_at : B → Text → Option Bytes
  pub bytes_put :
      (b : B) (key : Text) (t : T) (j : Text)
      → (key == j) ≡ false
      → bytes_at (store.put_tensor b key t).0 j ≡ bytes_at b j
  pub bytes_bytes :
      (b : B) (key : Text) (x : Bytes) (j : Text)
      → (key == j) ≡ false
      → bytes_at (store.put_bytes b key x).0 j ≡ bytes_at b j
  pub gets : (b : B) (key : Text) → store.get_bytes b key ≡ some (bytes_at b key)
  pub reads :
      (b : B) (key : Text) (t : T)
      → Holds b key t
      → store.get_tensor b key (store.spec_of t) ≡ some (some t)

module _ {B T Spec : Type 0} (store : TensorStore B T Spec) (laws : TensorLaws store) where
  abbrev S : Type 0
  S = TensorTier B T Spec

  -- A tensor can be read under the key.
  abbrev pub Placed : S → Text → T → Type 0
  Placed s key t = (Dict.get s.specs key ≡ some (store.spec_of t)) × laws.Holds s.tensors key t

  -- The key is not that of an entry or of its sidecar.
  abbrev pub IsClear : Text → Text × T → Type 0
  IsClear key entry = ((entry.0 == key) ≡ false) × ((entry.0 ++ codes ":spec" == key) ≡ false)

  put_sidecar-Clear :
      (has : Bool) (b : B) (j key : Text) (spec : Spec) (t : T)
      → (j ++ codes ":spec" == key) ≡ false
      → laws.Holds b key t
      → laws.Holds (put_sidecar store has b j spec) key t
  unfolding put_sidecar
  put_sidecar-Clear false b j key spec t clear holds = holds
  put_sidecar-Clear true b j key spec t clear holds =
      laws.bytes_keep b (j ++ codes ":spec") (store.dumps spec) key t clear holds

  specs-put_one :
      (s : S) (j key : Text) (u : T)
      → (j == key) ≡ false
      → Dict.get (put_one store s j u).0.specs key ≡ Dict.get s.specs key
  unfolding put_one
  specs-put_one s j key u other = ground (arith, other, get-put s.specs j key (store.spec_of u))

  -- A put touches no other key.
  put_one-Clear :
      (s : S) (j key : Text) (u t : T)
      → IsClear key (j, u)
      → laws.Holds s.tensors key t
      → laws.Holds (put_one store s j u).0.tensors key t
  unfolding put_one
  put_one-Clear s j key u t (other, sidecar) holds =
      let b = (store.put_tensor s.tensors j u).0 in
      let kept = laws.put_keeps s.tensors j u key t other holds in
      elim (Bool-cases (store.put_tensor s.tensors j u).1) [
        | inl e ↦ rw e (put_sidecar-Clear store.has_bytes b j key (store.spec_of u) t sidecar kept)
        | inr e ↦ rw e kept
      ]

  bytes-put_sidecar :
      (has : Bool) (b : B) (j key : Text) (spec : Spec)
      → (j ++ codes ":spec" == key) ≡ false
      → laws.bytes_at (put_sidecar store has b j spec) key ≡ laws.bytes_at b key
  unfolding put_sidecar
  bytes-put_sidecar false b j key spec clear = refl
  bytes-put_sidecar true b j key spec clear =
      laws.bytes_bytes b (j ++ codes ":spec") (store.dumps spec) key clear

  bytes-put_one :
      (s : S) (j key : Text) (u : T)
      → IsClear key (j, u)
      → laws.bytes_at (put_one store s j u).0.tensors key ≡ laws.bytes_at s.tensors key
  unfolding put_one
  bytes-put_one s j key u (other, sidecar) =
      let b = (store.put_tensor s.tensors j u).0 in
      let law = laws.bytes_put s.tensors j u key other in
      elim (Bool-cases (store.put_tensor s.tensors j u).1) [
        | inl e ↦ rw e (bytes-put_sidecar store.has_bytes b j key (store.spec_of u) sidecar ∙ law)
        | inr e ↦ rw e law
      ]

  pub bytes-put_entries :
      (s : S) (entries : List (Text × T)) (key : Text)
      → All (IsClear key) entries
      → laws.bytes_at (put_entries store s entries).0.tensors key ≡ laws.bytes_at s.tensors key
  unfolding put_entries
  bytes-put_entries s [] key h = refl
  bytes-put_entries s ((j, u) ∷ entries) key (clear, rest) =
      let now = bytes-put_one s j key u clear in
      elim (Bool-cases (put_one store s j u).1) [
        | inl e ↦ rw e (bytes-put_entries (put_one store s j u).0 entries key rest ∙ now)
        | inr e ↦ rw e now
      ]

  put_one-Placed :
      (s : S) (key : Text) (t : T)
      → (key ++ codes ":spec" == key) ≡ false
      → (put_one store s key t).1 ≡ true
      → Placed (put_one store s key t).0 key t
  unfolding put_one
  put_one-Placed s key t sidecar ok =
      let spec = store.spec_of t in
      let b = (store.put_tensor s.tensors key t).0 in
      (
        ground (arith, get-put s.specs key key spec, beq_refl key),
        rw ok (
            put_sidecar-Clear store.has_bytes b key key spec t sidecar
              (laws.put_holds s.tensors key t ok)),
      )

  pub specs-put_entries :
      (s : S) (entries : List (Text × T)) (key : Text)
      → All (IsClear key) entries
      → Dict.get (put_entries store s entries).0.specs key ≡ Dict.get s.specs key
  unfolding put_entries
  specs-put_entries s [] key h = refl
  specs-put_entries s ((j, u) ∷ entries) key (clear, rest) =
      let now = specs-put_one s j key u clear.0 in
      elim (Bool-cases (put_one store s j u).1) [
        | inl e ↦ rw e (specs-put_entries (put_one store s j u).0 entries key rest ∙ now)
        | inr e ↦ rw e now
      ]

  put_entries-Clear :
      (s : S) (entries : List (Text × T)) (key : Text) (t : T)
      → All (IsClear key) entries
      → laws.Holds s.tensors key t
      → laws.Holds (put_entries store s entries).0.tensors key t
  unfolding put_entries
  put_entries-Clear s [] key t h holds = holds
  put_entries-Clear s ((j, u) ∷ entries) key t (clear, rest) holds =
      let now = put_one-Clear s j key u t clear holds in
      elim (Bool-cases (put_one store s j u).1) [
        | inl e ↦ rw e (put_entries-Clear (put_one store s j u).0 entries key t rest now)
        | inr e ↦ rw e now
      ]

  -- No entry's key, and no sidecar's, is that of a later one.
  abbrev pub Apart : List (Text × T) → Type 0
  Apart [] = Unit
  Apart ((key, t) ∷ entries) =
      ((key ++ codes ":spec" == key) ≡ false) × All (IsClear key) entries × Apart entries

  abbrev pub AllPlaced : S → List (Text × T) → Type 0
  AllPlaced s entries = All (λ entry. Placed s entry.0 entry.1) entries

  -- The entries behind one whose put did not raise.
  put_entries_step :
      (s : S) (key : Text) (t : T) (entries : List (Text × T))
      → (put_one store s key t).1 ≡ true
      → put_entries store s ((key, t) ∷ entries)
        ≡ put_entries store (put_one store s key t).0 entries
  unfolding put_entries
  put_entries_step s key t entries e =
      ap
        (λ b.
          if b
          then put_entries store (put_one store s key t).0 entries
          else ((put_one store s key t).0, false))
        e

  put_entries_first :
      (s : S) (key : Text) (t : T) (entries : List (Text × T))
      → (put_entries store s ((key, t) ∷ entries)).1 ≡ true
      → (put_one store s key t).1 ≡ true
  unfolding put_entries
  put_entries_first s key t entries = elim (Bool-cases (put_one store s key t).1) [
    | inl e ↦ λ ok. e
    | inr e ↦ rw e λ ok. ground (arith, ok)
  ]

  pub put_entries-AllPlaced :
      (s : S) (entries : List (Text × T))
      → Apart entries
      → (put_entries store s entries).1 ≡ true
      → AllPlaced (put_entries store s entries).0 entries
  put_entries-AllPlaced s [] apart ok = tt
  put_entries-AllPlaced s ((key, t) ∷ entries) (sidecar, clear, apart) ok =
      let s' = (put_one store s key t).0 in
      let e = put_entries_first s key t entries ok in
      let step = put_entries_step s key t entries e in
      let placed = put_one-Placed s key t sidecar e in
      subst (λ r. Placed r.0 key t × AllPlaced r.0 entries) (sym step)
        (
          (
            specs-put_entries s' entries key clear ∙ placed.0,
            put_entries-Clear s' entries key t clear placed.1,
          ),
          put_entries-AllPlaced s' entries apart (sym (ap (λ r. r.1) step) ∙ ok),
        )
