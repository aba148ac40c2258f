-- ===== src/Metadata/Stale.antt =====
-- `remove_cache` of backends/metadata/local.py, of a cache that was registered under two types.
use cache_seek.Prelude.{
  ℕ, ◌≡◌, ◌≢◌, refl, sym, ap, ◌∙◌, Option, some, List, [], ◌∷◌, Text, bytes_eq, beq_refl, arith,
  inl, inr, Option-cases,
}
use cache_seek.Prelude.Int.{ℤ}
use cache_seek.Dict
use cache_seek.Dict.{Dict, get-put, get-pop, get-put_self}
use cache_seek.Metadata.{
  IndexEntry, CacheMeta, MetadataManager, normalize_cache_type, save_index, save_meta, bucket,
  register_cache, pop_everywhere, pop_typed, pop_cache, remove_cache,
}
use cache_seek.Metadata.Register.{
  normalize_cache_type-nonempty, entry_of, written, written-known, register-bucket,
}

pop_typed-other :
    (index : Dict Text (Dict Text IndexEntry)) (own t id : Text)
    → own ≢ t
    → bucket (pop_typed index own id) t ≡ bucket index t
unfolding pop_typed
pop_typed-other index own t id apart = elim (Option-cases (Dict.get index own)) [
  | inl absent ↦ ground (arith, absent)
  | inr (entries, known) ↦
      ground
        (arith, known, get-put index own t (Dict.pop entries id), bytes_eq.same_iff own t, apart)
]

pop_cache-typed :
    (index : Dict Text (Dict Text IndexEntry)) (info : CacheMeta) (id : Text)
    → info.cache_type ≢ []
    → pop_cache index (some info) id ≡ pop_typed index info.cache_type id
unfolding pop_cache
pop_cache-typed index info id ne = nonempty info.cache_type ne
  where
    nonempty :
        (own : Text)
        → own ≢ []
        → elim own as (λ _. Dict Text (Dict Text IndexEntry)) [
          | [] ↦ pop_everywhere index id
          | c ∷ cs ↦ pop_typed index (c ∷ cs) id
        ]
          ≡ pop_typed index own id
    nonempty [] ne = absurd (ne refl)
    nonempty (c ∷ cs) ne = refl

remove_cache-index :
    (m : MetadataManager) (id : Text) (info : CacheMeta)
    → Dict.get m.meta id ≡ some info
    → info.cache_type ≢ []
    → (remove_cache m id).index ≡ pop_typed m.index info.cache_type id
unfolding remove_cache save_index save_meta
remove_cache-index m id info known ne =
    ap (λ o. pop_cache m.index o id) known ∙ pop_cache-typed m.index info id ne

-- A cache that is registered twice under different types and then removed stays in the index under
-- the first type.
pub register_cache-stale :
    (now : ℕ) (m : MetadataManager) (id prompt : Text) (steps : List ℤ) (size : ℕ) (frames : ℤ)
    (first second : Option Text)
    → normalize_cache_type first ≢ normalize_cache_type second
    → Dict.get
        (bucket
          (remove_cache
            (register_cache now
              (register_cache now m id prompt steps size frames first)
              id
              prompt
              steps
              size
              frames
              second)
            id).index
          (normalize_cache_type first))
        id
      ≡ some (entry_of id prompt steps first)
register_cache-stale now m id prompt steps size frames first second apart =
    let m1 = register_cache now m id prompt steps size frames first in
    let m2 = register_cache now m1 id prompt steps size frames second in
    let t = normalize_cache_type first in
    let u = normalize_cache_type second in
    let info = written now m1 id prompt steps size frames second in
    let gone =
      remove_cache-index m2 id info (written-known now m1 id prompt steps size frames second)
        (normalize_cache_type-nonempty second) in
    let rest = pop_typed-other m2.index u t id (λ e. apart (sym e)) in
    ground (
      arith,
      ap (λ index. bucket index t) gone,
      rest,
      register-bucket now m1 id prompt steps size frames second t id,
      register-bucket now m id prompt steps size frames first t id,
      beq_refl t,
      beq_refl id,
      bytes_eq.same_iff u t,
      apart,
    )
