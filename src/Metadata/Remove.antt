-- ===== src/Metadata/Remove.antt =====
-- `remove_cache` of backends/metadata/local.py.
use cache_seek.Prelude.{
  ◌≡◌, ◌≢◌, refl, Option, none, some, [], ◌∷◌, Text, bytes_eq, beq_refl, arith, inl, inr,
  Option-cases,
}
use cache_seek.Dict
use cache_seek.Dict.{Dict, get-put, get-pop, get-put_self}
use cache_seek.Metadata.{
  IndexEntry, CacheMeta, MetadataManager, save_index, save_meta, bucket, pop_everywhere, pop_typed,
  pop_cache, remove_cache, get_cache_meta,
}

-- Each entry of the index has its metadata, which names the entry's bucket; no bucket is named "".
pub record IsTyped (m : MetadataManager) : Type 0 where
  pub typed :
      (t id : Text) (entry : IndexEntry)
      → Dict.get (bucket m.index t) id ≡ some entry
      → (info : CacheMeta) × (Dict.get m.meta id ≡ some info) × (info.cache_type ≡ t)
  pub named : (id : Text) (info : CacheMeta) → Dict.get m.meta id ≡ some info → info.cache_type ≢ []

get-pop_everywhere :
    (index : Dict Text (Dict Text IndexEntry)) (id t : Text)
    → Dict.get (pop_everywhere index id) t
      ≡ elim (Dict.get index t) as (λ _. Option (Dict Text IndexEntry)) [
        | none ↦ none
        | some entries ↦ some (Dict.pop entries id)
      ]
unfolding Dict.get pop_everywhere
get-pop_everywhere [] id t = refl
get-pop_everywhere ((u, entries) ∷ rest) id t = ground (arith, get-pop_everywhere rest id t)

get-empty : (id : Text) → Dict.get {V = IndexEntry} [] id ≡ none
unfolding Dict.get
get-empty id = refl

pop_everywhere-gone :
    (index : Dict Text (Dict Text IndexEntry)) (id t : Text)
    → Dict.get (bucket (pop_everywhere index id) t) id ≡ none
pop_everywhere-gone index id t = elim (Option-cases (Dict.get index t)) [
  | inl e ↦ ground (arith, get-pop_everywhere index id t, e, get-empty id)
  | inr (entries, e) ↦
      ground (arith, get-pop_everywhere index id t, e, get-pop entries id id, beq_refl id)
]

pop_typed-gone :
    (index : Dict Text (Dict Text IndexEntry)) (own id t : Text)
    → ((entry : IndexEntry) → Dict.get (bucket index t) id ≡ some entry → own ≡ t)
    → Dict.get (bucket (pop_typed index own id) t) id ≡ none
unfolding pop_typed
pop_typed-gone index own id t only = elim (Option-cases (Dict.get index own)) [
  | inl absent ↦ elim (Option-cases (Dict.get (bucket index t) id)) [
    | inl e ↦ ground (arith, absent, e)
    | inr (entry, e) ↦ ground (arith, absent, e, only entry e, get-empty id)
  ]
  | inr (entries, known) ↦ elim (Option-cases (Dict.get (bucket index t) id)) [
    | inl e ↦ ground (
      arith,
      known,
      e,
      get-put index own t (Dict.pop entries id),
      get-pop entries id id,
      beq_refl id,
    )
    | inr (entry, e) ↦ ground (
      arith,
      known,
      only entry e,
      get-put index own t (Dict.pop entries id),
      get-pop entries id id,
      beq_refl id,
      beq_refl own,
    )
  ]
]

own_bucket :
    (m : MetadataManager) (id t : Text) (info : CacheMeta)
    → IsTyped m
    → Dict.get m.meta id ≡ some info
    → (entry : IndexEntry) → Dict.get (bucket m.index t) id ≡ some entry
    → info.cache_type ≡ t
own_bucket m id t info w known entry e =
    let (other, there, at) = w.typed t id entry e in ground (arith, known, there, at)

pop_cache-gone :
    (m : MetadataManager) (id t : Text)
    → IsTyped m
    → Dict.get (bucket (pop_cache m.index (Dict.get m.meta id) id) t) id ≡ none
unfolding pop_cache
pop_cache-gone m id t w = elim (Option-cases (Dict.get m.meta id)) [
  | inl absent ↦ rw (absent, pop_cache) (pop_everywhere-gone m.index id t)
  | inr (info, known) ↦
      rw (known, pop_cache)
        (typed_gone info.cache_type (w.named id info known)
          (λ entry e. own_bucket m id t info w known entry e))
]
  where
    typed_gone :
        (own : Text)
        → own ≢ []
        → ((entry : IndexEntry) → Dict.get (bucket m.index t) id ≡ some entry → own ≡ t)
        → Dict.get
            (bucket
              (elim own [ [] ↦ pop_everywhere m.index id | c ∷ cs ↦ pop_typed m.index (c ∷ cs) id ])
              t)
            id
          ≡ none
    typed_gone [] ne only = absurd (ne refl)
    typed_gone (c ∷ cs) ne only = pop_typed-gone m.index (c ∷ cs) id t only

-- After `remove_cache` the cache has no metadata and is in no bucket of the index, if every entry of
-- the index has metadata with the name of its bucket.
pub remove_cache-gone :
    (m : MetadataManager) (id : Text)
    → IsTyped m
    → (get_cache_meta (remove_cache m id) id ≡ none)
      × ((t : Text) → Dict.get (bucket (remove_cache m id).index t) id ≡ none)
unfolding remove_cache get_cache_meta save_index save_meta
remove_cache-gone m id w = (rw (get-pop, beq_refl id) refl, λ t. pop_cache-gone m id t w)
