-- ===== src/Metadata/Register.antt =====
-- `register_cache` and `record_access` of backends/metadata/local.py.
use cache_seek.Prelude.{
  ℕ, ◌+◌, ◌≡◌, ◌≢◌, Option, none, some, List, [], ◌∷◌, Text, bytes_eq, ◌==◌, beq_refl, arith, inl,
  inr, Option-cases, Bool-cases, ◌&&◌, if◌then◌else◌,
}
use cache_seek.Prelude.Int.{ℤ}
use cache_seek.Dict
use cache_seek.Dict.{Dict, get-put, get-pop, get-put_self}
use cache_seek.Service.Lifecycle.Settings.{strip}
use cache_seek.Metadata.{
  IndexEntry, CacheMeta, MetadataManager, normalize_cache_id, normalize_cache_type, sorted_steps,
  save_index, save_meta, bucket, register_cache, get_cache_meta, record_access,
}
use cache_seek.Metadata.Remove.{IsTyped}

pub normalize_cache_type-nonempty : (t : Option Text) → normalize_cache_type t ≢ []
unfolding normalize_cache_type
normalize_cache_type-nonempty none = λ h. ground (arith, h)
normalize_cache_type-nonempty (some t) = λ h.
    elim (strip t)
        as (λ u.
          elim u as (λ _. Text) [ [] ↦ normalize_cache_type none | c ∷ cs ↦ c ∷ cs ] ≡ [] → ⊥) [
            | [] ↦ λ e. ground (arith, e)
            | c ∷ cs ↦ λ e. ground (arith, e)
          ]
      h

-- The index entry that `register_cache` writes.
abbrev pub entry_of : Text → Text → List ℤ → Option Text → IndexEntry
entry_of id prompt steps cache_type = record {
  cache_id = id;
  prompt = prompt;
  saved_steps = sorted_steps steps;
  cache_type = normalize_cache_type cache_type;
}

-- The access count that a registration keeps.
abbrev pub count_of : MetadataManager → Text → ℕ
count_of m id = elim (Dict.get m.meta id) [ none ↦ 0 | some old ↦ old.access_count ]

module _ (now : ℕ) (m : MetadataManager) (id prompt : Text) (steps : List ℤ) (size : ℕ) (frames : ℤ)
    (cache_type : Option Text) where
  abbrev pub after : MetadataManager
  after = register_cache now m id prompt steps size frames cache_type

  -- The metadata that `register_cache` writes.
  abbrev pub written : CacheMeta
  written = record {
    prompt = prompt;
    saved_steps = sorted_steps steps;
    size_bytes = size;
    num_frames = frames;
    access_count = count_of m id;
    last_access_time = now;
    cache_type = normalize_cache_type cache_type;
  }

  pub register-bucket :
      (t other : Text)
      → Dict.get (bucket after.index t) other ≡ (
          if normalize_cache_type cache_type == t && id == other
          then some (entry_of id prompt steps cache_type)
          else Dict.get (bucket m.index t) other)
  unfolding register_cache save_index save_meta
  register-bucket t other =
      let own = normalize_cache_type cache_type in
      let entries = bucket m.index own in
      ground (
        arith,
        get-put m.index own t (Dict.put entries id (entry_of id prompt steps cache_type)),
        get-put entries id other (entry_of id prompt steps cache_type),
        bytes_eq.same_iff own t,
      )

  register-meta :
      (other : Text)
      → Dict.get after.meta other ≡ (if id == other then some written else Dict.get m.meta other)
  unfolding register_cache save_index save_meta
  register-meta other = get-put m.meta id other written

  pub written-known : Dict.get after.meta id ≡ some written
  written-known = ground (arith, register-meta id, beq_refl id)

  named_after :
      IsTyped m
      → (other : Text) (info : CacheMeta) → Dict.get after.meta other ≡ some info
      → info.cache_type ≢ []
  named_after w other info e = elim (Bool-cases (id == other)) [
    | inl own ↦
        ground (arith, own, e, register-meta other, normalize_cache_type-nonempty cache_type)
    | inr else_ ↦ ground (arith, else_, e, register-meta other, w.named other info)
  ]

  typed_after :
      IsTyped m
      → ((info : CacheMeta)
          → Dict.get m.meta id ≡ some info
          → info.cache_type ≡ normalize_cache_type cache_type)
      → (t other : Text) (entry : IndexEntry) → Dict.get (bucket after.index t) other ≡ some entry
      → (info : CacheMeta) × (Dict.get after.meta other ≡ some info) × (info.cache_type ≡ t)
  typed_after w same t other entry e =
      let own = normalize_cache_type cache_type in
      elim (Bool-cases (own == t)) [
        | inl here ↦ elim (Bool-cases (id == other)) [
          | inl this ↦
              (written, ground (arith, this, register-meta other), (bytes_eq.same_iff own t).0 here)
          | inr that ↦
              let (info, known, at) =
                w.typed t other entry (ground (arith, e, here, that, register-bucket t other)) in
              (info, ground (arith, that, known, register-meta other), at)
        ]
        | inr there ↦
            let (info, known, at) =
              w.typed t other entry (ground (arith, e, there, register-bucket t other)) in
            elim (Bool-cases (id == other)) [
              | inl this ↦ absurd (
                  ground (
                    arith,
                    there,
                    this,
                    known,
                    at,
                    same info,
                    bytes_eq.same_iff own t,
                    bytes_eq.same_iff id other,
                  ))
              | inr that ↦ (info, ground (arith, that, known, register-meta other), at)
            ]
      ]

  -- A registration keeps the metadata in step with the index, if the cache was not registered
  -- before, or with the same type.
  pub register_cache-IsTyped :
      IsTyped m
      → ((info : CacheMeta)
          → Dict.get m.meta id ≡ some info
          → info.cache_type ≡ normalize_cache_type cache_type)
      → IsTyped after
  register_cache-IsTyped w same = record { typed = typed_after w same; named = named_after w }

-- `record_access` adds one to the count of the cache with the normalized id, if it is registered,
-- and sets its time; the data of every other cache stays.
pub record_access_lem :
    (now : ℕ) (m : MetadataManager) (cache_id other : Text)
    → get_cache_meta (record_access now m cache_id) other ≡ (
        if normalize_cache_id cache_id == other
        then elim (Dict.get m.meta other) as (λ _. Option CacheMeta) [
          | none ↦ none
          | some info ↦
              some (record info { access_count = info.access_count + 1; last_access_time = now })
        ]
        else get_cache_meta m other)
unfolding record_access get_cache_meta save_meta
record_access_lem now m cache_id other =
    elim (Option-cases (Dict.get m.meta (normalize_cache_id cache_id))) [
      | inl absent ↦ ground (arith, absent, bytes_eq.same_iff (normalize_cache_id cache_id) other)
      | inr (info, known) ↦ ground (
        arith,
        known,
        bytes_eq.same_iff (normalize_cache_id cache_id) other,
        get-put m.meta (normalize_cache_id cache_id) other
            (record info { access_count = info.access_count + 1; last_access_time = now }),
      )
    ]
