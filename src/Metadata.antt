-- ===== src/Metadata.antt =====
-- backends/metadata/local.py: `LocalCacheMetadataManager`, an index of prompts and the size and
-- access data of each cache. A size in MB is held as its number of bytes; times are whole numbers.
pub mod Remove
pub mod Register
pub mod Stale
use cache_seek.Prelude.{
  ℕ, zero, suc, ◌+◌, ◌-◌, Bool, true, false, not, Option, none, some, List, [], ◌∷◌, Text, bytes_eq,
  codes, ◌==◌, leb, nat_eq, if◌then◌else◌,
}
use cache_seek.Prelude.Int.{ℤ, int_leb, int_beq}
use cache_seek.Dict
use cache_seek.Dict.{Dict}
use cache_seek.Service.Eviction.{sorted}
use cache_seek.Service.Lifecycle.Settings.{strip}

-- `IndexEntry` of service/cache_types.py.
pub record IndexEntry : Type 0 where
  pub cache_id : Text
  pub prompt : Text
  pub saved_steps : List ℤ
  pub cache_type : Text

-- An entry of `_meta`.
pub record CacheMeta : Type 0 where
  pub prompt : Text
  pub saved_steps : List ℤ
  pub size_bytes : ℕ
  pub num_frames : ℤ
  pub access_count : ℕ
  pub last_access_time : ℕ
  pub cache_type : Text

-- `index` and `meta` are in memory, `disk_index` and `disk_meta` what the two files hold.
pub record MetadataManager : Type 0 where
  pub index : Dict Text (Dict Text IndexEntry)
  pub meta : Dict Text CacheMeta
  pub disk_index : Dict Text (Dict Text IndexEntry)
  pub disk_meta : Dict Text CacheMeta
  pub flush_on_record_access : Bool
  pub meta_dirty : Bool

abbrev pub default_cache_type : Text
default_cache_type = codes "approximate_cache"

-- `(cache_id or "").replace("-", "")`
unfoldable pub normalize_cache_id : Text → Text
normalize_cache_id [] = []
normalize_cache_id (c ∷ cs) =
    let rest = normalize_cache_id cs in if nat_eq c 45 then rest else c ∷ rest

unfoldable pub normalize_cache_type : Option Text → Text
normalize_cache_type none = default_cache_type
normalize_cache_type (some t) = elim (strip t) [ [] ↦ default_cache_type | c ∷ cs ↦ c ∷ cs ]

-- `sorted(set(steps))`
unfoldable pub insert_step : ℤ → List ℤ → List ℤ
insert_step s [] = s ∷ []
insert_step s (t ∷ ts) =
    let rest = insert_step s ts in
    if int_beq s t then t ∷ ts else (if int_leb s t then s ∷ t ∷ ts else t ∷ rest)

unfoldable pub sorted_steps : List ℤ → List ℤ
sorted_steps [] = []
sorted_steps (s ∷ ss) = insert_step s (sorted_steps ss)

unfoldable pub save_index : MetadataManager → MetadataManager
save_index m = record m { disk_index = m.index }

unfoldable pub save_meta : MetadataManager → MetadataManager
save_meta m = record m { disk_meta = m.meta; meta_dirty = false }

-- `self._index.get(cache_type, {})`
abbrev pub bucket : Dict Text (Dict Text IndexEntry) → Text → Dict Text IndexEntry
bucket index t = elim (Dict.get index t) [ none ↦ [] | some entries ↦ entries ]

unfoldable pub register_cache :
    ℕ → MetadataManager → Text → Text → List ℤ → ℕ → ℤ → Option Text → MetadataManager
register_cache now m cache_id prompt saved_steps size_bytes num_frames cache_type =
    let t = normalize_cache_type cache_type in
    let steps = sorted_steps saved_steps in
    let entry : IndexEntry = record {
      cache_id = cache_id;
      prompt = prompt;
      saved_steps = steps;
      cache_type = t;
    } in
    let count : ℕ = elim (Dict.get m.meta cache_id) [ none ↦ 0 | some old ↦ old.access_count ] in
    let info : CacheMeta = record {
      prompt = prompt;
      saved_steps = steps;
      size_bytes = size_bytes;
      num_frames = num_frames;
      access_count = count;
      last_access_time = now;
      cache_type = t;
    } in
    save_meta (
      save_index (record m {
        index = Dict.put m.index t (Dict.put (bucket m.index t) cache_id entry);
        meta = Dict.put m.meta cache_id info;
      }))

-- `mapping.pop(cache_id, None)` for every bucket.
unfoldable pub pop_everywhere :
    Dict Text (Dict Text IndexEntry) → Text → Dict Text (Dict Text IndexEntry)
pop_everywhere [] cache_id = []
pop_everywhere ((t, entries) ∷ rest) cache_id =
    (t, Dict.pop entries cache_id) ∷ pop_everywhere rest cache_id

-- `self._index.get(cache_type, {}).pop(cache_id, None)`
unfoldable pub pop_typed :
    Dict Text (Dict Text IndexEntry) → Text → Text → Dict Text (Dict Text IndexEntry)
pop_typed index t cache_id = elim (Dict.get index t) [
  | none ↦ index
  | some entries ↦ Dict.put index t (Dict.pop entries cache_id)
]

-- The index without the cache, by the metadata that was popped.
unfoldable pub pop_cache :
    Dict Text (Dict Text IndexEntry) → Option CacheMeta → Text → Dict Text (Dict Text IndexEntry)
pop_cache index none cache_id = pop_everywhere index cache_id
pop_cache index (some info) cache_id = elim info.cache_type [
  | [] ↦ pop_everywhere index cache_id
  | c ∷ cs ↦ pop_typed index (c ∷ cs) cache_id
]

unfoldable pub remove_cache : MetadataManager → Text → MetadataManager
remove_cache m cache_id = save_meta (
    save_index (record m {
      index = pop_cache m.index (Dict.get m.meta cache_id) cache_id;
      meta = Dict.pop m.meta cache_id;
    }))

-- `_scan`, and the scan of every bucket in turn.
unfoldable pub scan : Dict Text IndexEntry → Text → Option IndexEntry
scan [] prompt = none
scan ((id, entry) ∷ rest) prompt = if entry.prompt == prompt then some entry else scan rest prompt

unfoldable pub scan_all : Dict Text (Dict Text IndexEntry) → Text → Option IndexEntry
scan_all [] prompt = none
scan_all ((t, entries) ∷ rest) prompt = elim (scan entries prompt) [
  | none ↦ scan_all rest prompt
  | some entry ↦ some entry
]

unfoldable pub lookup_prompt : MetadataManager → Text → Option Text → Option IndexEntry
lookup_prompt m prompt cache_type =
    let anywhere =
      elim (scan (bucket m.index default_cache_type) prompt) as (λ _. Option IndexEntry) [
        | none ↦ scan_all m.index prompt
        | some entry ↦ some entry
      ] in
    elim cache_type [
      | none ↦ anywhere
      | some t ↦ elim t [
        | [] ↦ anywhere
        | c ∷ cs ↦ scan (bucket m.index (normalize_cache_type (some (c ∷ cs)))) prompt
      ]
    ]

unfoldable pub get_cache_meta : MetadataManager → Text → Option CacheMeta
get_cache_meta m cache_id = Dict.get m.meta cache_id

unfoldable pub record_access : ℕ → MetadataManager → Text → MetadataManager
record_access now m cache_id =
    let id = normalize_cache_id cache_id in
    elim (Dict.get m.meta id) [
      | none ↦ m
      | some info ↦
          let bumped : MetadataManager = record m {
            meta =
                Dict.put m.meta id
                  (record info { access_count = info.access_count + 1; last_access_time = now });
          } in
          if m.flush_on_record_access then save_meta bumped else record bumped { meta_dirty = true }
    ]

-- Also `shutdown`.
unfoldable pub flush : MetadataManager → MetadataManager
flush m = if m.meta_dirty then save_meta m else m
