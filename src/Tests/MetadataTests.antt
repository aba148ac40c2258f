-- ===== src/Tests/MetadataTests.antt =====
-- The theorems on the metadata of the caches, applied to one registered cache.
use cache_seek.Prelude.{◌≡◌, ◌≢◌, false, true, some, none, [], ◌∷◌, Text, bytes_eq, codes, arith}
use cache_seek.Prelude.Int.{pos}
use cache_seek.Dict
use cache_seek.Metadata.{
  CacheMeta, MetadataManager, normalize_cache_type, bucket, register_cache, remove_cache,
  get_cache_meta,
}
use cache_seek.Metadata.Remove.{IsTyped, remove_cache-gone}
use cache_seek.Metadata.Register.{entry_of, register_cache-IsTyped}
use cache_seek.Metadata.Stale.{register_cache-stale}
use cache_seek.Service.Lifecycle.Settings.{is_space, lstrip, strip}

abbrev nothing : MetadataManager
nothing = record {
  index = [];
  meta = [];
  disk_index = [];
  disk_meta = [];
  flush_on_record_access = true;
  meta_dirty = false;
}

nothing-IsTyped : IsTyped nothing
unfolding Dict.get
nothing-IsTyped = record {
  typed = λ t id entry h. ground (arith, h);
  named = λ id info h. ground (arith, h);
}

not_known :
    (info : CacheMeta)
    → Dict.get nothing.meta (codes "a") ≡ some info
    → info.cache_type ≡ normalize_cache_type none
unfolding Dict.get
not_known info h = ground (arith, h)

abbrev one_cache : MetadataManager
one_cache =
    register_cache 4 nothing (codes "a") (codes "a cat") (pos 9 ∷ pos 3 ∷ []) 100 (pos 81) none

one_cache-IsTyped : IsTyped one_cache
one_cache-IsTyped =
    register_cache-IsTyped 4 nothing (codes "a") (codes "a cat") (pos 9 ∷ pos 3 ∷ []) 100 (pos 81)
      none nothing-IsTyped not_known

remove_cache-gone_example :
    (get_cache_meta (remove_cache one_cache (codes "a")) (codes "a") ≡ none)
    × ((t : Text)
        → Dict.get (bucket (remove_cache one_cache (codes "a")).index t) (codes "a") ≡ none)
remove_cache-gone_example = remove_cache-gone one_cache (codes "a") one_cache-IsTyped

types_apart : normalize_cache_type (some (codes "x")) ≢ normalize_cache_type (some (codes "y"))
unfolding normalize_cache_type strip lstrip is_space
types_apart h = ground (arith, h)

register_cache-stale_example :
    Dict.get
      (bucket
        (remove_cache
          (register_cache 5
            (register_cache 5 nothing (codes "a") (codes "p") [] 1 (pos 1) (some (codes "x")))
            (codes "a")
            (codes "p")
            []
            1
            (pos 1)
            (some (codes "y")))
          (codes "a")).index
        (normalize_cache_type (some (codes "x"))))
      (codes "a")
    ≡ some (entry_of (codes "a") (codes "p") [] (some (codes "x")))
register_cache-stale_example =
    register_cache-stale 5 nothing (codes "a") (codes "p") [] 1 (pos 1) (some (codes "x"))
      (some (codes "y")) types_apart
