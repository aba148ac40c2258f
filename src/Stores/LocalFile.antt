-- ===== src/Stores/LocalFile.antt =====
-- stores/local_file.py: `LocalFileKVStore`, an index of file names and a directory of files.
pub mod Names
pub mod Refines
pub mod Agreement
use cache_seek.Prelude.{
  ℕ, ◌+◌, ◌*◌, ◌/◌, ◌%◌, Bool, true, false, Option, none, some, List, [], ◌∷◌, ◌++◌, map, Bytes,
  Text, bytes_eq, codes, ltb, if◌then◌else◌,
}
use cache_seek.Dict
use cache_seek.Dict.{Dict, has}
use cache_seek.Exact.Ingest.{hex}

-- `index` is in memory, `saved_index` the object of `kv_index.json`, `files` the other files of the
-- directory.
pub record LocalFileKvStore : Type 0 where
  pub index : Dict Text Text
  pub saved_index : Dict Text Text
  pub files : Dict Text Bytes

-- `str.encode("utf-8")`
unfoldable pub utf8 : Text → Bytes
utf8 [] = []
utf8 (c ∷ cs) =
    let rest = utf8 cs in
    if ltb c 128
    then c ∷ rest
    else (if ltb c 2048
        then (192 + c / 64) ∷ (128 + c % 64) ∷ rest
        else (if ltb c 65536
            then (224 + c / 4096) ∷ (128 + c / 64 % 64) ∷ (128 + c % 64) ∷ rest
            else (240 + c / 262144)
              ∷ (128 + c / 4096 % 64)
              ∷ (128 + c / 64 % 64)
              ∷ (128 + c % 64)
              ∷ rest))

-- `self._index.get(key)` with its `if not filename`.
unfoldable pub indexed : LocalFileKvStore → Text → Option Text
indexed s key = elim (Dict.get s.index key) [
  | none ↦ none
  | some name ↦ elim name [ [] ↦ none | c ∷ cs ↦ some (c ∷ cs) ]
]

unfoldable pub save_index : LocalFileKvStore → LocalFileKvStore
save_index s = record s { saved_index = s.index }

module _ (digest : Bytes → Bytes) where
  unfoldable pub hash_key : Text → Text
  hash_key key = hex (digest (utf8 key)) ++ codes ".bin"

  -- The `.tmp` file is there only inside `put`: `os.replace` renames it.
  unfoldable pub put : LocalFileKvStore → Text → Bytes → LocalFileKvStore
  put s key value = elim (indexed s key) [
    | some name ↦ save_index (record s { files = Dict.put s.files name value })
    | none ↦ save_index (record s {
      index = Dict.put s.index key (hash_key key);
      files = Dict.put s.files (hash_key key) value;
    })
  ]

unfoldable pub get : LocalFileKvStore → Text → Option Bytes
get s key = elim (indexed s key) [ none ↦ none | some name ↦ Dict.get s.files name ]

unfoldable pub remove : LocalFileKvStore → Text → LocalFileKvStore
remove s key =
    let popped : LocalFileKvStore = record s { index = Dict.pop s.index key } in
    elim (indexed s key) [
      | none ↦ popped
      | some name ↦ save_index (record popped { files = Dict.pop s.files name })
    ]

unfoldable pub list_keys : LocalFileKvStore → List Text
list_keys s = map (λ entry. entry.0) s.index

-- `LocalFileKVStore(root_dir)` on a directory whose index file was written by a store.
unfoldable pub reopen : LocalFileKvStore → LocalFileKvStore
reopen s = record s { index = s.saved_index }
