-- ===== src/Vectors/Faiss.antt =====
-- backends/vector/faiss.py: `FAISSVectorStore`. The faiss library is an argument; `E` is a component
-- of a vector, and distances and similarities are whole numbers of one unit.
pub mod Library
pub mod Operations
pub mod Coherent
pub mod Invariant
pub mod Run
pub mod Faults
pub mod Torn
use cache_seek.Prelude.{
  ℕ, ◌+◌, Bool, true, false, not, Option, none, some, List, [], ◌∷◌, ◌++◌, Text, codes, bytes_eq,
  ◌==◌, nat_eq, length, if◌then◌else◌,
}
use cache_seek.Prelude.Int.{ℤ, pos, negsuc, int_leb}
use cache_seek.Dict
use cache_seek.Dict.{Dict}
use cache_seek.Service.Lifecycle.Settings.{lower}
use cache_seek.Approx.Backends.{Donor, VectorSearchResult, VectorStore}
use cache_seek.Vectors.Faiss.Library.{FaissLib, IndexFamily, flat_l2, flat_ip}

-- An entry of `_metadata`; `payload` is the dict of payloads.
pub record CollectionMeta : Type 0 where
  pub id_map : Dict Text ℕ
  pub payload : Dict Text Donor
  pub next_id : ℕ

-- What the next write of the files does: both are published, the write of the index or of the
-- metadata raises, or the process dies between the two `os.replace` calls.
pub data Disk : Type 0 where
  writable index_unwritable meta_unwritable torn : Disk

-- `indices` and `metadata` are in memory. A file that cannot be read, or whose JSON is not that of a
-- collection, is `none`.
pub record FaissStore (I : Type 0) : Type 0 where
  pub vector_dim : ℕ
  pub index_type : Text
  pub indices : Dict Text I
  pub metadata : Dict Text CollectionMeta
  pub index_files : Dict Text (Option I)
  pub meta_files : Dict Text (Option CollectionMeta)
  pub disk : Disk

abbrev pub empty_meta : CollectionMeta
empty_meta = record { id_map = []; payload = []; next_id = 1 }

-- `.get(collection, default)` and `setdefault`
abbrev pub meta_of : Option CollectionMeta → CollectionMeta
meta_of none = empty_meta
meta_of (some m) = m

-- `_load_index`: no collection, an index, or an error.
pub data Loaded (I : Type 0) : Type 0 where
  missing load_error : Loaded I
  loaded : I → Loaded I

-- `_find_point_id`
unfoldable pub find_point_id : Dict Text ℕ → ℕ → Option Text
find_point_id [] idx = none
find_point_id ((key, value) ∷ rest) idx =
    let later = find_point_id rest idx in if nat_eq value idx then some key else later

-- `.lower()` of the index type, against the supported ones.
unfoldable pub is_l2 : Text → Bool
is_l2 t = lower t == codes "l2"

unfoldable pub is_cosine : Text → Bool
is_cosine t = lower t == codes "cosine"

unfoldable pub family_of : Text → Option IndexFamily
family_of t =
    if is_l2 t
    then some flat_l2
    else (if lower t == codes "ip"
        then some flat_ip
        else (if lower t == codes "innerproduct"
            then some flat_ip
            else (if is_cosine t then some flat_ip else none)))

-- A hit of the index, as a result; one without a live id, or below the threshold, is dropped.
unfoldable pub result_from : Option Donor → Text → ℤ → VectorSearchResult
result_from none point_id similarity = record {
  cache_id = point_id;
  similarity = similarity;
  prompt = [];
  saved_steps = [];
  payload = none;
}
result_from (some donor) point_id similarity = record {
  cache_id = point_id;
  similarity = similarity;
  prompt = donor.prompt;
  saved_steps = donor.saved_steps;
  payload = some donor.prompt;
}

-- `payload_map.get(point_id, {})`
unfoldable pub result_of : Dict Text Donor → Text → ℤ → VectorSearchResult
result_of payloads point_id similarity =
    result_from (Dict.get payloads point_id) point_id similarity

unfoldable pub clears : Option ℤ → ℤ → Bool
clears none similarity = true
clears (some threshold) similarity = int_leb threshold similarity

unfoldable pub live_result :
    Option Text → CollectionMeta → ℤ → Option ℤ → List VectorSearchResult → List VectorSearchResult
live_result none m similarity threshold rest = rest
live_result (some point_id) m similarity threshold rest =
    if clears threshold similarity then result_of m.payload point_id similarity ∷ rest else rest

-- `if idx is not None: to_remove.append(int(idx))`
unfoldable pub add_id : Option ℕ → List ℕ → List ℕ
add_id none ids = ids
add_id (some idx) ids = idx ∷ ids

-- The loop of `delete`: the metadata that is left, and the int ids to remove.
unfoldable pub forget : CollectionMeta → List Text → CollectionMeta × List ℕ
forget m [] = (m, [])
forget m (pid ∷ pids) =
    let (m', ids) =
      forget (record m { id_map = Dict.pop m.id_map pid; payload = Dict.pop m.payload pid }) pids in
    (m', add_id (Dict.get m.id_map pid) ids)

module _ {I : Type 0} where
  -- `_save_index`; false where it raises.
  unfoldable pub save_index_on : Disk → FaissStore I → Text → I → FaissStore I × Bool
  save_index_on writable s collection index = (
    record s {
      index_files = Dict.put s.index_files collection (some index);
      meta_files =
          Dict.put s.meta_files collection (some (meta_of (Dict.get s.metadata collection)));
    },
    true,
  )
  save_index_on index_unwritable s collection index = (s, false)
  save_index_on meta_unwritable s collection index = (s, false)
  save_index_on torn s collection index =
      (record s { index_files = Dict.put s.index_files collection (some index) }, false)

  unfoldable pub save_index : FaissStore I → Text → I → FaissStore I × Bool
  save_index s collection index = save_index_on s.disk s collection index

  -- The metadata of an index that was read, by what the file has.
  unfoldable pub load_meta :
      Option (Option CollectionMeta) → FaissStore I → Text → I → FaissStore I × Loaded I
  load_meta none s collection index =
      (record s { metadata = Dict.put s.metadata collection empty_meta }, loaded index)
  load_meta (some none) s collection index = (s, load_error)
  load_meta (some (some m)) s collection index =
      (record s { metadata = Dict.put s.metadata collection m }, loaded index)

  unfoldable pub read_index : Option (Option I) → FaissStore I → Text → FaissStore I × Loaded I
  read_index none s collection = (s, missing)
  read_index (some none) s collection = (s, load_error)
  read_index (some (some index)) s collection =
      load_meta (Dict.get s.meta_files collection)
        (record s { indices = Dict.put s.indices collection index }) collection index

  unfoldable pub load_index_from : Option I → FaissStore I → Text → FaissStore I × Loaded I
  load_index_from (some index) s collection = (s, loaded index)
  load_index_from none s collection = read_index (Dict.get s.index_files collection) s collection

  unfoldable pub load_index : FaissStore I → Text → FaissStore I × Loaded I
  load_index s collection = load_index_from (Dict.get s.indices collection) s collection

  -- The constructor, on the files of another process.
  unfoldable pub reopen : FaissStore I → FaissStore I
  reopen s = record s { indices = []; metadata = [] }
