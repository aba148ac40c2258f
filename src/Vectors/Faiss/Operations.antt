-- ===== src/Vectors/Faiss/Operations.antt =====
-- The operations of `FAISSVectorStore` of backends/vector/faiss.py.
use cache_seek.Prelude.{
  ℕ, ◌+◌, Bool, true, false, Option, none, some, List, [], ◌∷◌, Text, bytes_eq, nat_eq, length,
  if◌then◌else◌,
}
use cache_seek.Prelude.Int.{ℤ, pos, negsuc}
use cache_seek.Dict
use cache_seek.Dict.{Dict}
use cache_seek.Approx.Backends.{Donor, VectorSearchResult, VectorStore}
use cache_seek.Vectors.Faiss.Library.{FaissLib, IndexFamily}
use cache_seek.Vectors.Faiss.{
  CollectionMeta, FaissStore, Loaded, missing, load_error, loaded, empty_meta, meta_of,
  find_point_id, is_l2, is_cosine, family_of, live_result, forget, save_index, load_index,
}

module _ {I E : Type 0} (lib : FaissLib I E) where
  -- `ensure_collection`, behind the load.
  unfoldable pub create_collection :
      Option IndexFamily → FaissStore I → Text → ℕ → FaissStore I × Bool
  create_collection none s collection dim = (s, false)
  create_collection (some family) s collection dim =
      let index = lib.new_index family dim in
      save_index
        (record s {
          indices = Dict.put s.indices collection index;
          metadata = Dict.put s.metadata collection empty_meta;
        })
        collection index

  unfoldable pub ensure_loaded : FaissStore I × Loaded I → Text → ℕ → FaissStore I × Bool
  ensure_loaded (s, missing) collection dim =
      create_collection (family_of s.index_type) s collection dim
  ensure_loaded (s, load_error) collection dim = (s, false)
  ensure_loaded (s, loaded index) collection dim = (s, true)

  unfoldable pub ensure_collection : FaissStore I → Text → ℕ → FaissStore I × Bool
  ensure_collection s collection dim = ensure_loaded (load_index s collection) collection dim

  -- `none` where it raises, and a missing collection inside.
  unfoldable pub get_vector_size : FaissStore I → Text → FaissStore I × Option (Option ℕ)
  get_vector_size s collection =
      let (s', l) = load_index s collection in
      (
        s',
        elim l [
          | missing ↦ some none
          | load_error ↦ none
          | loaded index ↦ some (some (lib.dimension index))
        ],
      )

  -- The vector as it is stored or searched for.
  unfoldable pub prepared : Text → List E → List E
  prepared index_type vec = if is_cosine index_type then lib.normalize_l2 vec else vec

  -- The int id of a point, with the index and the metadata that it is added to.
  unfoldable pub claim_id : Option ℕ → I → CollectionMeta → Text → ℕ × (I × CollectionMeta)
  claim_id (some existing) index m point_id = (existing, (lib.remove_ids index (existing ∷ []), m))
  claim_id none index m point_id = (
    m.next_id,
    (index, record m { id_map = Dict.put m.id_map point_id m.next_id; next_id = m.next_id + 1 }),
  )

  -- `add_with_ids` with its check of the dimension.
  unfoldable pub add_vector : I → List E → ℕ → Option I
  add_vector index vec id =
      if nat_eq (length vec) (lib.dimension index)
      then some (lib.add_with_ids index vec id)
      else none

  -- Behind the add: the write of the files, or, where the add raised, the id and the index as they
  -- were changed before it. The index is an object that `_indices` holds.
  unfoldable pub add_outcome :
      Option I → I × CollectionMeta → FaissStore I → Text → Text → Donor → FaissStore I × Bool
  add_outcome none (index, m) s collection point_id donor = (
    record s {
      indices = Dict.put s.indices collection index;
      metadata = Dict.put s.metadata collection m;
    },
    false,
  )
  add_outcome (some added) (index, m) s collection point_id donor =
      save_index
        (record s {
          indices = Dict.put s.indices collection added;
          metadata =
              Dict.put s.metadata collection
                (record m { payload = Dict.put m.payload point_id donor });
        })
        collection added

  unfoldable pub add_point :
      ℕ × (I × CollectionMeta) → FaissStore I → Text → Text → List E → Donor → FaissStore I × Bool
  add_point (id, (index, m)) s collection point_id vec donor =
      add_outcome (add_vector index vec id) (index, m) s collection point_id donor

  -- `upsert` on a loaded index: `setdefault` comes before the check of the dimension.
  unfoldable pub upsert_into : I → FaissStore I → Text → Text → List E → Donor → FaissStore I × Bool
  upsert_into index s collection point_id vec donor =
      let m = meta_of (Dict.get s.metadata collection) in
      if nat_eq (length vec) s.vector_dim
      then add_point (claim_id (Dict.get m.id_map point_id) index m point_id) s collection point_id
          (prepared s.index_type vec) donor
      else (record s { metadata = Dict.put s.metadata collection m }, false)

  -- After the creation of a missing collection.
  unfoldable pub upsert_found :
      FaissStore I × Loaded I → Text → Text → List E → Donor → FaissStore I × Bool
  upsert_found (s, missing) collection point_id vec donor = (s, false)
  upsert_found (s, load_error) collection point_id vec donor = (s, false)
  upsert_found (s, loaded index) collection point_id vec donor =
      upsert_into index s collection point_id vec donor

  unfoldable pub upsert_created :
      FaissStore I × Bool → Text → Text → List E → Donor → FaissStore I × Bool
  upsert_created (s, false) collection point_id vec donor = (s, false)
  upsert_created (s, true) collection point_id vec donor =
      upsert_found (load_index s collection) collection point_id vec donor

  unfoldable pub upsert_loaded :
      FaissStore I × Loaded I → Text → Text → List E → Donor → FaissStore I × Bool
  upsert_loaded (s, missing) collection point_id vec donor =
      upsert_created (ensure_collection s collection s.vector_dim) collection point_id vec donor
  upsert_loaded (s, load_error) collection point_id vec donor = (s, false)
  upsert_loaded (s, loaded index) collection point_id vec donor =
      upsert_into index s collection point_id vec donor

  unfoldable pub upsert : FaissStore I → Text → Text → List E → Donor → FaissStore I × Bool
  upsert s collection point_id vec donor =
      upsert_loaded (load_index s collection) collection point_id vec donor

  -- `if to_remove:`
  unfoldable pub remove_some : I → List ℕ → I
  remove_some index [] = index
  remove_some index (i ∷ is) = lib.remove_ids index (i ∷ is)

  -- The metadata that is not there stays absent.
  unfoldable pub delete_from :
      Option CollectionMeta → I → FaissStore I → Text → List Text → FaissStore I × Bool
  delete_from none index s collection point_ids = save_index s collection index
  delete_from (some m) index s collection point_ids =
      let (m', ids) = forget m point_ids in
      let removed = remove_some index ids in
      save_index
        (record s {
          indices = Dict.put s.indices collection removed;
          metadata = Dict.put s.metadata collection m';
        })
        collection removed

  unfoldable pub delete_loaded : FaissStore I × Loaded I → Text → List Text → FaissStore I × Bool
  delete_loaded (s, missing) collection point_ids = (s, true)
  delete_loaded (s, load_error) collection point_ids = (s, false)
  delete_loaded (s, loaded index) collection point_ids =
      delete_from (Dict.get s.metadata collection) index s collection point_ids

  unfoldable pub delete : FaissStore I → Text → List Text → FaissStore I × Bool
  delete s collection point_ids = delete_loaded (load_index s collection) collection point_ids

  unfoldable pub similarity_of : Text → ℤ → ℤ
  similarity_of index_type dist = if is_l2 index_type then lib.inverse_distance dist else dist

  unfoldable pub collect_results :
      Text → CollectionMeta → Option ℤ → List (ℤ × ℤ) → List VectorSearchResult
  collect_results index_type m threshold [] = []
  collect_results index_type m threshold ((dist, negsuc i) ∷ hits) =
      collect_results index_type m threshold hits
  collect_results index_type m threshold ((dist, pos i) ∷ hits) =
      live_result (find_point_id m.id_map i) m (similarity_of index_type dist) threshold
        (collect_results index_type m threshold hits)

  unfoldable pub search_loaded :
      FaissStore I × Loaded I
      → Text
      → List E
      → ℕ
      → Option ℤ
      → FaissStore I × Option (List VectorSearchResult)
  search_loaded (s, missing) collection vec limit threshold = (s, some [])
  search_loaded (s, load_error) collection vec limit threshold = (s, none)
  search_loaded (s, loaded index) collection vec limit threshold = (
    s,
    if nat_eq (length vec) s.vector_dim
        then some (
            collect_results s.index_type (meta_of (Dict.get s.metadata collection)) threshold
              (lib.index_search index (prepared s.index_type vec) limit))
        else none,
  )

  unfoldable pub search :
      FaissStore I → Text → List E → ℕ → Option ℤ → FaissStore I × Option (List VectorSearchResult)
  search s collection vec limit threshold =
      search_loaded (load_index s collection) collection vec limit threshold

  -- As the strategies call it.
  abbrev pub vector_store : VectorStore (FaissStore I) E
  vector_store = record {
    search = λ s collection vec limit. search s collection vec limit none;
    ensure_collection = ensure_collection;
    upsert = upsert;
    delete = delete;
  }
