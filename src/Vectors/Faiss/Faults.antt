-- ===== src/Vectors/Faiss/Faults.antt =====
-- backends/vector/faiss.py behind a deletion, a write that raises, a torn write and a corrupt file.
use mathlib.Core.List.{Memᴰ}
use mathlib.Core.Path.{subst}
use cache_seek.Prelude.{
  ◌≡◌, refl, sym, ap, ◌∙◌, ℕ, Bool, true, false, Option, some, List, [], ◌∷◌, Text, bytes_eq, arith,
  length, nat_eq, nat_eq_iff, All,
}
use cache_seek.Prelude.Int.{ℤ}
use cache_seek.Dict
use cache_seek.Dict.{Dict, get-put, get-put_self}
use cache_seek.Approx.Backends.{Donor, VectorSearchResult}
use cache_seek.Vectors.Faiss.Library.{FaissLib, FaissLaws}
use cache_seek.Vectors.Faiss.{
  CollectionMeta, Disk, writable, index_unwritable, meta_unwritable, torn, FaissStore, loaded,
  forget, save_index_on, save_index, load_index_from, load_index,
}
use cache_seek.Vectors.Faiss.Operations.{
  claim_id, prepared, add_point, add_vector, add_outcome, upsert_into, upsert_loaded, upsert,
  remove_some, delete_from, delete_loaded, delete, search_loaded, search,
}
use cache_seek.Vectors.Faiss.Coherent.{IsCoherent, claim_id-Free, dimension-claim_id, forget-gone}
use cache_seek.Vectors.Faiss.Invariant.{
  IsValid, Loads, length-prepared, load_index-Loads, delete-IsValid,
}
use cache_seek.Vectors.Faiss.Run.{Finds, search-Finds, IsLive}

-- Whether the files were published.
abbrev pub published : Disk → Bool
published writable = true
published index_unwritable = false
published meta_unwritable = false
published torn = false

All-at : {A : Type 0} (P : A → Type 0) (xs : List A) (x : A) → All P xs → Memᴰ x xs → P x
All-at P [] x h at = elim at [ ]
All-at P (y ∷ ys) x h (Memᴰ.head e) = subst P (sym e) h.0
All-at P (y ∷ ys) x h (Memᴰ.tail at) = All-at P ys x h.1 at

module _ {I : Type 0} where
  -- In memory the collection is as it was set, whatever became of the files.
  save_index_on-memory :
      (d : Disk) (s : FaissStore I) (c : Text) (index : I)
      → ((save_index_on d s c index).0.indices ≡ s.indices)
        × ((save_index_on d s c index).0.metadata ≡ s.metadata)
        × ((save_index_on d s c index).1 ≡ published d)
        × ((save_index_on d s c index).0.index_type ≡ s.index_type)
  unfolding save_index_on
  save_index_on-memory writable s c index = (refl, refl, refl, refl)
  save_index_on-memory index_unwritable s c index = (refl, refl, refl, refl)
  save_index_on-memory meta_unwritable s c index = (refl, refl, refl, refl)
  save_index_on-memory torn s c index = (refl, refl, refl, refl)

  load_index-memory :
      (s : FaissStore I) (c : Text) (index : I)
      → Dict.get s.indices c ≡ some index
      → load_index s c ≡ (s, loaded index)
  unfolding load_index load_index_from
  load_index-memory s c index e = rw e refl

module _ {I E : Type 0} (lib : FaissLib I E) (laws : FaissLaws lib) where
  -- The point has its donor as payload and, under its int id, the vector.
  abbrev pub HasPoint : FaissStore I → Text → Text → List E → Donor → Type 0
  HasPoint s c p vec d =
      (index : I) × (m : CollectionMeta) × (i : ℕ) × (load_index s c ≡ (s, loaded index))
      × (Dict.get s.metadata c ≡ some m)
      × (Dict.get m.id_map p ≡ some i)
      × (laws.vector_of index i ≡ some (prepared lib s.index_type vec))
      × (Dict.get m.payload p ≡ some d)

  upsert_into-HasPoint :
      (index : I) (s : FaissStore I) (c p : Text) (vec : List E) (d : Donor) (m : CollectionMeta)
      → Dict.get s.metadata c ≡ some m
      → IsCoherent lib laws s.vector_dim index m
      → length vec ≡ s.vector_dim
      → lib.dimension index ≡ s.vector_dim
      → HasPoint (upsert_into lib index s c p vec d).0 c p vec d
        × ((upsert_into lib index s c p vec d).1 ≡ published s.disk)
  unfolding upsert_into add_point add_vector add_outcome save_index
  upsert_into-HasPoint index s c p vec d m e coherent fits dims =
      let claimed = claim_id lib (Dict.get m.id_map p) index m p in
      let stored_vec = prepared lib s.index_type vec in
      let added = lib.add_with_ids claimed.1.0 stored_vec claimed.0 in
      let m' : CollectionMeta = record claimed.1.1 { payload = Dict.put claimed.1.1.payload p d } in
      let s1 : FaissStore I = record s {
        indices = Dict.put s.indices c added;
        metadata = Dict.put s.metadata c m';
      } in
      let out = save_index_on s.disk s1 c added in
      let (same_indices, same_metadata, ok, same_type) = save_index_on-memory s.disk s1 c added in
      let free = claim_id-Free lib laws s.vector_dim index m coherent p stored_vec in
      let test : nat_eq (length vec) s.vector_dim ≡ true =
        (nat_eq_iff (length vec) s.vector_dim).1 fits in
      let size : length stored_vec ≡ lib.dimension claimed.1.0 =
        length-prepared lib laws s.index_type vec
        ∙ fits
        ∙ sym dims
        ∙ sym (dimension-claim_id lib laws s.vector_dim index m coherent p stored_vec) in
      let adds : nat_eq (length stored_vec) (lib.dimension claimed.1.0) ≡ true =
        (nat_eq_iff (length stored_vec) (lib.dimension claimed.1.0)).1 size in
      rw (test, e, adds)
        (
          (
            added,
            m',
            claimed.0,
            load_index-memory out.0 c added (rw same_indices (get-put_self s.indices c added)),
            rw same_metadata (get-put_self s.metadata c m'),
            free.0,
            rw same_type (
                ground (
                  arith,
                  laws.of_add claimed.1.0 stored_vec claimed.0 claimed.0 size free.1,
                  nat_eq_iff claimed.0 claimed.0,
                )),
            get-put_self claimed.1.1.payload p d,
          ),
          ok,
        )

  -- An upsert of a vector of the right length into a collection that can be loaded and has the store's
  -- dimension leaves the point in memory with its donor and its vector, and says so only if the files were published: where their
  -- write raises the upsert raises, and the point is there all the same.
  pub upsert-HasPoint :
      (s s1 : FaissStore I) (c p : Text) (vec : List E) (d : Donor) (index : I)
      → IsValid lib laws s
      → load_index s c ≡ (s1, loaded index)
      → length vec ≡ s1.vector_dim
      → lib.dimension index ≡ s1.vector_dim
      → HasPoint (upsert lib s c p vec d).0 c p vec d
        × ((upsert lib s c p vec d).1 ≡ published s1.disk)
  unfolding upsert upsert_loaded
  upsert-HasPoint s s1 c p vec d index valid e fits dims =
      let (_, (m, known, coherent)) =
        subst (Loads lib laws c) e (load_index-Loads lib laws s c valid) in
      rw e (upsert_into-HasPoint index s1 c p vec d m known coherent fits dims)

  search_same :
      (s : FaissStore I) (c : Text) (index : I) (vec : List E) (n : ℕ) (threshold : Option ℤ)
      → load_index s c ≡ (s, loaded index)
      → (search lib s c vec n threshold).0 ≡ s
  unfolding search search_loaded
  search_same s c index vec n threshold e = ap (λ l. (search_loaded lib l c vec n threshold).0) e

  live_in :
      (s : FaissStore I) (c : Text) (m : CollectionMeta) (found : List VectorSearchResult)
      (threshold : Option ℤ) (r : VectorSearchResult)
      → Dict.get s.metadata c ≡ some m
      → Finds lib laws c threshold (s, some found)
      → Memᴰ r found
      → (i : ℕ) × (Dict.get m.id_map r.cache_id ≡ some i)
  live_in s c m [] threshold r known h at = elim at [ ]
  live_in s c m (x ∷ xs) threshold r known (index, m', e, live) at =
      let same : m' ≡ m = ground (arith, e, known) in
      let (i, q, _, _, _) = All-at (IsLive lib laws index m' threshold) (x ∷ xs) r live at in
      (i, subst (λ k. Dict.get k.id_map r.cache_id ≡ some i) same q)

  -- What a search finds in a collection that is in memory is in its metadata.
  search_held :
      (s : FaissStore I) (c : Text) (index : I) (m : CollectionMeta) (vec : List E) (n : ℕ)
      (threshold : Option ℤ) (found : List VectorSearchResult) (r : VectorSearchResult)
      → IsValid lib laws s
      → load_index s c ≡ (s, loaded index)
      → Dict.get s.metadata c ≡ some m
      → (search lib s c vec n threshold).1 ≡ some found
      → Memᴰ r found
      → (i : ℕ) × (Dict.get m.id_map r.cache_id ≡ some i)
  search_held s c index m vec n threshold found r valid e known h at =
      let out = search lib s c vec n threshold in
      let same : out.0 ≡ s = search_same s c index vec n threshold e in
      let pair : out ≡ (s, some found) = cc in
      live_in s c m found threshold r known
        (subst (Finds lib laws c threshold) pair (search-Finds lib laws s c vec n threshold valid))
        at

  delete_loaded-forgets :
      (s : FaissStore I) (c : Text) (pids : List Text) (index : I) (m : CollectionMeta)
      → Dict.get s.metadata c ≡ some m
      → let s' = (delete_loaded lib (s, loaded index) c pids).0 in
        (load_index s' c ≡ (s', loaded (remove_some lib index (forget m pids).1)))
        × (Dict.get s'.metadata c ≡ some (forget m pids).0)
  unfolding delete_loaded delete_from save_index
  delete_loaded-forgets s c pids index m e =
      let removed = remove_some lib index (forget m pids).1 in
      let s1 : FaissStore I = record s {
        indices = Dict.put s.indices c removed;
        metadata = Dict.put s.metadata c (forget m pids).0;
      } in
      let (same_indices, same_metadata, _, _) = save_index_on-memory s.disk s1 c removed in
      rw e (
        load_index-memory (save_index_on s.disk s1 c removed).0 c removed
            (rw same_indices (get-put_self s.indices c removed)),
        rw same_metadata (get-put_self s.metadata c (forget m pids).0),
      )

  delete_loaded-IsValid :
      (s : FaissStore I) (c : Text) (pids : List Text)
      → IsValid lib laws s
      → IsValid lib laws (delete_loaded lib (load_index s c) c pids).0
  unfolding delete
  delete_loaded-IsValid s c pids valid = delete-IsValid lib laws s c pids valid

  -- After a deletion in a collection that can be loaded, no search of it returns a deleted point, also
  -- where the write of the files raised.
  pub delete-Unfound :
      (s s1 : FaissStore I) (c : Text) (pids : List Text) (index : I) (vec : List E) (n : ℕ)
      (threshold : Option ℤ) (found : List VectorSearchResult) (r : VectorSearchResult)
      → IsValid lib laws s
      → load_index s c ≡ (s1, loaded index)
      → (search lib (delete lib s c pids).0 c vec n threshold).1 ≡ some found
      → Memᴰ r found
      → ¬ Memᴰ r.cache_id pids
  unfolding delete
  delete-Unfound s s1 c pids index vec n threshold found r valid e =
      let (_, (m, known, _)) = subst (Loads lib laws c) e (load_index-Loads lib laws s c valid) in
      let (in_memory, left) = delete_loaded-forgets s1 c pids index m known in
      let valid' =
        subst (λ l. IsValid lib laws (delete_loaded lib l c pids).0) e
          (delete_loaded-IsValid s c pids valid) in
      rw e λ h at gone.
        let (i, still) =
          search_held (delete_loaded lib (s1, loaded index) c pids).0 c
            (remove_some lib index (forget m pids).1) (forget m pids).0 vec n threshold found r
            valid' in_memory left h at in
        ground (arith, still, forget-gone lib laws s1.vector_dim m pids r.cache_id gone)
