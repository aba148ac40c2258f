-- ===== src/Vectors/Faiss/Torn.antt =====
-- backends/vector/faiss.py, reopened on files that a torn write or a corruption left.
use cache_seek.Prelude.{
  ◌≡◌, refl, sym, ◌∙◌, true, none, some, List, [], Text, bytes_eq, arith, length, nat_eq,
  nat_eq_iff,
}
use cache_seek.Dict
use cache_seek.Dict.{Dict, get-put, get-put_self}
use cache_seek.Approx.Backends.{Donor}
use cache_seek.Vectors.Faiss.Library.{FaissLib, FaissLaws}
use cache_seek.Vectors.Faiss.{
  CollectionMeta, torn, FaissStore, load_error, loaded, save_index_on, save_index, load_meta,
  read_index, load_index_from, load_index, reopen,
}
use cache_seek.Vectors.Faiss.Operations.{
  claim_id, prepared, add_point, add_vector, add_outcome, upsert_into, upsert_loaded, upsert,
}
use cache_seek.Vectors.Faiss.Coherent.{IsCoherent}
use cache_seek.Vectors.Faiss.Invariant.{length-prepared}

module _ {I E : Type 0} (lib : FaissLib I E) (laws : FaissLaws lib) where
  -- The collection as a process that reads the files has it.
  reopened :
      (s : FaissStore I) (c : Text) (index : I) (m : CollectionMeta)
      → Dict.get s.index_files c ≡ some (some index)
      → Dict.get s.meta_files c ≡ some (some m)
      → ((load_index (reopen s) c).1 ≡ loaded index)
        × (Dict.get (load_index (reopen s) c).0.metadata c ≡ some m)
  unfolding load_index load_index_from read_index load_meta reopen Dict.get
  reopened s c index m e h = rw (e, h) (refl, get-put_self [] c m)

  upsert_into-torn :
      (s : FaissStore I) (c p : Text) (vec : List E) (d : Donor) (index : I) (m : CollectionMeta)
      → Dict.get s.metadata c ≡ some m
      → s.disk ≡ torn
      → length vec ≡ s.vector_dim
      → lib.dimension index ≡ s.vector_dim
      → Dict.get m.id_map p ≡ none
      → let out = (upsert_into lib index s c p vec d).0 in
        (Dict.get out.index_files c
          ≡ some (some (lib.add_with_ids index (prepared lib s.index_type vec) m.next_id)))
        × (out.meta_files ≡ s.meta_files)
  unfolding upsert_into claim_id add_point add_vector add_outcome save_index save_index_on
  upsert_into-torn s c p vec d index m known tears fits dims new_p =
      let test : nat_eq (length vec) s.vector_dim ≡ true =
        (nat_eq_iff (length vec) s.vector_dim).1 fits in
      let adds : nat_eq (length (prepared lib s.index_type vec)) (lib.dimension index) ≡ true =
        (nat_eq_iff (length (prepared lib s.index_type vec)) (lib.dimension index)).1
          (length-prepared lib laws s.index_type vec ∙ fits ∙ sym dims) in
      rw (test, known, new_p, adds, tears) (get-put_self s.index_files c _, refl)

  -- A new point of a collection of the store's dimension whose write is torn, and a process that reads the files: the id that its next new
  -- point takes is one under which the index already has the lost point's vector, which then counts as
  -- the new point's.
  pub torn-reused_id :
      (s s1 : FaissStore I) (c p q : Text) (vec : List E) (d : Donor) (index : I)
      (m : CollectionMeta)
      → IsCoherent lib laws s1.vector_dim index m
      → load_index s c ≡ (s1, loaded index)
      → Dict.get s1.metadata c ≡ some m
      → Dict.get s1.meta_files c ≡ some (some m)
      → s1.disk ≡ torn
      → length vec ≡ s1.vector_dim
      → lib.dimension index ≡ s1.vector_dim
      → Dict.get m.id_map p ≡ none
      → Dict.get m.id_map q ≡ none
      → let s2 = reopen (upsert lib s c p vec d).0 in
        (index' : I) × ((load_index s2 c).1 ≡ loaded index')
        × (Dict.get (load_index s2 c).0.metadata c ≡ some m)
        × (laws.vector_of index' (claim_id lib (Dict.get m.id_map q) index' m q).0
            ≡ some (prepared lib s1.index_type vec))
  unfolding upsert upsert_loaded claim_id
  torn-reused_id s s1 c p q vec d index m coherent e known on_disk tears fits dims new_p new_q =
      let (file, same) = upsert_into-torn s1 c p vec d index m known tears fits dims new_p in
      let stored_vec = prepared lib s1.index_type vec in
      let added = lib.add_with_ids index stored_vec m.next_id in
      let (there, meta) =
        reopened (upsert_into lib index s1 c p vec d).0 c added m file (rw same on_disk) in
      rw (e, new_q)
        (
          added,
          there,
          meta,
          ground (
            arith,
            laws.of_add index stored_vec m.next_id m.next_id
                (length-prepared lib laws s1.index_type vec ∙ fits ∙ sym dims)
                (coherent.unused m.next_id (omega arith)),
            nat_eq_iff m.next_id m.next_id,
          ),
        )

  -- Where the metadata file is corrupt, the first load raises and leaves the index in memory without
  -- metadata, so the second call finds an empty id map.
  pub load_index-retry :
      (s : FaissStore I) (c : Text) (index : I)
      → Dict.get s.indices c ≡ none
      → Dict.get s.metadata c ≡ none
      → Dict.get s.index_files c ≡ some (some index)
      → Dict.get s.meta_files c ≡ some none
      → let s1 = (load_index s c).0 in
        ((load_index s c).1 ≡ load_error)
        × (load_index s1 c ≡ (s1, loaded index))
        × (Dict.get s1.metadata c ≡ none)
  unfolding load_index load_index_from read_index load_meta
  load_index-retry s c index e known h k =
      rw (e, h, k) (refl, rw (get-put_self s.indices c index) refl, known)
