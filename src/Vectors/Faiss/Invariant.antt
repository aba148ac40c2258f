-- ===== src/Vectors/Faiss/Invariant.antt =====
-- The states of `FAISSVectorStore` of backends/vector/faiss.py, in memory and on disk.
use mathlib.Core.Path.{subst}
use cache_seek.Prelude.{
  ◌≡◌, ◌≢◌, refl, ℕ, Bool, true, false, Option, none, some, List, Text, bytes_eq, ◌==◌, beq_refl,
  arith, inl, inr, length, nat_eq, nat_eq_iff, Bool-cases, sym, ◌∙◌,
}
use cache_seek.Prelude.Int.{ℤ}
use cache_seek.Dict
use cache_seek.Dict.{Dict, get-put, get-put_self}
use cache_seek.Approx.Backends.{Donor}
use cache_seek.Vectors.Faiss.Library.{FaissLib, FaissLaws, IndexFamily}
use cache_seek.Vectors.Faiss.{
  CollectionMeta, Disk, writable, index_unwritable, meta_unwritable, torn, FaissStore, Loaded,
  missing, load_error, loaded, empty_meta, family_of, is_cosine, forget, save_index_on, save_index,
  load_meta, read_index, load_index_from, load_index, reopen,
}
use cache_seek.Vectors.Faiss.Operations.{
  create_collection, ensure_loaded, ensure_collection, claim_id, prepared, add_point, add_vector,
  add_outcome, upsert_into, upsert_found, upsert_created, upsert_loaded, upsert, remove_some,
  delete_from, delete_loaded, delete, search_loaded, search,
}
use cache_seek.Vectors.Faiss.Coherent.{
  IsCoherent, empty-IsCoherent, added-IsCoherent, forget-IsCoherent, dimension-claim_id,
  claimed-IsCoherent,
}

module _ {I E : Type 0} (lib : FaissLib I E) (laws : FaissLaws lib) where
  -- What a collection has in memory, by the two dicts' entries.
  abbrev Held : ℕ → Option I → Option CollectionMeta → Type 0
  Held dim none o = Unit
  Held dim (some index) none = ⊥
  Held dim (some index) (some m) = IsCoherent lib laws dim index m

  -- What it has on disk: the metadata of an index that can be read is not corrupt.
  abbrev Stored : ℕ → Option (Option I) → Option (Option CollectionMeta) → Type 0
  Stored dim none o = Unit
  Stored dim (some none) o = Unit
  Stored dim (some (some index)) none = IsCoherent lib laws dim index empty_meta
  Stored dim (some (some index)) (some none) = ⊥
  Stored dim (some (some index)) (some (some m)) = IsCoherent lib laws dim index m

  -- Each collection is coherent, in memory and on disk, and the next write of the files is not torn.
  pub record IsValid (s : FaissStore I) : Type 0 where
    pub held : (c : Text) → Held s.vector_dim (Dict.get s.indices c) (Dict.get s.metadata c)
    pub stored :
        (c : Text) → Stored s.vector_dim (Dict.get s.index_files c) (Dict.get s.meta_files c)
    pub whole : s.disk ≢ torn

  -- A collection that is set in both dicts.
  Held-put :
      (s : FaissStore I) (collection : Text) (index : I) (m : CollectionMeta)
      → IsValid s
      → IsCoherent lib laws s.vector_dim index m
      → (c : Text)
      → Held s.vector_dim
          (Dict.get (Dict.put s.indices collection index) c)
          (Dict.get (Dict.put s.metadata collection m) c)
  Held-put s collection index m valid coherent c =
      rw (get-put s.indices collection c index, get-put s.metadata collection c m)
        (elim (Bool-cases (collection == c)) [
          | inl e ↦ rw e coherent
          | inr e ↦ rw e (valid.held c)
        ])

  abbrev set : FaissStore I → Text → I → CollectionMeta → FaissStore I
  set s collection index m = record s {
    indices = Dict.put s.indices collection index;
    metadata = Dict.put s.metadata collection m;
  }

  save_index_on-IsValid :
      (d : Disk) (s : FaissStore I) (collection : Text) (index : I) (m : CollectionMeta)
      → d ≢ torn
      → IsValid s
      → IsCoherent lib laws s.vector_dim index m
      → IsValid (save_index_on d (set s collection index m) collection index).0
  unfolding save_index_on
  save_index_on-IsValid writable s collection index m ne valid coherent = record {
    held = Held-put s collection index m valid coherent;
    stored = λ c.
        rw
          (
            get-put s.index_files collection c (some index),
            get-put s.metadata collection collection m,
            beq_refl collection,
            get-put s.meta_files collection c (some m),
          )
          (elim (Bool-cases (collection == c)) [
            | inl e ↦ rw e coherent
            | inr e ↦ rw e (valid.stored c)
          ]);
    whole = valid.whole;
  }
  save_index_on-IsValid index_unwritable s collection index m ne valid coherent = record {
    held = Held-put s collection index m valid coherent;
    stored = valid.stored;
    whole = valid.whole;
  }
  save_index_on-IsValid meta_unwritable s collection index m ne valid coherent = record {
    held = Held-put s collection index m valid coherent;
    stored = valid.stored;
    whole = valid.whole;
  }
  save_index_on-IsValid torn s collection index m ne valid coherent = absurd (ne refl)

  -- A load keeps the state valid, and what it loads is in memory.
  abbrev pub Loads : Text → FaissStore I × Loaded I → Type 0
  Loads collection (s, missing) = IsValid s
  Loads collection (s, load_error) = IsValid s
  Loads collection (s, loaded index) =
      IsValid s
      × ((m : CollectionMeta) × (Dict.get s.metadata collection ≡ some m)
          × IsCoherent lib laws s.vector_dim index m)

  load_meta-Loads :
      (o : Option (Option CollectionMeta)) (s : FaissStore I) (collection : Text) (index : I)
      → IsValid s
      → Stored s.vector_dim (some (some index)) o
      → Loads collection (
          load_meta o (record s { indices = Dict.put s.indices collection index }) collection index)
  unfolding load_meta
  load_meta-Loads none s collection index valid coherent = (
    record {
      held = Held-put s collection index empty_meta valid coherent;
      stored = valid.stored;
      whole = valid.whole;
    },
    (empty_meta, get-put_self s.metadata collection empty_meta, coherent),
  )
  load_meta-Loads (some none) s collection index valid coherent = absurd coherent
  load_meta-Loads (some (some m)) s collection index valid coherent = (
    record {
      held = Held-put s collection index m valid coherent;
      stored = valid.stored;
      whole = valid.whole;
    },
    (m, get-put_self s.metadata collection m, coherent),
  )

  read_index-Loads :
      (o : Option (Option I)) (s : FaissStore I) (collection : Text)
      → IsValid s
      → Stored s.vector_dim o (Dict.get s.meta_files collection)
      → Loads collection (read_index o s collection)
  unfolding read_index
  read_index-Loads none s collection valid h = valid
  read_index-Loads (some none) s collection valid h = valid
  read_index-Loads (some (some index)) s collection valid h =
      load_meta-Loads (Dict.get s.meta_files collection) s collection index valid h

  known_meta :
      (s : FaissStore I) (collection : Text) (index : I)
      → (o : Option CollectionMeta) → Dict.get s.metadata collection ≡ o
      → Held s.vector_dim (some index) o
      → (m : CollectionMeta) × (Dict.get s.metadata collection ≡ some m)
        × IsCoherent lib laws s.vector_dim index m
  known_meta s collection index none e h = absurd h
  known_meta s collection index (some m) e h = (m, e, h)

  load_index_from-Loads :
      (o : Option I) (s : FaissStore I) (collection : Text)
      → IsValid s
      → Held s.vector_dim o (Dict.get s.metadata collection)
      → Loads collection (load_index_from o s collection)
  unfolding load_index_from
  load_index_from-Loads none s collection valid h =
      read_index-Loads (Dict.get s.index_files collection) s collection valid
        (valid.stored collection)
  load_index_from-Loads (some index) s collection valid h =
      (valid, known_meta s collection index (Dict.get s.metadata collection) refl h)

  pub load_index-Loads :
      (s : FaissStore I) (collection : Text)
      → IsValid s
      → Loads collection (load_index s collection)
  unfolding load_index
  load_index-Loads s collection valid =
      load_index_from-Loads (Dict.get s.indices collection) s collection valid
        (valid.held collection)

  Loads-IsValid :
      (collection : Text) (l : FaissStore I × Loaded I) → Loads collection l → IsValid l.0
  Loads-IsValid collection (s, missing) h = h
  Loads-IsValid collection (s, load_error) h = h
  Loads-IsValid collection (s, loaded index) h = h.0

  save_index-IsValid :
      (s : FaissStore I) (collection : Text) (index : I) (m : CollectionMeta)
      → IsValid s
      → IsCoherent lib laws s.vector_dim index m
      → IsValid (save_index (set s collection index m) collection index).0
  unfolding save_index
  save_index-IsValid s collection index m valid coherent =
      save_index_on-IsValid s.disk s collection index m valid.whole valid coherent

  create_collection-IsValid :
      (family : Option IndexFamily) (s : FaissStore I) (collection : Text) (dim : ℕ)
      → IsValid s
      → IsValid (create_collection lib family s collection dim).0
  unfolding create_collection
  create_collection-IsValid none s collection dim valid = valid
  create_collection-IsValid (some f) s collection dim valid =
      save_index-IsValid s collection (lib.new_index f dim) empty_meta valid
        (empty-IsCoherent lib laws s.vector_dim f dim)

  ensure_loaded-IsValid :
      (l : FaissStore I × Loaded I) (collection : Text) (dim : ℕ)
      → Loads collection l
      → IsValid (ensure_loaded lib l collection dim).0
  unfolding ensure_loaded
  ensure_loaded-IsValid (s, missing) collection dim h =
      create_collection-IsValid (family_of s.index_type) s collection dim h
  ensure_loaded-IsValid (s, load_error) collection dim h = h
  ensure_loaded-IsValid (s, loaded index) collection dim h = h.0

  pub ensure_collection-IsValid :
      (s : FaissStore I) (collection : Text) (dim : ℕ)
      → IsValid s
      → IsValid (ensure_collection lib s collection dim).0
  unfolding ensure_collection
  ensure_collection-IsValid s collection dim valid =
      ensure_loaded-IsValid (load_index s collection) collection dim
        (load_index-Loads s collection valid)

  -- Coherence reads the ids only.
  with_payload :
      (dim : ℕ) (index : I) (m : CollectionMeta) (payload : Dict Text Donor)
      → IsCoherent lib laws dim index m
      → IsCoherent lib laws dim index (record m { payload = payload })
  with_payload dim index m payload coherent = record {
    once = coherent.once;
    unique = coherent.unique;
    below = coherent.below;
    present = coherent.present;
    unused = coherent.unused;
  }

  -- `setdefault` of the metadata that is there.
  Held-meta :
      (s : FaissStore I) (collection : Text) (m : CollectionMeta)
      → IsValid s
      → Held s.vector_dim (Dict.get s.indices collection) (some m)
      → (c : Text)
      → Held s.vector_dim (Dict.get s.indices c) (Dict.get (Dict.put s.metadata collection m) c)
  Held-meta s collection m valid h c =
      rw (get-put s.metadata collection c m) (elim (Bool-cases (collection == c)) [
        | inl e ↦ rw e (
            subst (λ j. Held s.vector_dim (Dict.get s.indices j) (some m))
              (ground (arith, e, bytes_eq.same_iff collection c)) h)
        | inr e ↦ rw e (valid.held c)
      ])

  pub length-prepared :
      (index_type : Text) (vec : List E) → length (prepared lib index_type vec) ≡ length vec
  unfolding prepared
  length-prepared index_type vec = elim (Bool-cases (is_cosine index_type)) [
    | inl e ↦ rw e (laws.length_normalize vec)
    | inr e ↦ rw e refl
  ]

  -- The add behind a claimed id, of a vector of the store's dimension.
  add_point-IsValid :
      (index : I) (s : FaissStore I) (collection p : Text) (vec : List E) (d : Donor)
      (m : CollectionMeta)
      → IsValid s
      → IsCoherent lib laws s.vector_dim index m
      → length vec ≡ s.vector_dim
      → IsValid
          (add_point lib (claim_id lib (Dict.get m.id_map p) index m p) s collection p vec d).0
  unfolding add_point add_vector add_outcome
  add_point-IsValid index s collection p vec d m valid coherent size =
      let claimed = claim_id lib (Dict.get m.id_map p) index m p in
      let shape = dimension-claim_id lib laws s.vector_dim index m coherent p vec in
      elim (Bool-cases (nat_eq (length vec) (lib.dimension claimed.1.0))) [
        | inl e ↦
            let fits : length vec ≡ lib.dimension index =
              (nat_eq_iff (length vec) (lib.dimension claimed.1.0)).0 e ∙ shape in
            rw e (
              save_index-IsValid s collection _
                (record claimed.1.1 { payload = Dict.put claimed.1.1.payload p d }) valid
                (with_payload s.vector_dim _ _ _
                  (added-IsCoherent lib laws s.vector_dim index m coherent p vec fits)))
        | inr e ↦
            let other : lib.dimension index ≢ s.vector_dim = λ q. ground (
              arith,
              e,
              nat_eq_iff (length vec) (lib.dimension claimed.1.0),
              shape ∙ q ∙ sym size,
            ) in
            rw e (record {
              held =
                  Held-put s collection claimed.1.0 claimed.1.1 valid
                    (claimed-IsCoherent lib laws s.vector_dim index m coherent p vec other);
              stored = valid.stored;
              whole = valid.whole;
            })
      ]

  upsert_into-IsValid :
      (index : I) (s : FaissStore I) (collection p : Text) (vec : List E) (d : Donor)
      → IsValid s
      → (m : CollectionMeta) → Dict.get s.metadata collection ≡ some m
      → IsCoherent lib laws s.vector_dim index m
      → IsValid (upsert_into lib index s collection p vec d).0
  unfolding upsert_into
  upsert_into-IsValid index s collection p vec d valid m e coherent =
      let h =
        subst (λ o. Held s.vector_dim (Dict.get s.indices collection) o) e
          (valid.held collection) in
      elim (Bool-cases (nat_eq (length vec) s.vector_dim)) [
        | inl fits ↦
            rw (fits, e)
              (add_point-IsValid index s collection p (prepared lib s.index_type vec) d m valid
                coherent
                (length-prepared s.index_type vec ∙ (nat_eq_iff (length vec) s.vector_dim).0 fits))
        | inr other ↦
            rw (other, e)
              (record {
                held = Held-meta s collection m valid h;
                stored = valid.stored;
                whole = valid.whole;
              })
      ]

  upsert_found-IsValid :
      (l : FaissStore I × Loaded I) (collection p : Text) (vec : List E) (d : Donor)
      → Loads collection l
      → IsValid (upsert_found lib l collection p vec d).0
  unfolding upsert_found
  upsert_found-IsValid (s, missing) collection p vec d h = h
  upsert_found-IsValid (s, load_error) collection p vec d h = h
  upsert_found-IsValid (s, loaded index) collection p vec d (valid, (m, e, coherent)) =
      upsert_into-IsValid index s collection p vec d valid m e coherent

  upsert_created-IsValid :
      (r : FaissStore I × Bool) (collection p : Text) (vec : List E) (d : Donor)
      → IsValid r.0
      → IsValid (upsert_created lib r collection p vec d).0
  unfolding upsert_created
  upsert_created-IsValid (s, false) collection p vec d valid = valid
  upsert_created-IsValid (s, true) collection p vec d valid =
      upsert_found-IsValid (load_index s collection) collection p vec d
        (load_index-Loads s collection valid)

  upsert_loaded-IsValid :
      (l : FaissStore I × Loaded I) (collection p : Text) (vec : List E) (d : Donor)
      → Loads collection l
      → IsValid (upsert_loaded lib l collection p vec d).0
  unfolding upsert_loaded
  upsert_loaded-IsValid (s, missing) collection p vec d valid =
      upsert_created-IsValid (ensure_collection lib s collection s.vector_dim) collection p vec d
        (ensure_collection-IsValid s collection s.vector_dim valid)
  upsert_loaded-IsValid (s, load_error) collection p vec d valid = valid
  upsert_loaded-IsValid (s, loaded index) collection p vec d (valid, (m, e, coherent)) =
      upsert_into-IsValid index s collection p vec d valid m e coherent

  pub upsert-IsValid :
      (s : FaissStore I) (collection p : Text) (vec : List E) (d : Donor)
      → IsValid s
      → IsValid (upsert lib s collection p vec d).0
  unfolding upsert
  upsert-IsValid s collection p vec d valid =
      upsert_loaded-IsValid (load_index s collection) collection p vec d
        (load_index-Loads s collection valid)

  delete_loaded-IsValid :
      (l : FaissStore I × Loaded I) (collection : Text) (pids : List Text)
      → Loads collection l
      → IsValid (delete_loaded lib l collection pids).0
  unfolding delete_loaded delete_from
  delete_loaded-IsValid (s, missing) collection pids valid = valid
  delete_loaded-IsValid (s, load_error) collection pids valid = valid
  delete_loaded-IsValid (s, loaded index) collection pids (valid, (m, e, coherent)) = rw e (
      save_index-IsValid s collection (remove_some lib index (forget m pids).1) (forget m pids).0
        valid (forget-IsCoherent lib laws s.vector_dim index m pids coherent))

  pub delete-IsValid :
      (s : FaissStore I) (collection : Text) (pids : List Text)
      → IsValid s
      → IsValid (delete lib s collection pids).0
  unfolding delete
  delete-IsValid s collection pids valid =
      delete_loaded-IsValid (load_index s collection) collection pids
        (load_index-Loads s collection valid)

  pub reopen-IsValid : (s : FaissStore I) → IsValid s → IsValid (reopen s)
  unfolding reopen Dict.get
  reopen-IsValid s valid = record { held = λ c. tt; stored = valid.stored; whole = valid.whole }

  search_loaded-same :
      (l : FaissStore I × Loaded I) (collection : Text) (vec : List E) (n : ℕ)
      (threshold : Option ℤ)
      → (search_loaded lib l collection vec n threshold).0 ≡ l.0
  unfolding search_loaded
  search_loaded-same (s, missing) collection vec n threshold = refl
  search_loaded-same (s, load_error) collection vec n threshold = refl
  search_loaded-same (s, loaded index) collection vec n threshold = refl

  pub search-IsValid :
      (s : FaissStore I) (collection : Text) (vec : List E) (n : ℕ) (threshold : Option ℤ)
      → IsValid s
      → IsValid (search lib s collection vec n threshold).0
  unfolding search
  search-IsValid s collection vec n threshold valid =
      rw (search_loaded-same (load_index s collection) collection vec n threshold)
        (Loads-IsValid collection (load_index s collection) (load_index-Loads s collection valid))
