-- ===== src/Vectors/Faiss/Run.antt =====
-- Runs of the operations of backends/vector/faiss.py, and what a search returns.
use mathlib.Core.List.{Memᴰ}
use mathlib.Core.Path.{subst}
use cache_seek.Prelude.{
  sym, true, ◌≡◌, ◌≢◌, refl, ℕ, Option, none, some, List, [], ◌∷◌, Text, All, bytes_eq, arith, inl,
  inr, length, nat_eq, nat_eq_iff, Bool-cases,
}
use cache_seek.Prelude.Int.{ℤ, pos, negsuc, int_leb}
use cache_seek.Dict
use cache_seek.Dict.{Dict, IsDict}
use cache_seek.Approx.Backends.{Donor, VectorSearchResult}
use cache_seek.Vectors.Faiss.Library.{FaissLib, FaissLaws}
use cache_seek.Vectors.Faiss.{
  CollectionMeta, Disk, torn, FaissStore, Loaded, missing, load_error, loaded, find_point_id,
  result_from, result_of, clears, live_result, load_index, reopen,
}
use cache_seek.Vectors.Faiss.Operations.{
  ensure_collection, upsert, delete, collect_results, similarity_of, search_loaded, search,
  prepared,
}
use cache_seek.Vectors.Faiss.Coherent.{IsCoherent}
use cache_seek.Vectors.Faiss.Invariant.{
  IsValid, Loads, load_index-Loads, ensure_collection-IsValid, upsert-IsValid, delete-IsValid,
  search-IsValid, reopen-IsValid,
}

-- The point that an int id stands for.
find_point_id-get :
    (id_map : Dict Text ℕ) (i : ℕ)
    → IsDict id_map
    → (p : Text) → find_point_id id_map i ≡ some p
    → Dict.get id_map p ≡ some i
unfolding find_point_id Dict.get
find_point_id-get [] i h p e = ground (arith, e)
find_point_id-get ((key, v) ∷ rest) i (absent, h) p e = elim (Bool-cases (nat_eq v i)) [
  | inl q ↦ ground (arith, q, e, nat_eq_iff v i, bytes_eq.same_iff key p)
  | inr q ↦ ground (arith, q, e, absent, find_point_id-get rest i h p, bytes_eq.same_iff key p)
]

result_from-id :
    (o : Option Donor) (p : Text) (similarity : ℤ) → (result_from o p similarity).cache_id ≡ p
unfolding result_from
result_from-id none p similarity = refl
result_from-id (some d) p similarity = refl

result_from-similarity :
    (o : Option Donor) (p : Text) (similarity : ℤ)
    → (result_from o p similarity).similarity ≡ similarity
unfolding result_from
result_from-similarity none p similarity = refl
result_from-similarity (some d) p similarity = refl

-- A call of the store, its reopening by another process, or a change in what its writes do.
pub data Call (E : Type 0) : Type 0 where
  call_search : Text → List E → ℕ → Option ℤ → Call E
  call_upsert : Text → Text → List E → Donor → Call E
  call_delete : Text → List Text → Call E
  call_ensure : Text → ℕ → Call E
  call_reopen : Call E
  call_disk : Disk → Call E

-- No write is torn from here on.
abbrev pub IsWhole : {E : Type 0} → Call E → Type 0
IsWhole (call_search c vec n threshold) = Unit
IsWhole (call_upsert c p vec d) = Unit
IsWhole (call_delete c pids) = Unit
IsWhole (call_ensure c dim) = Unit
IsWhole call_reopen = Unit
IsWhole (call_disk d) = d ≢ torn

module _ {I E : Type 0} (lib : FaissLib I E) where
  unfoldable pub call : Call E → FaissStore I → FaissStore I
  call (call_search c vec n threshold) s = (search lib s c vec n threshold).0
  call (call_upsert c p vec d) s = (upsert lib s c p vec d).0
  call (call_delete c pids) s = (delete lib s c pids).0
  call (call_ensure c dim) s = (ensure_collection lib s c dim).0
  call call_reopen s = reopen s
  call (call_disk d) s = record s { disk = d }

  unfoldable pub run : List (Call E) → FaissStore I → FaissStore I
  run [] s = s
  run (op ∷ ops) s = run ops (call op s)

  module _ (laws : FaissLaws lib) where
    call-IsValid :
        (op : Call E) (s : FaissStore I)
        → IsWhole op
        → IsValid lib laws s
        → IsValid lib laws (call op s)
    unfolding call
    call-IsValid (call_search c vec n threshold) s whole valid =
        search-IsValid lib laws s c vec n threshold valid
    call-IsValid (call_upsert c p vec d) s whole valid = upsert-IsValid lib laws s c p vec d valid
    call-IsValid (call_delete c pids) s whole valid = delete-IsValid lib laws s c pids valid
    call-IsValid (call_ensure c dim) s whole valid =
        ensure_collection-IsValid lib laws s c dim valid
    call-IsValid call_reopen s whole valid = reopen-IsValid lib laws s valid
    call-IsValid (call_disk d) s whole valid = record {
      held = valid.held;
      stored = valid.stored;
      whole = whole;
    }

    -- Any calls, reopenings and failures keep every collection coherent, in memory and on disk, where each
    -- write of the files is published whole or raises, which may change from call to call, and none is
    -- torn: no two points share an int id, ids are below the next one, every point of an index of the
    -- store's dimension has a vector, and no unused id has one.
    pub run-IsValid :
        (ops : List (Call E)) (s : FaissStore I)
        → All IsWhole ops
        → IsValid lib laws s
        → IsValid lib laws (run ops s)
    unfolding run
    run-IsValid [] s whole valid = valid
    run-IsValid (op ∷ ops) s (w, whole) valid =
        run-IsValid ops (call op s) whole (call-IsValid op s w valid)

    -- The fields that a result has from the payload of its point, if there is one.
    abbrev pub HasPayload : Option Donor → VectorSearchResult → Type 0
    HasPayload none r = (r.prompt ≡ []) × (r.saved_steps ≡ []) × (r.payload ≡ none)
    HasPayload (some d) r =
        (r.prompt ≡ d.prompt) × (r.saved_steps ≡ d.saved_steps) × (r.payload ≡ some d.prompt)

    result_from-HasPayload :
        (o : Option Donor) (p : Text) (similarity : ℤ) → HasPayload o (result_from o p similarity)
    unfolding result_from
    result_from-HasPayload none p similarity = (refl, refl, refl)
    result_from-HasPayload (some d) p similarity = (refl, refl, refl)

    -- A result is a point of the collection, the index has a vector under its id, its fields are those
    -- of the payload that the collection has for it, and its similarity reaches the threshold.
    abbrev pub IsLive : I → CollectionMeta → Option ℤ → VectorSearchResult → Type 0
    IsLive index m threshold r =
        (i : ℕ) × (Dict.get m.id_map r.cache_id ≡ some i)
        × (laws.vector_of index i ≢ none)
        × HasPayload (Dict.get m.payload r.cache_id) r
        × ((t : ℤ) → threshold ≡ some t → int_leb t r.similarity ≡ true)

    reached :
        (threshold : Option ℤ) (similarity : ℤ)
        → clears threshold similarity ≡ true
        → (t : ℤ) → threshold ≡ some t
        → int_leb t similarity ≡ true
    unfolding clears
    reached none similarity e t q = ground (arith, q)
    reached (some x) similarity e t q = ground (arith, e, q)

    live_result-IsLive :
        (o : Option Text) (index : I) (m : CollectionMeta) (similarity : ℤ) (threshold : Option ℤ)
        (rest : List VectorSearchResult) (i : ℕ)
        → ((p : Text) → o ≡ some p → Dict.get m.id_map p ≡ some i)
        → laws.vector_of index i ≢ none
        → All (IsLive index m threshold) rest
        → All (IsLive index m threshold) (live_result o m similarity threshold rest)
    unfolding live_result result_of
    live_result-IsLive none index m similarity threshold rest i known live h = h
    live_result-IsLive (some p) index m similarity threshold rest i known live h =
        let o = Dict.get m.payload p in
        let same_id = result_from-id o p similarity in
        let same = result_from-similarity o p similarity in
        elim (Bool-cases (clears threshold similarity)) [
          | inl e ↦ rw e (
            (
              i,
              rw same_id (known p refl),
              live,
              subst (λ q. HasPayload (Dict.get m.payload q) (result_from o p similarity))
                  (sym same_id) (result_from-HasPayload o p similarity),
              rw same (reached threshold similarity e),
            ),
            h,
          )
          | inr e ↦ rw e h
        ]

    collect_results-IsLive :
        (dim : ℕ) (index_type : Text) (index : I) (m : CollectionMeta) (threshold : Option ℤ)
        (hits : List (ℤ × ℤ))
        → IsCoherent lib laws dim index m
        → ((d : ℤ) (i : ℕ) → Memᴰ (d, pos i) hits → laws.vector_of index i ≢ none)
        → All (IsLive index m threshold) (collect_results lib index_type m threshold hits)
    unfolding collect_results
    collect_results-IsLive dim index_type index m threshold [] coherent live = tt
    collect_results-IsLive dim index_type index m threshold ((d, negsuc i) ∷ hits) coherent live =
        collect_results-IsLive dim index_type index m threshold hits coherent
          (λ e j at. live e j (Memᴰ.tail at))
    collect_results-IsLive dim index_type index m threshold ((d, pos i) ∷ hits) coherent live =
        live_result-IsLive (find_point_id m.id_map i) index m (similarity_of lib index_type d)
          threshold _ i (find_point_id-get m.id_map i coherent.once) (live d i (Memᴰ.head refl))
          (collect_results-IsLive dim index_type index m threshold hits coherent
            (λ e j at. live e j (Memᴰ.tail at)))

    -- What a search of a valid store returns, and the collection in memory behind it.
    abbrev pub Finds : Text → Option ℤ → FaissStore I × Option (List VectorSearchResult) → Type 0
    Finds c threshold (s, none) = Unit
    Finds c threshold (s, some []) = Unit
    Finds c threshold (s, some (r ∷ rs)) =
        (index : I) × (m : CollectionMeta) × (Dict.get s.metadata c ≡ some m)
        × All (IsLive index m threshold) (r ∷ rs)

    Finds-All :
        (s : FaissStore I) (c : Text) (index : I) (m : CollectionMeta) (threshold : Option ℤ)
        (results : List VectorSearchResult)
        → Dict.get s.metadata c ≡ some m
        → All (IsLive index m threshold) results
        → Finds c threshold (s, some results)
    Finds-All s c index m threshold [] e h = tt
    Finds-All s c index m threshold (r ∷ rs) e h = (index, m, e, h)

    search_loaded-Finds :
        (l : FaissStore I × Loaded I) (c : Text) (vec : List E) (n : ℕ) (threshold : Option ℤ)
        → Loads lib laws c l
        → Finds c threshold (search_loaded lib l c vec n threshold)
    unfolding search_loaded
    search_loaded-Finds (s, missing) c vec n threshold h = tt
    search_loaded-Finds (s, load_error) c vec n threshold h = tt
    search_loaded-Finds (s, loaded index) c vec n threshold (valid, (m, e, coherent)) =
        elim (Bool-cases (nat_eq (length vec) s.vector_dim)) [
          | inr q ↦ rw q tt
          | inl q ↦
              rw (q, e)
                (Finds-All s c index m threshold _ e (
                  collect_results-IsLive s.vector_dim s.index_type index m threshold
                    (lib.index_search index (prepared lib s.index_type vec) n) coherent
                    (laws.of_search index (prepared lib s.index_type vec) n)))
        ]

    pub search-Finds :
        (s : FaissStore I) (c : Text) (vec : List E) (n : ℕ) (threshold : Option ℤ)
        → IsValid lib laws s
        → Finds c threshold (search lib s c vec n threshold)
    unfolding search
    search-Finds s c vec n threshold valid =
        search_loaded-Finds (load_index s c) c vec n threshold (load_index-Loads lib laws s c valid)
