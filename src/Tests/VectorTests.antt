-- ===== src/Tests/VectorTests.antt =====
-- The theorems on the FAISS store, applied to an index that is a dict of vectors.
use mathlib.Core.List.{Memᴰ}
use mathlib.Core.Path.{subst}
use cache_seek.Prelude.{
  ◌≡◌, ◌≢◌, refl, ℕ, false, none, some, List, [], ◌∷◌, Text, bytes_eq, ℕ_eq, codes, arith,
  nat_eq_iff, if◌then◌else◌,
}
use cache_seek.Prelude.Int.{ℤ, pos}
use cache_seek.Dict
use cache_seek.Dict.{Dict, get-put, get-pop}
use cache_seek.Service.Lifecycle.Settings.{lower}
use cache_seek.Approx.Backends.{Donor, VectorSearchResult}
use cache_seek.Vectors.Faiss.Library.{FaissLib, FaissLaws, elem}
use cache_seek.Vectors.Faiss.{
  CollectionMeta, writable, meta_unwritable, torn, FaissStore, loaded, load_error, save_index_on,
  save_index, load_meta, read_index, load_index_from, load_index, is_l2, is_cosine, family_of,
  find_point_id, result_from, result_of, clears, live_result, add_id, forget, reopen,
}
use cache_seek.Vectors.Faiss.Operations.{
  create_collection, ensure_loaded, ensure_collection, prepared, claim_id, add_point, add_vector,
  add_outcome, upsert_into, upsert_found, upsert_created, upsert_loaded, upsert, remove_some,
  delete_from, delete_loaded, delete, similarity_of, collect_results, search_loaded, search,
}
use cache_seek.Vectors.Faiss.Coherent.{IsCoherent}
use cache_seek.Vectors.Faiss.Invariant.{IsValid, upsert-IsValid}
use cache_seek.Vectors.Faiss.Run.{
  call_upsert, call_delete, call_ensure, call_disk, call_reopen, call_search, run, run-IsValid,
}
use cache_seek.Vectors.Faiss.Faults.{HasPoint, upsert-HasPoint, delete-Unfound}
use cache_seek.Vectors.Faiss.Torn.{torn-reused_id, load_index-retry}

abbrev Vectors : Type 0
Vectors = Dict ℕ (List ℕ)

-- A dimension, and the vectors.
abbrev Index : Type 0
Index = ℕ × Vectors

abbrev pop_all : Vectors → List ℕ → Vectors
pop_all d [] = d
pop_all d (i ∷ is) = Dict.pop (pop_all d is) i

abbrev hits : Vectors → List (ℤ × ℤ)
hits [] = []
hits ((i, v) ∷ rest) = (pos 0, pos i) ∷ hits rest

abbrev toy : FaissLib Index ℕ
toy = record {
  new_index = λ family dim. (dim, []);
  dimension = λ index. index.0;
  add_with_ids = λ index v i. (index.0, Dict.put index.1 i v);
  remove_ids = λ index is. (index.0, pop_all index.1 is);
  index_search = λ index v n. hits index.1;
  normalize_l2 = λ v. v;
  inverse_distance = λ d. d;
}

get-pop_all :
    (d : Vectors) (is : List ℕ) (j : ℕ)
    → Dict.get (pop_all d is) j ≡ (if elem j is then none else Dict.get d j)
get-pop_all d [] j = refl
get-pop_all d (i ∷ is) j =
    ground (arith, get-pop_all d is j, get-pop (pop_all d is) i j, nat_eq_iff i j, nat_eq_iff j i)

hits-get : (d : Vectors) (x : ℤ) (i : ℕ) → Memᴰ (x, pos i) (hits d) → Dict.get d i ≢ none
unfolding Dict.get
hits-get [] x i at = elim at [ ]
hits-get ((j, v) ∷ rest) x i (Memᴰ.head e) = λ h. ground (arith, e, h, nat_eq_iff j i)
hits-get ((j, v) ∷ rest) x i (Memᴰ.tail at) = λ h. ground (arith, hits-get rest x i at, h)

empty : (i : ℕ) → Dict.get {K = ℕ} {V = List ℕ} [] i ≡ none
unfolding Dict.get
empty i = refl

toy_laws : FaissLaws toy
toy_laws = record {
  vector_of = λ index i. Dict.get index.1 i;
  of_new = λ f d i. empty i;
  of_add = λ index v i j fits free. get-put index.1 i j v;
  dimension_new = λ f d. refl;
  dimension_add = λ index v i. refl;
  dimension_remove = λ index is. refl;
  length_normalize = λ v. refl;
  of_remove = λ index is j. get-pop_all index.1 is j;
  of_search = λ index v n d i at. hits-get index.1 d i at;
}

abbrev video : Text
video = codes "video"

abbrev donor : Donor
donor = record { prompt = codes "p"; saved_steps = pos 5 ∷ []; task_type = codes "t2v" }

abbrev blank : FaissStore Index
blank = record {
  vector_dim = 2;
  index_type = codes "ip";
  indices = [];
  metadata = [];
  index_files = [];
  meta_files = [];
  disk = writable;
}

not_torn : writable ≢ torn
not_torn h = ground (arith, h)

unwritable_not_torn : meta_unwritable ≢ torn
unwritable_not_torn h = ground (arith, h)

blank-IsValid : IsValid toy toy_laws blank
unfolding Dict.get
blank-IsValid = record { held = λ c. tt; stored = λ c. tt; whole = not_torn }

run-IsValid_example : IsValid toy toy_laws (
    run toy
      (call_upsert video (codes "a") (8 ∷ 9 ∷ []) donor
        ∷ call_reopen
        ∷ call_ensure (codes "x") 3
        ∷ call_upsert (codes "x") (codes "b") (7 ∷ 9 ∷ []) donor
        ∷ call_disk meta_unwritable
        ∷ call_upsert video (codes "b") (7 ∷ 9 ∷ []) donor
        ∷ call_delete video (codes "a" ∷ [])
        ∷ call_search video (8 ∷ 9 ∷ []) 1 none
        ∷ [])
      blank)
run-IsValid_example =
    run-IsValid toy toy_laws _ blank
      (tt, (tt, (tt, (tt, (unwritable_not_torn, (tt, (tt, (tt, tt)))))))) blank-IsValid

abbrev one_meta : CollectionMeta
one_meta = record { id_map = (codes "a", 1) ∷ []; payload = (codes "a", donor) ∷ []; next_id = 2 }

abbrev one_index : Index
one_index = (2, (1, 8 ∷ 9 ∷ []) ∷ [])

abbrev one_point : FaissStore Index
one_point = record {
  vector_dim = 2;
  index_type = codes "ip";
  indices = (video, one_index) ∷ [];
  metadata = (video, one_meta) ∷ [];
  index_files = (video, some one_index) ∷ [];
  meta_files = (video, some one_meta) ∷ [];
  disk = writable;
}

upserted : (upsert toy blank video (codes "a") (8 ∷ 9 ∷ []) donor).0 ≡ one_point
unfolding upsert upsert_loaded load_index load_index_from Dict.get read_index upsert_created
    ensure_collection ensure_loaded create_collection family_of is_l2 lower save_index save_index_on
    upsert_found Dict.put upsert_into add_point add_vector add_outcome claim_id prepared is_cosine
    load_meta
upserted = refl

one_point-IsValid : IsValid toy toy_laws one_point
one_point-IsValid =
    subst (IsValid toy toy_laws) upserted
      (upsert-IsValid toy toy_laws blank video (codes "a") (8 ∷ 9 ∷ []) donor blank-IsValid)

-- The same, on a disk where the metadata cannot be written.
abbrev full_disk : FaissStore Index
full_disk = record one_point { disk = meta_unwritable }

full_disk-IsValid : IsValid toy toy_laws full_disk
full_disk-IsValid = record {
  held = one_point-IsValid.held;
  stored = one_point-IsValid.stored;
  whole = unwritable_not_torn;
}

full_loads : load_index full_disk video ≡ (full_disk, loaded one_index)
unfolding load_index load_index_from Dict.get
full_loads = refl

upsert-HasPoint_example :
    HasPoint toy toy_laws
      (upsert toy full_disk video (codes "b") (7 ∷ 9 ∷ []) donor).0
      video
      (codes "b")
      (7 ∷ 9 ∷ [])
      donor
    × ((upsert toy full_disk video (codes "b") (7 ∷ 9 ∷ []) donor).1 ≡ false)
upsert-HasPoint_example =
    upsert-HasPoint toy toy_laws full_disk full_disk video (codes "b") (7 ∷ 9 ∷ []) donor one_index
      full_disk-IsValid full_loads refl refl

abbrev two_points : FaissStore Index
two_points = (upsert toy full_disk video (codes "b") (7 ∷ 9 ∷ []) donor).0

abbrev the_hit : VectorSearchResult
the_hit = record {
  cache_id = codes "b";
  similarity = pos 0;
  prompt = codes "p";
  saved_steps = pos 5 ∷ [];
  payload = some (codes "p");
}

abbrev two_index : Index
two_index = (2, (1, 8 ∷ 9 ∷ []) ∷ (2, 7 ∷ 9 ∷ []) ∷ [])

two_loads : load_index two_points video ≡ (two_points, loaded two_index)
unfolding upsert upsert_loaded load_index load_index_from Dict.get read_index upsert_created
    ensure_collection ensure_loaded create_collection family_of is_l2 lower save_index save_index_on
    upsert_found Dict.put upsert_into add_point add_vector add_outcome claim_id prepared is_cosine
    load_meta
two_loads = refl

hit_left :
    (search toy (delete toy two_points video (codes "a" ∷ [])).0 video (8 ∷ 9 ∷ []) 1 none).1
    ≡ some (the_hit ∷ [])
unfolding search search_loaded collect_results similarity_of live_result clears result_of
    result_from find_point_id delete delete_loaded delete_from forget add_id remove_some Dict.pop
    upsert upsert_loaded load_index load_index_from Dict.get read_index upsert_created
    ensure_collection ensure_loaded create_collection family_of is_l2 lower save_index save_index_on
    upsert_found Dict.put upsert_into add_point add_vector add_outcome claim_id prepared is_cosine
    load_meta
hit_left = refl

delete-Unfound_example : ¬ Memᴰ (codes "b") (codes "a" ∷ [])
delete-Unfound_example =
    delete-Unfound toy toy_laws two_points two_points video (codes "a" ∷ []) two_index (8 ∷ 9 ∷ [])
      1 none (the_hit ∷ []) the_hit
      (upsert-IsValid toy toy_laws full_disk video (codes "b") (7 ∷ 9 ∷ []) donor full_disk-IsValid)
      two_loads hit_left (Memᴰ.head refl)

abbrev torn_disk : FaissStore Index
torn_disk = record one_point { disk = torn }

torn_loads : load_index torn_disk video ≡ (torn_disk, loaded one_index)
unfolding load_index load_index_from Dict.get
torn_loads = refl

one-IsCoherent : IsCoherent toy toy_laws 2 one_index one_meta
unfolding Dict.get
one-IsCoherent = one_point-IsValid.held video

absent_b : Dict.get one_meta.id_map (codes "b") ≡ none
unfolding Dict.get
absent_b = refl

absent_c : Dict.get one_meta.id_map (codes "c") ≡ none
unfolding Dict.get
absent_c = refl

in_memory : Dict.get torn_disk.metadata video ≡ some one_meta
unfolding Dict.get
in_memory = refl

on_disk : Dict.get torn_disk.meta_files video ≡ some (some one_meta)
unfolding Dict.get
on_disk = refl

torn-reused_id_example :
    let s2 = reopen (upsert toy torn_disk video (codes "b") (7 ∷ 9 ∷ []) donor).0 in
    (index' : Index) × ((load_index s2 video).1 ≡ loaded index')
    × (Dict.get (load_index s2 video).0.metadata video ≡ some one_meta)
    × (toy_laws.vector_of index'
          (claim_id toy (Dict.get one_meta.id_map (codes "c")) index' one_meta (codes "c")).0
        ≡ some (prepared toy (codes "ip") (7 ∷ 9 ∷ [])))
torn-reused_id_example =
    torn-reused_id toy toy_laws torn_disk torn_disk video (codes "b") (codes "c") (7 ∷ 9 ∷ []) donor
      one_index one_meta one-IsCoherent torn_loads in_memory on_disk refl refl refl absent_b
      absent_c

abbrev corrupt : FaissStore Index
corrupt = record blank {
  index_files = (video, some one_index) ∷ [];
  meta_files = (video, none) ∷ [];
}

corrupt_memory : (Dict.get corrupt.indices video ≡ none) × (Dict.get corrupt.metadata video ≡ none)
unfolding Dict.get
corrupt_memory = (refl, refl)

corrupt_files :
    (Dict.get corrupt.index_files video ≡ some (some one_index))
    × (Dict.get corrupt.meta_files video ≡ some none)
unfolding Dict.get
corrupt_files = (refl, refl)

load_index-retry_example :
    let s1 = (load_index corrupt video).0 in
    ((load_index corrupt video).1 ≡ load_error)
    × (load_index s1 video ≡ (s1, loaded one_index))
    × (Dict.get s1.metadata video ≡ none)
load_index-retry_example =
    load_index-retry toy toy_laws corrupt video one_index corrupt_memory.0 corrupt_memory.1
      corrupt_files.0 corrupt_files.1
