-- ===== src/Vectors/Faiss/Library.antt =====
-- The faiss library, as backends/vector/faiss.py uses it: an `IndexIDMap2` over a flat index.
use mathlib.Core.List.{Memᴰ}
use cache_seek.Prelude.{
  length, ℕ, ◌≡◌, ◌≢◌, Bool, false, ◌||◌, Option, none, some, List, [], ◌∷◌, nat_eq, if◌then◌else◌,
}
use cache_seek.Prelude.Int.{ℤ, pos}

pub data IndexFamily : Type 0 where
  flat_l2 flat_ip : IndexFamily

-- `add_with_ids` raises where the vector's length is not the index's dimension. `index_search` is the
-- pairs of distances and ids, -1 where there is none. `inverse_distance` is
-- `1.0 / (1.0 + d)`.
pub record FaissLib (I E : Type 0) : Type 0 where
  pub new_index : IndexFamily → ℕ → I
  pub dimension : I → ℕ
  pub add_with_ids : I → List E → ℕ → I
  pub remove_ids : I → List ℕ → I
  pub index_search : I → List E → ℕ → List (ℤ × ℤ)
  pub normalize_l2 : List E → List E
  pub inverse_distance : ℤ → ℤ

abbrev pub elem : ℕ → List ℕ → Bool
elem i [] = false
elem i (j ∷ js) = nat_eq i j || elem i js

-- The vector under an id, while an id is added only where it has none.
pub record FaissLaws {I E : Type 0} (lib : FaissLib I E) : Type 0 where
  pub vector_of : I → ℕ → Option (List E)
  pub of_new : (f : IndexFamily) (d i : ℕ) → vector_of (lib.new_index f d) i ≡ none
  pub of_add :
      (index : I) (v : List E) (i j : ℕ)
      → length v ≡ lib.dimension index
      → vector_of index i ≡ none
      → vector_of (lib.add_with_ids index v i) j
        ≡ (if nat_eq i j then some v else vector_of index j)
  pub dimension_new : (f : IndexFamily) (d : ℕ) → lib.dimension (lib.new_index f d) ≡ d
  pub dimension_add :
      (index : I) (v : List E) (i : ℕ)
      → lib.dimension (lib.add_with_ids index v i) ≡ lib.dimension index
  pub dimension_remove :
      (index : I) (ids : List ℕ) → lib.dimension (lib.remove_ids index ids) ≡ lib.dimension index
  pub length_normalize : (v : List E) → length (lib.normalize_l2 v) ≡ length v
  pub of_remove :
      (index : I) (ids : List ℕ) (j : ℕ)
      → vector_of (lib.remove_ids index ids) j ≡ (if elem j ids then none else vector_of index j)
  pub of_search :
      (index : I) (v : List E) (n : ℕ) (d : ℤ) (i : ℕ)
      → Memᴰ (d, pos i) (lib.index_search index v n)
      → vector_of index i ≢ none
