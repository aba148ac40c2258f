-- ===== src/Approx/Ranking/Bounds.antt =====
-- `_vector_search` of reuse/approximate/strategy.py: how many candidates it returns, and which.
use mathlib.Core.List.{Permᴰ}
use mathlib.Core.List.Permᴰ
use cache_seek.Prelude.{
  ℕ, zero, suc, ◌≤◌, ◌≡◌, refl, true, List, [], ◌∷◌, ◌++◌, All, take, drop, length, arith, inl, inr,
  Bool-cases,
}
use cache_seek.Prelude.Int.{int_leb, int_leb_trans, int_leb_total}
use cache_seek.Approx.Backends.{VectorSearchResult}
use cache_seek.Approx.Ranking.{insert_result, sort_results}

abbrev Below : VectorSearchResult → List VectorSearchResult → Type 0
Below r rs = All (λ x. int_leb x.similarity r.similarity ≡ true) rs

-- No candidate is more similar than one before it.
abbrev pub Descends : List VectorSearchResult → Type 0
Descends [] = Unit
Descends (r ∷ rs) = Below r rs × Descends rs

-- `out` has the best of the candidates that were found, at most `k`, in descending order: the others
-- can be put behind it.
abbrev pub TopOf : ℕ → List VectorSearchResult → List VectorSearchResult → Type 0
TopOf k found out =
    (length out ≤ k)
    × ((rest : List VectorSearchResult) × Permᴰ (out ++ rest) found × Descends (out ++ rest))

Below-trans :
    (r s : VectorSearchResult) (rs : List VectorSearchResult)
    → int_leb s.similarity r.similarity ≡ true
    → Below s rs
    → Below r rs
Below-trans r s [] h below = tt
Below-trans r s (x ∷ xs) h (hx, hxs) =
    (int_leb_trans x.similarity s.similarity r.similarity hx h, Below-trans r s xs h hxs)

insert_result-Below :
    (r s : VectorSearchResult) (rs : List VectorSearchResult)
    → int_leb s.similarity r.similarity ≡ true
    → Below r rs
    → Below r (insert_result s rs)
unfolding insert_result
insert_result-Below r s [] h below = (h, tt)
insert_result-Below r s (x ∷ xs) h (hx, hxs) =
    elim (Bool-cases (int_leb x.similarity s.similarity)) [
      | inl e ↦ rw e (h, (hx, hxs))
      | inr e ↦ rw e (hx, insert_result-Below r s xs h hxs)
    ]

insert_result-Descends :
    (s : VectorSearchResult) (rs : List VectorSearchResult)
    → Descends rs
    → Descends (insert_result s rs)
unfolding insert_result
insert_result-Descends s [] h = (tt, tt)
insert_result-Descends s (x ∷ xs) (hx, hxs) =
    elim (Bool-cases (int_leb x.similarity s.similarity)) [
      | inl e ↦ rw e ((e, Below-trans s x xs e hx), (hx, hxs))
      | inr e ↦ rw e (
        insert_result-Below x s xs (int_leb_total x.similarity s.similarity e) hx,
        insert_result-Descends s xs hxs,
      )
    ]

insert_result-Perm :
    (s : VectorSearchResult) (rs : List VectorSearchResult) → Permᴰ (insert_result s rs) (s ∷ rs)
unfolding insert_result
insert_result-Perm s [] = Permᴰ.refl (s ∷ [])
insert_result-Perm s (x ∷ xs) = elim (Bool-cases (int_leb x.similarity s.similarity)) [
  | inl e ↦ rw e (Permᴰ.refl (s ∷ x ∷ xs))
  | inr e ↦ rw e (Permᴰ.trans (Permᴰ.cons refl (insert_result-Perm s xs)) (Permᴰ.swap refl refl))
]

sort_results-Descends : (rs : List VectorSearchResult) → Descends (sort_results rs)
unfolding sort_results
sort_results-Descends [] = tt
sort_results-Descends (r ∷ rs) =
    insert_result-Descends r (sort_results rs) (sort_results-Descends rs)

sort_results-Perm : (rs : List VectorSearchResult) → Permᴰ (sort_results rs) rs
unfolding sort_results
sort_results-Perm [] = Permᴰ.nil
sort_results-Perm (r ∷ rs) =
    Permᴰ.trans (insert_result-Perm r (sort_results rs)) (Permᴰ.cons refl (sort_results-Perm rs))

take-append-drop : {A : Type 0} (k : ℕ) (xs : List A) → take k xs ++ drop k xs ≡ xs
take-append-drop zero xs = refl
take-append-drop (suc k) [] = refl
take-append-drop (suc k) (x ∷ xs) = rw (take-append-drop k xs) refl

length-take_le : {A : Type 0} (k : ℕ) (xs : List A) → length (take k xs) ≤ k
length-take_le zero xs = omega arith
length-take_le (suc k) [] = omega arith
length-take_le (suc k) (x ∷ xs) = omega (arith, length-take_le k xs)

-- The candidates that a vector search returns are at most `k` of those that the store found, no less
-- similar than the others, and in the order of descending similarity.
pub take-sort_results :
    (k : ℕ) (found : List VectorSearchResult) → TopOf k found (take k (sort_results found))
take-sort_results k found = (
  length-take_le k (sort_results found),
  (
    drop k (sort_results found),
    rw (take-append-drop k (sort_results found)) (sort_results-Perm found),
    rw (take-append-drop k (sort_results found)) (sort_results-Descends found),
  ),
)
