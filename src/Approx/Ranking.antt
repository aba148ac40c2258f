-- ===== src/Approx/Ranking.antt =====
-- The search of reuse/approximate/strategy.py: `_vector_search`'s order of the candidates, the
-- reranking, and the candidate that `lookup` settles on.
pub mod Bounds
pub mod Best
use cache_seek.Prelude.{
  ℕ, ◌+◌, max, Bool, true, false, not, ◌&&◌, ◌||◌, Option, none, some, List, [], ◌∷◌, Text, Bytes,
  codes, take, length, nat_eq, if◌then◌else◌,
}
use cache_seek.Prelude.Int.{ℤ, pos, negsuc, int_beq, int_leb}
use cache_seek.Service.Lifecycle.Settings.{or_default}
use cache_seek.Metadata.{normalize_cache_id}
use cache_seek.Approx.SkipStep.{determine_skip_step}
use cache_seek.Approx.Backends.{
  VectorSearchResult, Candidate, Reranker, unavailable, without_score_mm, scorer, ApproxConfig,
}

-- `max(1, int(top_k or 1))`
unfoldable pub at_least_one : ℤ → ℕ
at_least_one (pos n) = max 1 n
at_least_one (negsuc n) = 1

unfoldable pub top_k_of : ApproxConfig → ℕ
top_k_of cfg = if cfg.rerank_enabled then at_least_one cfg.rerank_top_k else 1

-- `res.sort(key=lambda item: item.similarity, reverse=True)`: equal ones keep their order.
unfoldable pub insert_result :
    VectorSearchResult → List VectorSearchResult → List VectorSearchResult
insert_result r [] = r ∷ []
insert_result r (x ∷ xs) =
    let rest = insert_result r xs in
    if int_leb x.similarity r.similarity then r ∷ x ∷ xs else x ∷ rest

unfoldable pub sort_results : List VectorSearchResult → List VectorSearchResult
sort_results [] = []
sort_results (r ∷ rs) = insert_result r (sort_results rs)

-- `_normalize_search_results`
unfoldable pub normalize_search_results : List VectorSearchResult → List VectorSearchResult
normalize_search_results [] = []
normalize_search_results (r ∷ rs) =
    (record r { cache_id = normalize_cache_id r.cache_id }) ∷ normalize_search_results rs

-- `_candidate_text`; the second case is an empty prompt.
unfoldable pub candidate_text : VectorSearchResult → Text
candidate_text r = elim r.prompt [ [] ↦ or_default r.payload [] | c ∷ cs ↦ c ∷ cs ]

-- `_build_rerank_documents`: a document is empty or has a text.
unfoldable pub rerank_document : Text → Option Text
rerank_document [] = none
rerank_document (c ∷ cs) = some (c ∷ cs)

unfoldable pub build_rerank_documents : List VectorSearchResult → List (Option Text)
build_rerank_documents [] = []
build_rerank_documents (r ∷ rs) = rerank_document (candidate_text r) ∷ build_rerank_documents rs

unfoldable pub has_text_docs : List (Option Text) → Bool
has_text_docs [] = false
has_text_docs (none ∷ docs) = has_text_docs docs
has_text_docs (some t ∷ docs) = true

-- `_rerank_scores`: `None`, the scores, or an error.
pub data Rerank : Type 0 where
  no_rerank rerank_error : Rerank
  rerank_scores : List ℤ → Rerank

-- `[float(value) for value in scores]`, in the loop that fails where one does.
unfoldable pub all_scores : List (Option ℤ) → Option (List ℤ)
all_scores [] = some []
all_scores (none ∷ scores) = none
all_scores (some s ∷ scores) = elim (all_scores scores) [ none ↦ none | some ss ↦ some (s ∷ ss) ]

-- The checks of what the reranker returned, for the number of candidates.
unfoldable pub check_scores : Option (List (Option ℤ)) → ℕ → Rerank
check_scores none n = rerank_error
check_scores (some []) n = rerank_error
check_scores (some (s ∷ ss)) n =
    if nat_eq (length (s ∷ ss)) n
    then (elim (all_scores (s ∷ ss)) as (λ _. Rerank) [
      | none ↦ rerank_error
      | some scores ↦ rerank_scores scores
    ])
    else rerank_error

unfoldable pub compute_rerank_scores : Reranker → Text → List VectorSearchResult → Rerank
compute_rerank_scores unavailable query results = no_rerank
compute_rerank_scores without_score_mm query results = no_rerank
compute_rerank_scores (scorer score_mm) query results =
    let documents = build_rerank_documents results in
    if has_text_docs documents
    then check_scores (score_mm query documents) (length results)
    else no_rerank

-- The candidate that a lookup settles on, its score and the step, if it passes the thresholds.
pub record Choice : Type 0 where
  pub result : VectorSearchResult
  pub hit_score : ℤ
  pub skip_step : ℤ

-- A candidate against a threshold, and its step against 0.
unfoldable pub accept : VectorSearchResult → ℤ → ℤ → ℤ → Option Choice
accept result score threshold step =
    if int_leb threshold score
    then (if int_leb step (pos 0)
        then none
        else some (record { result = result; hit_score = score; skip_step = step }))
    else none

-- On the first candidate; `none` where the comparison raises, because there is no threshold.
unfoldable pub choose_by_similarity :
    ApproxConfig → List VectorSearchResult → Option (Option Choice)
choose_by_similarity cfg [] = some none
choose_by_similarity cfg (result ∷ results) = elim cfg.video_similarity_threshold [
  | none ↦ none
  | some threshold ↦ some (
      accept result result.similarity threshold
        (determine_skip_step cfg.skip result.saved_steps none))
]

-- `max(range(len(scores)), key=...)`: the first of the best.
unfoldable pub best_scored : List VectorSearchResult → List ℤ → Option (VectorSearchResult × ℤ)
best_scored [] scores = none
best_scored (r ∷ rs) [] = none
best_scored (r ∷ rs) (s ∷ ss) = elim (best_scored rs ss) [
  | none ↦ some (r, s)
  | some best ↦ some (if int_leb best.1 s then (r, s) else best)
]

-- `float(... or 0.80)`
abbrev pub rerank_threshold : ApproxConfig → ℤ
rerank_threshold cfg =
    if int_beq cfg.rerank_score_threshold (pos 0) then pos 800_000 else cfg.rerank_score_threshold

unfoldable pub choose_by_scores : ApproxConfig → List VectorSearchResult → List ℤ → Option Choice
choose_by_scores cfg results scores = elim (best_scored results scores) [
  | none ↦ none
  | some best ↦
      accept best.0 best.1 (rerank_threshold cfg)
        (determine_skip_step cfg.skip best.0.saved_steps (some best.1))
]

-- The elements of `candidates=`, in the stage of the vector search and in that of the reranking.
unfoldable pub search_candidates : List VectorSearchResult → List Candidate
search_candidates [] = []
search_candidates (r ∷ rs) =
    (record {
      cache_id = r.cache_id;
      similarity = r.similarity;
      rerank_score = none;
      prompt = r.prompt;
      saved_steps = r.saved_steps;
    })
    ∷ search_candidates rs

unfoldable pub rerank_candidates : List VectorSearchResult → List ℤ → List Candidate
rerank_candidates [] scores = []
rerank_candidates (r ∷ rs) [] = []
rerank_candidates (r ∷ rs) (s ∷ ss) =
    (record {
      cache_id = r.cache_id;
      similarity = r.similarity;
      rerank_score = some s;
      prompt = r.prompt;
      saved_steps = r.saved_steps;
    })
    ∷ rerank_candidates rs ss
