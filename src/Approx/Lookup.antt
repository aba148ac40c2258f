-- ===== src/Approx/Lookup.antt =====
-- `VideoBasedApproximateCache.lookup` of reuse/approximate/strategy.py. A lookup that raises is
-- `none` beside the state that it leaves.
pub mod Hit
pub mod Errors
use cache_seek.Prelude.{
  ℕ, Bool, true, false, Option, none, some, List, [], ◌∷◌, Text, Bytes, codes, take, length, nat_eq,
  if◌then◌else◌,
}
use cache_seek.Prelude.Int.{ℤ, pos, negsuc}
use cache_seek.Service.Result.{LookupResult, miss, hit_skip_step}
use cache_seek.Service.Lifecycle.Settings.{or_default}
use cache_seek.Approx.Payload.{VideoApproxPayload, step_key, single, load_payload}
use cache_seek.Approx.Backends.{
  VectorSearchResult, VectorStore, Candidate, HitPair, World, Strategy, kv_missing_after_vector_hit,
  lookup_hit,
}
use cache_seek.Approx.Ranking.{
  top_k_of, sort_results, normalize_search_results, Rerank, no_rerank, rerank_error, rerank_scores,
  compute_rerank_scores, Choice, choose_by_similarity, choose_by_scores, search_candidates,
  rerank_candidates,
}

abbrev pub cache_type : Text
cache_type = codes "video_approximate_cache"

-- `int(k)` of a positive step, as the hint's count.
unfoldable pub step_count : ℤ → ℕ
step_count (pos n) = n
step_count (negsuc n) = 0

-- What an answered call found, and nothing where it raised.
abbrev pub answered : Option (Option Bytes) → Option Bytes
answered none = none
answered (some o) = o

module _ {K V M A E T Frame : Type 0} (strategy : Strategy K V M A E T Frame) where
  abbrev W : Type 0
  W = World K V M A

  abbrev pub Result : Type 0
  Result = LookupResult (VideoApproxPayload T) ℤ (Unit {0}) (Unit {0})

  -- `_vector_search`
  unfoldable pub vector_search :
      VectorStore V E → W → List E → ℕ → W × Option (List VectorSearchResult)
  vector_search store w query_vec top_k =
      let (v, found) =
        store.search w.vectors strategy.config.video_vector_collection query_vec top_k in
      (
        record w { vectors = v },
        elim found [ none ↦ none | some res ↦ some (take top_k (sort_results res)) ],
      )

  -- `record_similarity_scores`, whose errors are logged.
  unfoldable pub record_stage : W → Text → Text → Text → List Candidate → W
  record_stage w prompt task_type stage candidates = record w {
    meta =
        (strategy.metadata_manager.record_similarity_scores w.meta prompt task_type cache_type stage
          candidates).0;
  }

  -- `_lazy_evict_stale_entry`: both errors are logged.
  unfoldable pub evict_vector : Option (VectorStore V E) → V → Text → V
  evict_vector none v cache_id = v
  evict_vector (some store) v cache_id =
      (store.delete v strategy.config.video_vector_collection (cache_id ∷ [])).0

  unfoldable pub lazy_evict_stale_entry : W → Text → W
  lazy_evict_stale_entry w cache_id = record w {
    vectors = evict_vector strategy.vector_store w.vectors cache_id;
    meta = (strategy.metadata_manager.remove_cache w.meta cache_id).0;
  }

  -- `_load_payload`; `none` where it raises.
  unfoldable pub load : K → Text → ℤ → Option (Option (VideoApproxPayload T))
  load kv cache_id step = elim (strategy.kv_store.kv_get kv (step_key cache_id step)) [
    | none ↦ none
    | some found ↦ some (
        load_payload strategy.serialize strategy.deserialize
          (λ key. answered (strategy.kv_store.kv_get kv key)) cache_id (single step))
  ]

  -- The branch of a KV miss.
  unfoldable pub stale_miss : W → Choice → W × Option Result
  stale_miss w choice =
      let event =
        kv_missing_after_vector_hit choice.result.cache_id choice.skip_step choice.result.similarity
          choice.hit_score in
      (
        lazy_evict_stale_entry (record w { audit = strategy.audit_record w.audit event })
            choice.result.cache_id,
        some (miss []),
      )

  -- The branch of a hit.
  unfoldable pub serve : W → Text → Text → Choice → VideoApproxPayload T → W × Option Result
  serve w prompt task_type choice payload =
      let result = choice.result in
      let (m1, ok) = strategy.metadata_manager.record_access w.meta result.cache_id in
      let pair : HitPair = record {
        request_prompt = prompt;
        cache_id = result.cache_id;
        cached_prompt = result.prompt;
        similarity = choice.hit_score;
        task_type = task_type;
        cache_type = cache_type;
        skip_step = choice.skip_step;
      } in
      let event =
        lookup_hit result.cache_id task_type choice.skip_step result.similarity choice.hit_score in
      if ok
      then (
        record w {
          meta = (strategy.metadata_manager.record_hit_pair m1 pair).0;
          audit = strategy.audit_record w.audit event;
        },
        some (
            hit_skip_step payload (step_count choice.skip_step) result.cache_id choice.hit_score
              result.similarity result.prompt),
      )
      else (record w { meta = m1 }, none)

  -- What follows the load.
  unfoldable pub finish :
      Option (Option (VideoApproxPayload T)) → W → Text → Text → Choice → W × Option Result
  finish none w prompt task_type choice = (w, none)
  finish (some none) w prompt task_type choice = stale_miss w choice
  finish (some (some payload)) w prompt task_type choice = serve w prompt task_type choice payload

  -- Behind the choice.
  unfoldable pub resolve : Option Choice → W → Text → Text → W × Option Result
  resolve none w prompt task_type = (w, some (miss []))
  resolve (some choice) w prompt task_type =
      finish (load w.kv choice.result.cache_id choice.skip_step) w prompt task_type choice

  -- Behind the choice by the similarity, which may raise.
  unfoldable pub resolve_similar : Option (Option Choice) → W → Text → Text → W × Option Result
  resolve_similar none w prompt task_type = (w, none)
  resolve_similar (some choice) w prompt task_type = resolve choice w prompt task_type

  -- The branches of the reranking.
  unfoldable pub lookup_reranked :
      Rerank → W → Text → Text → List VectorSearchResult → W × Option Result
  lookup_reranked no_rerank w prompt task_type results =
      resolve_similar (choose_by_similarity strategy.config results) w prompt task_type
  lookup_reranked rerank_error w prompt task_type results = (w, none)
  lookup_reranked (rerank_scores scores) w prompt task_type results =
      if nat_eq (length scores) (length results)
      then resolve (choose_by_scores strategy.config results scores)
          (record_stage w prompt task_type (codes "rerank") (rerank_candidates results scores))
          prompt task_type
      else (w, some (miss []))

  -- Behind the search, on the normalised results: with or without the reranking.
  unfoldable pub lookup_ranked :
      Bool → W → Text → Text → List VectorSearchResult → W × Option Result
  lookup_ranked true w prompt task_type results =
      lookup_reranked (compute_rerank_scores strategy.reranker prompt results) w prompt task_type
        results
  lookup_ranked false w prompt task_type results =
      resolve_similar (choose_by_similarity strategy.config results) w prompt task_type

  unfoldable pub lookup_results : W → Text → Text → List VectorSearchResult → W × Option Result
  lookup_results w prompt task_type [] = (w, some (miss []))
  lookup_results w prompt task_type (r ∷ rs) =
      lookup_ranked strategy.config.rerank_enabled
        (record_stage w prompt task_type (codes "vector_search") (search_candidates (r ∷ rs)))
        prompt task_type (r ∷ rs)

  unfoldable pub after_search :
      W × Option (List VectorSearchResult) → Text → Text → W × Option Result
  after_search (w, none) prompt task_type = (w, none)
  after_search (w, some results) prompt task_type =
      lookup_results w prompt task_type (normalize_search_results results)

  -- On what the prompt encoder returned.
  unfoldable pub lookup_embedded :
      VectorStore V E → Option (List E) → W → Text → Text → W × Option Result
  lookup_embedded store none w prompt task_type = (w, none)
  lookup_embedded store (some []) w prompt task_type = (w, some (miss []))
  lookup_embedded store (some (e ∷ es)) w prompt task_type =
      after_search (vector_search store w (e ∷ es) (top_k_of strategy.config)) prompt task_type

  unfoldable pub lookup_with :
      Option (VectorStore V E)
      → Option (Text → Option (List E))
      → W
      → Text
      → Text
      → W × Option Result
  lookup_with store encoder w [] task_type = (w, some (miss []))
  lookup_with none encoder w (c ∷ cs) task_type = (w, some (miss []))
  lookup_with (some store) none w (c ∷ cs) task_type = (w, some (miss []))
  lookup_with (some store) (some encode) w (c ∷ cs) task_type =
      lookup_embedded store (encode (c ∷ cs)) w (c ∷ cs) task_type

  -- `lookup`, with the defaults of the query.
  unfoldable pub lookup : W → Option Text → Option Text → W × Option Result
  lookup w prompt task_type =
      lookup_with strategy.vector_store strategy.prompt_encoder w (or_default prompt [])
        (or_default task_type (codes "t2v"))
