-- ===== src/Tests/LookupTests.antt =====
-- The theorems on the approximate strategy's lookup, applied to a donor that is found, and to one
-- whose latents are gone.
use mathlib.Core.Path.{subst}
use cache_seek.Prelude.{
  ◌≡◌, ◌≢◌, refl, ℕ, none, some, List, [], ◌∷◌, Text, Bytes, bytes_eq, codes, arith,
}
use cache_seek.Prelude.Int.{pos, int_eq}
use cache_seek.Dict
use cache_seek.Dict.{Dict}
use cache_seek.Service.Result.{hit_skip_step}
use cache_seek.Metadata.{normalize_cache_id}
use cache_seek.Approx.SkipStep.{
  determine_skip_step, in_range, qualifying, select_k_by_score, skip_cap, valid_steps,
}
use cache_seek.Approx.Payload.{
  raw, decimal_on, from_kv_loader, int_text, load_payload, load_steps, step_key,
}
use cache_seek.Approx.Backends.{
  Strategy, unavailable, World, Registration, AuditEvent, VectorSearchResult,
}
use cache_seek.Approx.Ranking.{
  Choice, normalize_search_results, top_k_of, at_least_one, sort_results, insert_result,
  compute_rerank_scores, has_text_docs, build_rerank_documents, rerank_document, candidate_text,
  accept, all_scores, best_scored, check_scores, choose_by_scores, choose_by_similarity,
  rerank_candidates, search_candidates,
}
use cache_seek.Approx.Lookup.{
  Result, lookup, lookup_with, lookup_embedded, after_search, vector_search, lookup_results,
  lookup_ranked, lookup_reranked, evict_vector, finish, lazy_evict_stale_entry, load, record_stage,
  resolve, serve, stale_miss, step_count,
}
use cache_seek.Approx.Lookup.Hit.{Searched, Chose, Serves, lookup-Hit}
use cache_seek.Approx.Lookup.Errors.{Reranks, Compares, Searches, Embeds, lookup-Answers}
use cache_seek.Tests.Backends.{toy_vectors, toy_strategy, Scheduled, Vectors}

abbrev id : Text
id = codes "a"

abbrev vectors : Vectors
vectors =
    (
      codes "video" ∷ id ∷ [],
      (
        8 ∷ 9 ∷ [],
        record { prompt = codes "p"; saved_steps = pos 5 ∷ []; task_type = codes "t2v" },
      ),
    )
    ∷ (
      codes "video" ∷ codes "b" ∷ [],
      (7 ∷ [], record { prompt = codes "q"; saved_steps = pos 3 ∷ []; task_type = codes "t2v" }),
    )
    ∷ []

abbrev State : Type 0
State =
    World (Scheduled (Dict Text Bytes)) (Scheduled Vectors) (Scheduled (Dict Text Registration))
      (List AuditEvent)

-- A donor with its latent, and the same without.
abbrev filled : State
filled = record {
  kv = ((codes "a_step5", 128 ∷ 1 ∷ []) ∷ [], []);
  vectors = (vectors, []);
  meta = ([], []);
  audit = [];
}

abbrev stale : State
stale = record { kv = ([], []); vectors = (vectors, []); meta = ([], []); audit = [] }

abbrev found_result : Result toy_strategy
found_result =
    hit_skip_step (record { cache_id = id; step_to_latents = (pos 5, raw (128 ∷ 1 ∷ [])) ∷ [] }) 5
      id (pos 950_000) (pos 900_000) (codes "p")

found : (lookup toy_strategy filled (some (codes "p")) none).1 ≡ some found_result
unfolding lookup lookup_with lookup_embedded after_search vector_search lookup_results lookup_ranked
    lookup_reranked evict_vector finish lazy_evict_stale_entry load record_stage resolve serve
    stale_miss step_count normalize_search_results top_k_of at_least_one sort_results insert_result
    compute_rerank_scores has_text_docs build_rerank_documents rerank_document candidate_text accept
    all_scores best_scored check_scores choose_by_scores choose_by_similarity rerank_candidates
    search_candidates determine_skip_step in_range qualifying select_k_by_score skip_cap valid_steps
    decimal_on from_kv_loader int_text load_payload load_steps step_key Dict.get Dict.put
    normalize_cache_id
found = refl

lookup-Hit_example :
    (results : List VectorSearchResult) × Searched toy_strategy filled results
    × ((c : Choice) × Chose toy_strategy (codes "p") results c
        × Serves toy_strategy filled.kv c found_result)
lookup-Hit_example = lookup-Hit toy_strategy filled (some (codes "p")) none found_result found refl

-- Without a reranker the lookup falls back to the similarity.
abbrev plain :
    Strategy
      (Scheduled (Dict Text Bytes))
      (Scheduled Vectors)
      (Scheduled (Dict Text Registration))
      (List AuditEvent)
      ℕ
      Bytes
      ℕ
plain = record toy_strategy { reranker = unavailable }

plain_compares : Compares plain
plain_compares h = ground (arith, h)

plain_reranks : Reranks plain
unfolding compute_rerank_scores
plain_reranks prompt results h = ground (arith, h)

plain_searches : Searches plain
plain_searches store v vec k e =
    let same : toy_vectors ≡ store = ground (arith, e) in
    subst (λ s. (s.search v toy_strategy.config.video_vector_collection vec k).1 ≢ none) same
      (λ h. ground (arith, h))

plain_embeds : Embeds plain
plain_embeds encode prompt e =
    let same : (λ (t : Text). some t) ≡ encode = ground (arith, e) in
    subst (λ f. f prompt ≢ none) same (λ h. ground (arith, h))

lookup-Answers_example :
    (r : Result plain) × ((lookup plain stale (some (codes "p")) none).1 ≡ some r)
lookup-Answers_example =
    lookup-Answers plain (λ kv key h. ground (arith, h)) (λ m cache_id. refl) plain_compares
      plain_reranks plain_searches plain_embeds stale (some (codes "p")) none
