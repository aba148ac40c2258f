-- ===== src/Approx/Lookup/Hit.antt =====
-- The hits of `lookup` of reuse/approximate/strategy.py.
use cache_seek.Prelude.{
  ◌≡◌, refl, ap, ◌∙◌, Bool, true, false, Option, none, some, List, [], ◌∷◌, Text, Bytes, codes,
  arith, inl, inr, length, take, nat_eq, nat_eq_iff, Bool-cases, Option-cases, bytes_eq,
}
use cache_seek.Prelude.Int.{int_eq}
use cache_seek.Dict
use cache_seek.Service.Result.{hit_skip_step}
use cache_seek.Service.Lifecycle.Settings.{or_default}
use cache_seek.Approx.Payload.{
  raw, VideoApproxPayload, step_key, load_payload, from_kv_loader, load_steps,
}
use cache_seek.Approx.Backends.{VectorSearchResult, VectorStore, World, Strategy}
use cache_seek.Approx.Ranking.{
  top_k_of, sort_results, normalize_search_results, Rerank, no_rerank, rerank_error, rerank_scores,
  compute_rerank_scores, Choice, choose_by_scores,
}
use cache_seek.Approx.Ranking.Best.{
  BySimilarity, ByScores, choose_by_similarity-BySimilarity, choose_by_scores-ByScores,
}
use cache_seek.Approx.Lookup.{
  step_count, Result, vector_search, record_stage, load, stale_miss, serve, finish, resolve,
  resolve_similar, lookup_reranked, lookup_ranked, lookup_results, after_search, lookup_embedded,
  lookup_with, lookup,
}

module _ {K V M A E T Frame : Type 0} (strategy : Strategy K V M A E T Frame) where
  abbrev W : Type 0
  W = World K V M A

  abbrev R : Type 0
  R = Result strategy

  -- The result resumes at the choice's step, with the bytes that the KV store has for that step of
  -- the choice's cache.
  abbrev pub Serves : K → Choice → R → Type 0
  Serves kv c r =
      (b : Bytes) × (strategy.kv_store.kv_get kv (step_key c.result.cache_id c.skip_step)
        ≡ some (some b))
      × (r
          ≡ hit_skip_step
              (record { cache_id = c.result.cache_id; step_to_latents = (c.skip_step, raw b) ∷ [] })
              (step_count c.skip_step) c.result.cache_id c.hit_score c.result.similarity
              c.result.prompt)

  -- Without reranking, or where the reranker gives no scores, the choice is made by the similarity;
  -- with scores, by them; where the reranker fails there is none.
  abbrev pub ChoseBy : Bool → Rerank → List VectorSearchResult → Choice → Type 0
  ChoseBy false scoring results c = BySimilarity strategy.config results c
  ChoseBy true no_rerank results c = BySimilarity strategy.config results c
  ChoseBy true rerank_error results c = ⊥
  ChoseBy true (rerank_scores scores) results c =
      (length scores ≡ length results) × ByScores strategy.config results scores c

  abbrev pub Chose : Text → List VectorSearchResult → Choice → Type 0
  Chose prompt results c =
      ChoseBy strategy.config.rerank_enabled
        (compute_rerank_scores strategy.reranker prompt results) results c

  abbrev IsHit : W × Option R → R → Type 0
  IsHit out r = (out.1 ≡ some r) × (r.hit ≡ true)

  load-Serves :
      (kv : K) (c : Choice) (p : VideoApproxPayload T)
      → load strategy kv c.result.cache_id c.skip_step ≡ some (some p)
      → (b : Bytes) × (strategy.kv_store.kv_get kv (step_key c.result.cache_id c.skip_step)
          ≡ some (some b))
        × (p ≡ record { cache_id = c.result.cache_id; step_to_latents = (c.skip_step, raw b) ∷ [] })
  unfolding load load_payload from_kv_loader load_steps Dict.put
  load-Serves kv c p h =
      let key = step_key c.result.cache_id c.skip_step in
      elim (Option-cases (strategy.kv_store.kv_get kv key)) [
        | inl e ↦ ground (arith, e, h)
        | inr (none, e) ↦ ground (arith, e, h)
        | inr (some b, e) ↦ (b, e, ground (arith, e, h))
      ]

  serve-Serves :
      (w : W) (prompt task_type : Text) (c : Choice) (p : VideoApproxPayload T) (r : R)
      → (serve strategy w prompt task_type c p).1 ≡ some r
      → r
        ≡ hit_skip_step p
            (step_count c.skip_step)
            c.result.cache_id
            c.hit_score
            c.result.similarity
            c.result.prompt
  unfolding serve
  serve-Serves w prompt task_type c p r h =
      elim (Bool-cases (strategy.metadata_manager.record_access w.meta c.result.cache_id).1) [
        | inl e ↦ ground (arith, e, h)
        | inr e ↦ ground (arith, e, h)
      ]

  HitOf : Bool → Rerank → K → List VectorSearchResult → R → Type 0
  HitOf enabled scoring kv results r =
      (c : Choice) × ChoseBy enabled scoring results c × Serves kv c r

  finish-Serves :
      (o : Option (Option (VideoApproxPayload T))) (w : W) (kv : K) (prompt task_type : Text)
      (c : Choice) (r : R)
      → load strategy kv c.result.cache_id c.skip_step ≡ o
      → IsHit (finish strategy o w prompt task_type c) r
      → Serves kv c r
  unfolding finish stale_miss
  finish-Serves none w kv prompt task_type c r loaded (e, hit) = ground (arith, e)
  finish-Serves (some none) w kv prompt task_type c r loaded (e, hit) = ground (arith, e, hit)
  finish-Serves (some (some p)) w kv prompt task_type c r loaded (e, hit) =
      let (b, found, q) = load-Serves kv c p loaded in
      (
        b,
        found,
        serve-Serves w prompt task_type c p r e
            ∙ ap
                (λ x.
                  hit_skip_step x (step_count c.skip_step) c.result.cache_id c.hit_score
                    c.result.similarity c.result.prompt)
                q,
      )

  resolve-HitOf :
      (enabled : Bool) (scoring : Rerank) (o : Option Choice) (w : W) (prompt task_type : Text)
      (results : List VectorSearchResult) (r : R)
      → ((c : Choice) → o ≡ some c → ChoseBy enabled scoring results c)
      → IsHit (resolve strategy o w prompt task_type) r
      → HitOf enabled scoring w.kv results r
  unfolding resolve HitOf
  resolve-HitOf enabled scoring none w prompt task_type results r chose (e, hit) =
      ground (arith, e, hit)
  resolve-HitOf enabled scoring (some c) w prompt task_type results r chose h =
      (c, chose c refl, finish-Serves _ w w.kv prompt task_type c r refl h)

  resolve_similar-HitOf :
      (enabled : Bool) (scoring : Rerank) (o : Option (Option Choice)) (w : W)
      (prompt task_type : Text) (results : List VectorSearchResult) (r : R)
      → ((c : Choice) → o ≡ some (some c) → ChoseBy enabled scoring results c)
      → IsHit (resolve_similar strategy o w prompt task_type) r
      → HitOf enabled scoring w.kv results r
  unfolding resolve_similar
  resolve_similar-HitOf enabled scoring none w prompt task_type results r chose h =
      ground (arith, h.0)
  resolve_similar-HitOf enabled scoring (some o) w prompt task_type results r chose h =
      resolve-HitOf enabled scoring o w prompt task_type results r
        (λ c e. chose c (ap (λ x. some x) e)) h

  lookup_reranked-HitOf :
      (scoring : Rerank) (w : W) (prompt task_type : Text) (results : List VectorSearchResult)
      (r : R)
      → IsHit (lookup_reranked strategy scoring w prompt task_type results) r
      → HitOf true scoring w.kv results r
  unfolding lookup_reranked record_stage
  lookup_reranked-HitOf no_rerank w prompt task_type results r =
      resolve_similar-HitOf true no_rerank _ w prompt task_type results r
        (choose_by_similarity-BySimilarity strategy.config results)
  lookup_reranked-HitOf rerank_error w prompt task_type results r = λ h. ground (arith, h.0)
  lookup_reranked-HitOf (rerank_scores scores) w prompt task_type results r =
      elim (Bool-cases (nat_eq (length scores) (length results))) [
        | inr e ↦ rw e λ h. ground (arith, h.0, h.1)
        | inl e ↦ rw e λ h.
            let same = (nat_eq_iff (length scores) (length results)).0 e in
            resolve-HitOf true (rerank_scores scores)
              (choose_by_scores strategy.config results scores) _ prompt task_type results r
              (λ c k. (same, choose_by_scores-ByScores strategy.config results scores c same k)) h
      ]

  lookup_ranked-HitOf :
      (enabled : Bool) (w : W) (prompt task_type : Text) (results : List VectorSearchResult) (r : R)
      → IsHit (lookup_ranked strategy enabled w prompt task_type results) r
      → HitOf enabled (compute_rerank_scores strategy.reranker prompt results) w.kv results r
  unfolding lookup_ranked
  lookup_ranked-HitOf true w prompt task_type results r h =
      lookup_reranked-HitOf _ w prompt task_type results r h
  lookup_ranked-HitOf false w prompt task_type results r h =
      resolve_similar-HitOf false (compute_rerank_scores strategy.reranker prompt results) _ w
        prompt task_type results r (choose_by_similarity-BySimilarity strategy.config results) h

  abbrev Found : K → Text → List VectorSearchResult → R → Type 0
  Found kv prompt results r =
      HitOf strategy.config.rerank_enabled (compute_rerank_scores strategy.reranker prompt results)
        kv results r

  lookup_results-HitOf :
      (w : W) (prompt task_type : Text) (results : List VectorSearchResult) (r : R)
      → IsHit (lookup_results strategy w prompt task_type results) r
      → Found w.kv prompt results r
  unfolding lookup_results record_stage
  lookup_results-HitOf w prompt task_type [] r h = ground (arith, h.0, h.1)
  lookup_results-HitOf w prompt task_type (x ∷ xs) r h =
      lookup_ranked-HitOf strategy.config.rerank_enabled _ prompt task_type (x ∷ xs) r h

  -- The candidates are the best that a search of the vector store returned, with normalised ids.
  abbrev pub Searched : W → List VectorSearchResult → Type 0
  Searched w results =
      (store : VectorStore V E) × (vec : List E) × (found : List VectorSearchResult)
      × (strategy.vector_store ≡ some store)
      × ((store.search w.vectors strategy.config.video_vector_collection vec
            (top_k_of strategy.config)).1
          ≡ some found)
      × (results ≡ normalize_search_results (take (top_k_of strategy.config) (sort_results found)))

  lookup_embedded-HitOf :
      (store : VectorStore V E) (embedding : Option (List E)) (w : W) (prompt task_type : Text)
      (r : R)
      → strategy.vector_store ≡ some store
      → IsHit (lookup_embedded strategy store embedding w prompt task_type) r
      → (results : List VectorSearchResult) × Searched w results × Found w.kv prompt results r
  unfolding lookup_embedded after_search vector_search
  lookup_embedded-HitOf store none w prompt task_type r q = λ h. ground (arith, h.0)
  lookup_embedded-HitOf store (some []) w prompt task_type r q = λ h. ground (arith, h.0, h.1)
  lookup_embedded-HitOf store (some (e ∷ es)) w prompt task_type r q =
      let s =
        store.search w.vectors strategy.config.video_vector_collection (e ∷ es)
          (top_k_of strategy.config) in
      elim (Option-cases s.1) [
        | inl none_found ↦ rw none_found λ h. ground (arith, h.0)
        | inr (found, k) ↦ rw k λ h. (
          normalize_search_results (take (top_k_of strategy.config) (sort_results found)),
          (store, e ∷ es, found, q, k, refl),
          lookup_results-HitOf _ prompt task_type _ r h,
        )
      ]

  lookup_with-HitOf :
      (attached : Option (VectorStore V E)) (encoder : Option (Text → Option (List E))) (w : W)
      (prompt task_type : Text) (r : R)
      → strategy.vector_store ≡ attached
      → IsHit (lookup_with strategy attached encoder w prompt task_type) r
      → (results : List VectorSearchResult) × Searched w results × Found w.kv prompt results r
  unfolding lookup_with
  lookup_with-HitOf attached encoder w [] task_type r q h = ground (arith, h.0, h.1)
  lookup_with-HitOf none encoder w (c ∷ cs) task_type r q h = ground (arith, h.0, h.1)
  lookup_with-HitOf (some store) none w (c ∷ cs) task_type r q h = ground (arith, h.0, h.1)
  lookup_with-HitOf (some store) (some encode) w (c ∷ cs) task_type r q h =
      lookup_embedded-HitOf store (encode (c ∷ cs)) w (c ∷ cs) task_type r q h

  -- A lookup that returns a hit has one of the candidates of its search. Where reranking is on and the
  -- reranker gives scores, it is one with the best score, which reaches the rerank threshold; where
  -- reranking is off or gives none, it is the first candidate, whose similarity reaches the threshold.
  -- The step is the deepest positive one that the donor saved within the cap, and the result carries
  -- the bytes that the KV store has for that step of that donor.
  pub lookup-Hit :
      (w : W) (prompt task_type : Option Text) (r : R)
      → (lookup strategy w prompt task_type).1 ≡ some r
      → r.hit ≡ true
      → (results : List VectorSearchResult) × Searched w results
        × ((c : Choice) × Chose (or_default prompt []) results c × Serves w.kv c r)
  unfolding lookup HitOf
  lookup-Hit w prompt task_type r e hit =
      lookup_with-HitOf strategy.vector_store strategy.prompt_encoder w (or_default prompt [])
        (or_default task_type (codes "t2v")) r refl (e, hit)
