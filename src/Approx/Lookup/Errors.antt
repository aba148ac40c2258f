-- ===== src/Approx/Lookup/Errors.antt =====
-- The errors of `lookup` of reuse/approximate/strategy.py.
use cache_seek.Prelude.{
  ◌≡◌, ◌≢◌, refl, Bool, true, false, Option, none, some, List, [], ◌∷◌, Text, codes, arith, inl,
  inr, ℕ, length, nat_eq, Bool-cases, Option-cases,
}
use cache_seek.Prelude.Int.{ℤ}
use cache_seek.Service.Lifecycle.Settings.{or_default}
use cache_seek.Approx.Payload.{VideoApproxPayload, step_key}
use cache_seek.Approx.Backends.{ApproxConfig, VectorSearchResult, VectorStore, World, Strategy}
use cache_seek.Approx.Ranking.{
  top_k_of, normalize_search_results, Rerank, no_rerank, rerank_error, rerank_scores,
  compute_rerank_scores, Choice, choose_by_similarity, choose_by_scores,
}
use cache_seek.Approx.Lookup.{
  Result, vector_search, load, stale_miss, serve, finish, resolve, resolve_similar, lookup_reranked,
  lookup_ranked, lookup_results, after_search, lookup_embedded, lookup_with, lookup,
}

-- With a threshold the comparison does not raise.
similarity-some :
    (cfg : ApproxConfig) (results : List VectorSearchResult)
    → cfg.video_similarity_threshold ≢ none
    → choose_by_similarity cfg results ≢ none
unfolding choose_by_similarity
similarity-some cfg [] h e = ground (arith, e)
similarity-some cfg (x ∷ xs) h e = elim (Option-cases cfg.video_similarity_threshold) [
  | inl q ↦ h q
  | inr (t, q) ↦ ground (arith, q, e)
]

module _ {K V M A E T Frame : Type 0} (strategy : Strategy K V M A E T Frame) where
  abbrev W : Type 0
  W = World K V M A

  abbrev R : Type 0
  R = Result strategy

  abbrev Answers : W × Option R → Type 0
  Answers out = (r : R) × (out.1 ≡ some r)

  -- The calls whose errors a lookup does not catch.
  abbrev pub Embeds : Type 0
  Embeds =
      (encode : Text → Option (List E)) (prompt : Text)
      → strategy.prompt_encoder ≡ some encode
      → encode prompt ≢ none

  abbrev pub Searches : Type 0
  Searches =
      (store : VectorStore V E) (v : V) (vec : List E) (k : ℕ)
      → strategy.vector_store ≡ some store
      → (store.search v strategy.config.video_vector_collection vec k).1 ≢ none

  abbrev pub Reranks : Type 0
  Reranks =
      (prompt : Text) (results : List VectorSearchResult)
      → compute_rerank_scores strategy.reranker prompt results ≢ rerank_error

  abbrev pub Reads : Type 0
  Reads = (kv : K) (key : Text) → strategy.kv_store.kv_get kv key ≢ none

  abbrev pub Counts : Type 0
  Counts = (m : M) (id : Text) → (strategy.metadata_manager.record_access m id).1 ≡ true

  -- Where a choice is made by the similarity there is a threshold to compare it with.
  abbrev pub Compares : Type 0
  Compares = strategy.config.video_similarity_threshold ≢ none

  module _ (reads : Reads) (counts : Counts) (compares : Compares) where
    serve-Answers :
        (w : W) (prompt task_type : Text) (c : Choice) (p : VideoApproxPayload T)
        → Answers (serve strategy w prompt task_type c p)
    unfolding serve
    serve-Answers w prompt task_type c p = rw (counts w.meta c.result.cache_id) (_, refl)

    finish-Answers :
        (o : Option (Option (VideoApproxPayload T))) (w : W) (prompt task_type : Text) (c : Choice)
        → o ≢ none
        → Answers (finish strategy o w prompt task_type c)
    unfolding finish stale_miss
    finish-Answers none w prompt task_type c h = absurd (h refl)
    finish-Answers (some none) w prompt task_type c h = (_, refl)
    finish-Answers (some (some p)) w prompt task_type c h = serve-Answers w prompt task_type c p

    load-some : (kv : K) (id : Text) (step : ℤ) → load strategy kv id step ≢ none
    unfolding load
    load-some kv id step = elim (Option-cases (strategy.kv_store.kv_get kv (step_key id step))) [
      | inl e ↦ absurd (reads kv (step_key id step) e)
      | inr (o, e) ↦ λ h. ground (arith, e, h)
    ]

    resolve-Answers :
        (o : Option Choice) (w : W) (prompt task_type : Text)
        → Answers (resolve strategy o w prompt task_type)
    unfolding resolve
    resolve-Answers none w prompt task_type = (_, refl)
    resolve-Answers (some c) w prompt task_type =
        finish-Answers _ w prompt task_type c (load-some w.kv c.result.cache_id c.skip_step)

    resolve_similar-Answers :
        (o : Option (Option Choice)) (w : W) (prompt task_type : Text)
        → o ≢ none
        → Answers (resolve_similar strategy o w prompt task_type)
    unfolding resolve_similar
    resolve_similar-Answers none w prompt task_type h = absurd (h refl)
    resolve_similar-Answers (some o) w prompt task_type h = resolve-Answers o w prompt task_type

    lookup_reranked-Answers :
        (rerank : Rerank) (w : W) (prompt task_type : Text) (results : List VectorSearchResult)
        → rerank ≢ rerank_error
        → Answers (lookup_reranked strategy rerank w prompt task_type results)
    unfolding lookup_reranked
    lookup_reranked-Answers no_rerank w prompt task_type results h =
        resolve_similar-Answers _ w prompt task_type
          (similarity-some strategy.config results compares)
    lookup_reranked-Answers rerank_error w prompt task_type results h = absurd (h refl)
    lookup_reranked-Answers (rerank_scores scores) w prompt task_type results h =
        elim (Bool-cases (nat_eq (length scores) (length results))) [
          | inl e ↦
              rw e (
                resolve-Answers (choose_by_scores strategy.config results scores) _ prompt
                  task_type)
          | inr e ↦ rw e (_, refl)
        ]

    module _ (reranks : Reranks) where
      lookup_ranked-Answers :
          (enabled : Bool) (w : W) (prompt task_type : Text) (results : List VectorSearchResult)
          → Answers (lookup_ranked strategy enabled w prompt task_type results)
      unfolding lookup_ranked
      lookup_ranked-Answers true w prompt task_type results =
          lookup_reranked-Answers _ w prompt task_type results (reranks prompt results)
      lookup_ranked-Answers false w prompt task_type results =
          resolve_similar-Answers _ w prompt task_type
            (similarity-some strategy.config results compares)

      lookup_results-Answers :
          (w : W) (prompt task_type : Text) (results : List VectorSearchResult)
          → Answers (lookup_results strategy w prompt task_type results)
      unfolding lookup_results
      lookup_results-Answers w prompt task_type [] = (_, refl)
      lookup_results-Answers w prompt task_type (r ∷ rs) =
          lookup_ranked-Answers strategy.config.rerank_enabled _ prompt task_type (r ∷ rs)

      after_search-Answers :
          (found : W × Option (List VectorSearchResult)) (prompt task_type : Text)
          → found.1 ≢ none
          → Answers (after_search strategy found prompt task_type)
      unfolding after_search
      after_search-Answers (w, none) prompt task_type h = absurd (h refl)
      after_search-Answers (w, some results) prompt task_type h =
          lookup_results-Answers w prompt task_type (normalize_search_results results)

      module _ (searches : Searches) where
        vector_search-some :
            (store : VectorStore V E) (w : W) (vec : List E) (k : ℕ)
            → strategy.vector_store ≡ some store
            → (vector_search strategy store w vec k).1 ≢ none
        unfolding vector_search
        vector_search-some store w vec k q =
            let s = store.search w.vectors strategy.config.video_vector_collection vec k in
            elim (Option-cases s.1) [
              | inl e ↦ absurd (searches store w.vectors vec k q e)
              | inr (found, e) ↦ rw e λ h. ground (arith, h)
            ]

        lookup_embedded-Answers :
            (store : VectorStore V E) (embedding : Option (List E)) (w : W)
            (prompt task_type : Text)
            → strategy.vector_store ≡ some store
            → embedding ≢ none
            → Answers (lookup_embedded strategy store embedding w prompt task_type)
        unfolding lookup_embedded
        lookup_embedded-Answers store none w prompt task_type q h = absurd (h refl)
        lookup_embedded-Answers store (some []) w prompt task_type q h = (_, refl)
        lookup_embedded-Answers store (some (e ∷ es)) w prompt task_type q h =
            after_search-Answers _ prompt task_type
              (vector_search-some store w (e ∷ es) (top_k_of strategy.config) q)

        lookup_with-Answers :
            (embeds : Embeds) (attached : Option (VectorStore V E))
            (encoder : Option (Text → Option (List E))) (w : W) (prompt task_type : Text)
            → strategy.vector_store ≡ attached
            → strategy.prompt_encoder ≡ encoder
            → Answers (lookup_with strategy attached encoder w prompt task_type)
        unfolding lookup_with
        lookup_with-Answers embeds attached encoder w [] task_type q p = (_, refl)
        lookup_with-Answers embeds none encoder w (c ∷ cs) task_type q p = (_, refl)
        lookup_with-Answers embeds (some store) none w (c ∷ cs) task_type q p = (_, refl)
        lookup_with-Answers embeds (some store) (some encode) w (c ∷ cs) task_type q p =
            lookup_embedded-Answers store (encode (c ∷ cs)) w (c ∷ cs) task_type q
              (embeds encode (c ∷ cs) p)

        -- If the prompt encoder, the search, the reranker, the read of the KV store and the count of
        -- the access do not raise and the similarity threshold is not `None`, a lookup returns a result,
        -- whatever the audit log, the score and pair records and the eviction of a stale entry do.
        pub lookup-Answers :
            Embeds
            → (w : W) (prompt task_type : Option Text)
            → (r : R) × ((lookup strategy w prompt task_type).1 ≡ some r)
        unfolding lookup
        lookup-Answers embeds w prompt task_type =
            lookup_with-Answers embeds strategy.vector_store strategy.prompt_encoder w
              (or_default prompt []) (or_default task_type (codes "t2v")) refl refl
