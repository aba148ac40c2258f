-- ===== src/Approx/Ranking/Best.antt =====
-- The candidate that `lookup` of reuse/approximate/strategy.py settles on.
use mathlib.Core.List.{Memᴰ}
use mathlib.Core.Path.{subst}
use cache_seek.Prelude.{
  ◌≡◌, refl, sym, true, false, ◌⊎◌, Option, none, some, List, [], ◌∷◌, arith, inl, inr, All, length,
  Bool-cases, Option-cases,
}
use cache_seek.Prelude.Int.{ℤ, pos, int_leb, int_leb_refl, int_leb_trans, int_leb_total}
use cache_seek.Approx.SkipStep.{determine_skip_step}
use cache_seek.Approx.SkipStep.Cap.{IsCap, InRange, determine_skip_step-DeepestSaved}
use cache_seek.Approx.Backends.{VectorSearchResult, ApproxConfig}
use cache_seek.Approx.Ranking.{
  Choice, accept, choose_by_similarity, best_scored, choose_by_scores, rerank_threshold,
}

-- A candidate and its score stand at the same place of the two lists.
abbrev pub Scored : VectorSearchResult → ℤ → List VectorSearchResult → List ℤ → Type 0
Scored r s [] scores = ⊥
Scored r s (x ∷ rs) [] = ⊥
Scored r s (x ∷ rs) (y ∷ ss) = ((r ≡ x) × (s ≡ y)) ⊎ Scored r s rs ss

-- The score is that of the candidate, and no score is higher.
abbrev pub BestScored : VectorSearchResult → ℤ → List VectorSearchResult → List ℤ → Type 0
BestScored r s results scores = Scored r s results scores × All (λ y. int_leb y s ≡ true) scores

Scored-Mem :
    (r : VectorSearchResult) (s : ℤ) (results : List VectorSearchResult) (scores : List ℤ)
    → Scored r s results scores
    → Memᴰ r results
Scored-Mem r s [] scores h = absurd h
Scored-Mem r s (x ∷ rs) [] h = absurd h
Scored-Mem r s (x ∷ rs) (y ∷ ss) (inl (e, q)) = Memᴰ.head e
Scored-Mem r s (x ∷ rs) (y ∷ ss) (inr h) = Memᴰ.tail (Scored-Mem r s rs ss h)

All-le :
    (s t : ℤ) (ss : List ℤ)
    → int_leb s t ≡ true
    → All (λ y. int_leb y s ≡ true) ss
    → All (λ y. int_leb y t ≡ true) ss
All-le s t [] h a = tt
All-le s t (y ∷ ys) h (hy, hys) = (int_leb_trans y s t hy h, All-le s t ys h hys)

best_scored-none :
    (results : List VectorSearchResult) (scores : List ℤ)
    → length scores ≡ length results
    → best_scored results scores ≡ none
    → scores ≡ []
unfolding best_scored
best_scored-none [] [] n h = refl
best_scored-none [] (s ∷ ss) n h = ground (arith, n)
best_scored-none (r ∷ rs) [] n h = refl
best_scored-none (r ∷ rs) (s ∷ ss) n h = elim (Option-cases (best_scored rs ss)) [
  | inl e ↦ ground (arith, e, h)
  | inr (b, e) ↦ ground (arith, e, h)
]

best_scored-BestScored :
    (results : List VectorSearchResult) (scores : List ℤ) (b : VectorSearchResult × ℤ)
    → length scores ≡ length results
    → best_scored results scores ≡ some b
    → BestScored b.0 b.1 results scores
unfolding best_scored
best_scored-BestScored [] scores b n h = ground (arith, h)
best_scored-BestScored (r ∷ rs) [] b n h = ground (arith, h)
best_scored-BestScored (r ∷ rs) (s ∷ ss) b n h = elim (Option-cases (best_scored rs ss)) [
  | inl e ↦
      let q : (r, s) ≡ b = ground (arith, e, h) in
      subst (λ c. BestScored c.0 c.1 (r ∷ rs) (s ∷ ss)) q
        (inl (refl, refl), (int_leb_refl s, rw (best_scored-none rs ss (ground (arith, n)) e) tt))
  | inr (c, e) ↦
      let (at, above) = best_scored-BestScored rs ss c (ground (arith, n)) e in
      elim (Bool-cases (int_leb c.1 s)) [
        | inl le ↦
            let q : (r, s) ≡ b = ground (arith, e, h, le) in
            subst (λ c. BestScored c.0 c.1 (r ∷ rs) (s ∷ ss)) q
              (inl (refl, refl), (int_leb_refl s, All-le c.1 s ss le above))
        | inr gt ↦
            let q : c ≡ b = ground (arith, e, h, gt) in
            subst (λ c. BestScored c.0 c.1 (r ∷ rs) (s ∷ ss)) q
              (inr at, (int_leb_total c.1 s gt, above))
      ]
]

-- The step is the deepest saved one that is positive and within the cap of the score.
abbrev pub Resumable : ApproxConfig → Choice → Option ℤ → Type 0
Resumable cfg c score =
    (cap : ℤ) × IsCap cfg.skip score cap
    × InRange cap c.skip_step
    × Memᴰ c.skip_step c.result.saved_steps
    × All (λ s. InRange cap s → int_leb s c.skip_step ≡ true) c.result.saved_steps

determine-Resumable :
    (cfg : ApproxConfig) (r : VectorSearchResult) (score : Option ℤ) (hit : ℤ)
    → int_leb (determine_skip_step cfg.skip r.saved_steps score) (pos 0) ≡ false
    → Resumable cfg
        (record {
          result = r;
          hit_score = hit;
          skip_step = determine_skip_step cfg.skip r.saved_steps score;
        })
        score
determine-Resumable cfg r score hit h =
    let (cap, is_cap, deepest) = determine_skip_step-DeepestSaved cfg.skip r.saved_steps score in
    elim deepest [
      | inl (zero, none_in_range) ↦ ground (arith, zero, h)
      | inr (inside, at, above) ↦ (cap, is_cap, inside, at, above)
    ]

-- What `accept` has checked.
abbrev Checked : VectorSearchResult → ℤ → ℤ → ℤ → Choice → Type 0
Checked r score threshold step c =
    (c ≡ record { result = r; hit_score = score; skip_step = step })
    × (int_leb threshold score ≡ true)
    × (int_leb step (pos 0) ≡ false)

accept-Checked :
    (r : VectorSearchResult) (score threshold step : ℤ) (c : Choice)
    → accept r score threshold step ≡ some c
    → Checked r score threshold step c
unfolding accept
accept-Checked r score threshold step c h = elim (Bool-cases (int_leb threshold score)) [
  | inr e ↦ ground (arith, e, h)
  | inl e ↦ elim (Bool-cases (int_leb step (pos 0))) [
    | inl q ↦ ground (arith, e, q, h)
    | inr q ↦ (ground (arith, e, q, h), e, q)
  ]
]

abbrev pub IsFirst : VectorSearchResult → List VectorSearchResult → Type 0
IsFirst r [] = ⊥
IsFirst r (x ∷ xs) = r ≡ x

-- Without scores the choice is the first candidate: its similarity reaches the threshold, and the
-- step is the deepest that it saved in the range.
abbrev pub BySimilarity : ApproxConfig → List VectorSearchResult → Choice → Type 0
BySimilarity cfg results c =
    IsFirst c.result results
    × (c.hit_score ≡ c.result.similarity)
    × ((t : ℤ) × (cfg.video_similarity_threshold ≡ some t) × (int_leb t c.hit_score ≡ true))
    × Resumable cfg c none

-- With scores it is one with the highest score, which reaches the threshold; the range is that of the
-- score's tier.
abbrev pub ByScores : ApproxConfig → List VectorSearchResult → List ℤ → Choice → Type 0
ByScores cfg results scores c =
    Memᴰ c.result results
    × BestScored c.result c.hit_score results scores
    × (int_leb (rerank_threshold cfg) c.hit_score ≡ true)
    × Resumable cfg c (some c.hit_score)

pub choose_by_similarity-BySimilarity :
    (cfg : ApproxConfig) (results : List VectorSearchResult) (c : Choice)
    → choose_by_similarity cfg results ≡ some (some c)
    → BySimilarity cfg results c
unfolding choose_by_similarity
choose_by_similarity-BySimilarity cfg [] c h = ground (arith, h)
choose_by_similarity-BySimilarity cfg (r ∷ rs) c h =
    elim (Option-cases cfg.video_similarity_threshold) [
      | inl e ↦ ground (arith, e, h)
      | inr (t, e) ↦
          let step = determine_skip_step cfg.skip r.saved_steps none in
          let (q, passes, positive) =
            accept-Checked r r.similarity t step c (ground (arith, e, h)) in
          subst (BySimilarity cfg (r ∷ rs)) (sym q)
            (refl, refl, (t, e, passes), determine-Resumable cfg r none r.similarity positive)
    ]

pub choose_by_scores-ByScores :
    (cfg : ApproxConfig) (results : List VectorSearchResult) (scores : List ℤ) (c : Choice)
    → length scores ≡ length results
    → choose_by_scores cfg results scores ≡ some c
    → ByScores cfg results scores c
unfolding choose_by_scores
choose_by_scores-ByScores cfg results scores c n h =
    elim (Option-cases (best_scored results scores)) [
      | inl e ↦ ground (arith, e, h)
      | inr (b, e) ↦
          let step = determine_skip_step cfg.skip b.0.saved_steps (some b.1) in
          let (q, passes, positive) =
            accept-Checked b.0 b.1 (rerank_threshold cfg) step c (ground (arith, e, h)) in
          let best = best_scored-BestScored results scores b n e in
          subst (ByScores cfg results scores) (sym q) (
            Scored-Mem b.0 b.1 results scores best.0,
            best,
            passes,
            determine-Resumable cfg b.0 (some b.1) b.1 positive,
          )
    ]
