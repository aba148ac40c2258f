-- ===== src/Service/Lifecycle/FirstHit.antt =====
-- The loop of `lookup` of service/lifecycle.py over the strategies, against a relation of its runs.
use cache_seek.Prelude.{
  ◌≡◌, refl, ap, Bool, true, false, Option, none, some, List, [], ◌∷◌, ◌++◌, arith, inl, inr, ◌⊎◌,
  Bool-cases, if◌then◌else◌,
}
use cache_seek.Service.Lifecycle.{Call, value, raised, Strategy, lookup_strategies}

module _ {Answer : Type 0} (hit : Answer → Bool) where
  -- A call that the loop passes over: an exception, `None`, or a result that is no hit.
  abbrev pub Passed : Call (Option Answer) → Type 0
  Passed raised = Unit
  Passed (value none) = Unit
  Passed (value (some a)) = hit a ≡ false

  Call-cases :
      (c : Call (Option Answer)) → Passed c ⊎ ((a : Answer) × (c ≡ value (some a)) × (hit a ≡ true))
  Call-cases raised = inl tt
  Call-cases (value none) = inl tt
  Call-cases (value (some a)) = elim (Bool-cases (hit a)) [
    | inl is_hit ↦ inr (a, refl, is_hit)
    | inr not_hit ↦ inl not_hit
  ]

module _ {World Query Job Answer : Type 0} (hit : Answer → Bool) (no_hit : Answer) (q : Query) where
  -- The strategies are asked one after the other, each in the world that the last one left, and pass.
  pub data AllPass : World → List (Strategy World Query Job Answer) → World → Type 0 where
    start : {w : World} → AllPass w [] w
    ask :
        {w v : World} {rest : List (Strategy World Query Job Answer)}
        (s : Strategy World Query Job Answer)
        → Passed hit (s.lookup w q).1
        → AllPass (s.lookup w q).0 rest v
        → AllPass w (s ∷ rest) v

  -- The first hit: all strategies before it passed, and those after it are not asked.
  pub record FirstHit (strategies : List (Strategy World Query Job Answer)) (w : World)
      (r : World × Answer) : Type 0 where
    pub before : List (Strategy World Query Job Answer)
    pub after : List (Strategy World Query Job Answer)
    pub strat : Strategy World Query Job Answer
    pub parts : strategies ≡ before ++ strat ∷ after
    pub found_in : World
    pub passed : AllPass w before found_in
    pub answers : (strat.lookup found_in q).1 ≡ value (some r.1)
    pub left : r.0 ≡ (strat.lookup found_in q).0
    pub hits : hit r.1 ≡ true

  lookup_strategies-pass :
      (s : Strategy World Query Job Answer) (rest : List (Strategy World Query Job Answer))
      (w : World)
      → Passed hit (s.lookup w q).1
      → lookup_strategies hit no_hit (s ∷ rest) w q
        ≡ lookup_strategies hit no_hit rest (s.lookup w q).0 q
  unfolding lookup_strategies
  lookup_strategies-pass s rest w p = passed_over (s.lookup w q).1 p
    where
      passed_over :
          (c : Call (Option Answer))
          → Passed hit c
          → elim c as (λ _. World × Answer) [
            | raised ↦ lookup_strategies hit no_hit rest (s.lookup w q).0 q
            | value none ↦ lookup_strategies hit no_hit rest (s.lookup w q).0 q
            | value (some answer) ↦
                if hit answer
                then ((s.lookup w q).0, answer)
                else lookup_strategies hit no_hit rest (s.lookup w q).0 q
          ]
            ≡ lookup_strategies hit no_hit rest (s.lookup w q).0 q
      passed_over raised p = refl
      passed_over (value none) p = refl
      passed_over (value (some a)) p = rw p refl

  -- `lookup` over the strategies returns the first hit: the answer of a strategy that hit, after all
  -- before it had passed and without asking those after it; or, when all have passed, the miss. An
  -- exception, `None` and a result that is no hit pass.
  pub lookup_strategies-FirstHit :
      (strategies : List (Strategy World Query Job Answer)) (w : World)
      → FirstHit strategies w (lookup_strategies hit no_hit strategies w q)
        ⊎ (AllPass w strategies (lookup_strategies hit no_hit strategies w q).0
            × ((lookup_strategies hit no_hit strategies w q).1 ≡ no_hit))
  unfolding lookup_strategies
  lookup_strategies-FirstHit [] w = inr (AllPass.start, refl)
  lookup_strategies-FirstHit (s ∷ rest) w = elim (Call-cases hit (s.lookup w q).1) [
    | inr (a, e, is_hit) ↦ inl (record {
      before = [];
      after = rest;
      strat = s;
      parts = refl;
      found_in = w;
      passed = AllPass.start;
      answers = ground (arith, e, is_hit);
      left = ground (arith, e, is_hit);
      hits = ground (arith, e, is_hit);
    })
    | inl p ↦
        rw (lookup_strategies-pass s rest w p)
          (elim (lookup_strategies-FirstHit rest (s.lookup w q).0) [
            | inr (all_pass, missed) ↦ inr (AllPass.ask s p all_pass, missed)
            | inl h ↦ inl (record {
              before = s ∷ h.before;
              after = h.after;
              strat = h.strat;
              parts = ap (λ l. s ∷ l) h.parts;
              found_in = h.found_in;
              passed = AllPass.ask s p h.passed;
              answers = h.answers;
              left = h.left;
              hits = h.hits;
            })
          ])
  ]
