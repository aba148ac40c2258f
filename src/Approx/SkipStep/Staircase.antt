-- ===== src/Approx/SkipStep/Staircase.antt =====
-- How the bound on the step, and with it the chosen step, follows the rerank score.
use cache_seek.Prelude.{
  ◌≡◌, ◌≢◌, true, Option, none, some, List, [], ◌∷◌, arith, inl, inr, Bool-cases, Option-cases,
  if◌then◌else◌,
}
use cache_seek.Prelude.Int.{
  ℤ, pos, int_beq, int_leb, int_leb_refl, int_leb_trans, int_max, int_max2, int_max2_le,
  le-int_max2_left, le-int_max2_right, int_min_mono, int_min_le,
}
use cache_seek.Approx.SkipStep.{
  SkipConfig, qualifying, select_k_by_score, skip_cap, determine_skip_step,
}
use cache_seek.Approx.SkipStep.Range.{determine_skip_step-Deepest, Deepest-mono}

qualifying_mono :
    (low high k : ℤ) (table : List (ℤ × ℤ))
    → int_leb low high ≡ true
    → int_max (qualifying low table) ≡ some k
    → (m : ℤ) × (int_max (qualifying high table) ≡ some m) × (int_leb k m ≡ true)
unfolding qualifying
qualifying_mono low high k [] h e = ground (arith, e)
qualifying_mono low high k ((j, tau) ∷ table) h e = elim (Bool-cases (int_leb tau low)) [
  | inr under ↦
      let (m, em, le) = qualifying_mono low high k table h (ground (arith, e, under)) in
      elim (Bool-cases (int_leb tau high)) [
        | inl over ↦ (
          int_max2 m j,
          ground (arith, over, em),
          int_leb_trans k m (int_max2 m j) le (le-int_max2_left m j),
        )
        | inr still ↦ (m, ground (arith, still, em), le)
      ]
  | inl reached ↦
      let over : int_leb tau high ≡ true = int_leb_trans tau low high reached h in
      elim (Option-cases (int_max (qualifying low table))) [
        | inr (n, en) ↦
            let (m, em, le) = qualifying_mono low high n table h en in
            let same : k ≡ int_max2 n j = ground (arith, e, reached, en) in
            (
              int_max2 m j,
              ground (arith, over, em),
              rw same (
                  int_max2_le n j (int_max2 m j)
                    (int_leb_trans n m (int_max2 m j) le (le-int_max2_left m j))
                    (le-int_max2_right m j)),
            )
        | inl en ↦
            let same : k ≡ j = ground (arith, e, reached, en) in
            elim (Option-cases (int_max (qualifying high table))) [
              | inl em ↦ (j, ground (arith, over, em), rw same (int_leb_refl j))
              | inr (m, em) ↦
                  (int_max2 m j, ground (arith, over, em), rw same (le-int_max2_right m j))
            ]
      ]
]

select_k_by_score_mono :
    (cfg : SkipConfig) (low high k : ℤ)
    → int_leb low high ≡ true
    → select_k_by_score cfg low ≡ some k
    → (m : ℤ) × (select_k_by_score cfg high ≡ some m) × (int_leb k m ≡ true)
unfolding select_k_by_score
select_k_by_score_mono cfg low high k h e = elim (Bool-cases cfg.staircase_skip_enabled) [
  | inl on ↦
      let (m, em, le) =
        qualifying_mono low high k cfg.skip_step_tau_table h (ground (arith, e, on)) in
      (m, ground (arith, on, em), le)
  | inr off ↦ ground (arith, e, off)
]

abbrev base_cap : SkipConfig → ℤ
base_cap cfg = if int_beq cfg.max_skip_step (pos 0) then pos 5 else cfg.max_skip_step

skip_cap_below :
    (cfg : SkipConfig) (low other : ℤ)
    → select_k_by_score cfg low ≡ none
    → int_leb (skip_cap cfg (some other)) (skip_cap cfg (some low)) ≡ true
unfolding skip_cap
skip_cap_below cfg low other below = elim (Option-cases (select_k_by_score cfg other)) [
  | inl e ↦ rw (below, e, skip_cap) (int_leb_refl (base_cap cfg))
  | inr (k, e) ↦ rw (below, e, skip_cap) (int_min_le (base_cap cfg) k)
]

skip_cap_mono :
    (cfg : SkipConfig) (low high : ℤ)
    → int_leb low high ≡ true
    → select_k_by_score cfg low ≢ none
    → int_leb (skip_cap cfg (some low)) (skip_cap cfg (some high)) ≡ true
unfolding skip_cap
skip_cap_mono cfg low high h tier = elim (Option-cases (select_k_by_score cfg low)) [
  | inl e ↦ absurd (tier e)
  | inr (k, e) ↦
      let (m, em, le) = select_k_by_score_mono cfg low high k h e in
      rw (e, em, skip_cap) (int_min_mono (base_cap cfg) k m le)
]

module _ (cfg : SkipConfig) (saved : List ℤ) where
  from_caps :
      (s t : Option ℤ)
      → int_leb (skip_cap cfg s) (skip_cap cfg t) ≡ true
      → int_leb (determine_skip_step cfg saved s) (determine_skip_step cfg saved t) ≡ true
  from_caps s t h =
      Deepest-mono (skip_cap cfg s) (skip_cap cfg t) (determine_skip_step cfg saved s)
        (determine_skip_step cfg saved t) saved h (determine_skip_step-Deepest cfg saved s)
        (determine_skip_step-Deepest cfg saved t)

  -- Where a score reaches a tier of the table, a higher score never chooses a shallower step.
  pub determine_skip_step_mono :
      (low high : ℤ)
      → int_leb low high ≡ true
      → select_k_by_score cfg low ≢ none
      → int_leb
          (determine_skip_step cfg saved (some low))
          (determine_skip_step cfg saved (some high))
        ≡ true
  determine_skip_step_mono low high h tier =
      from_caps (some low) (some high) (skip_cap_mono cfg low high h tier)

  -- Where a score reaches no tier, the table gives no bound: no score chooses a deeper step than
  -- that one does.
  pub determine_skip_step-below_tiers :
      (low other : ℤ)
      → select_k_by_score cfg low ≡ none
      → int_leb
          (determine_skip_step cfg saved (some other))
          (determine_skip_step cfg saved (some low))
        ≡ true
  determine_skip_step-below_tiers low other below =
      from_caps (some other) (some low) (skip_cap_below cfg low other below)
