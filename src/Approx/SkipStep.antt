-- ===== src/Approx/SkipStep.antt =====
-- The choice of the step to resume from, in reuse/approximate/strategy.py. Scores are whole numbers
-- of one unit (the source has floats, which it only compares).
pub mod Range
pub mod Staircase
pub mod Cap
use cache_seek.Prelude.{
  Bool, true, false, not, ◌&&◌, Option, none, some, List, [], ◌∷◌, if◌then◌else◌,
}
use cache_seek.Prelude.Int.{ℤ, pos, negsuc, int_beq, int_leb, int_max, int_min}

-- The fields of `CacheConfig` that the choice reads; the table is in the order of the dict.
pub record SkipConfig : Type 0 where
  pub max_skip_step : ℤ
  pub staircase_skip_enabled : Bool
  pub skip_step_tau_table : List (ℤ × ℤ)

-- `[int(k) for k, tau in tau_table.items() if rerank_score >= float(tau)]`
unfoldable pub qualifying : ℤ → List (ℤ × ℤ) → List ℤ
qualifying score [] = []
qualifying score ((k, tau) ∷ table) =
    let rest = qualifying score table in if int_leb tau score then k ∷ rest else rest

unfoldable pub select_k_by_score : SkipConfig → ℤ → Option ℤ
select_k_by_score cfg score =
    if cfg.staircase_skip_enabled then int_max (qualifying score cfg.skip_step_tau_table) else none

-- `0 < int(s) <= cap`
unfoldable pub in_range : ℤ → ℤ → Bool
in_range cap s = not (int_leb s (pos 0)) && int_leb s cap

unfoldable pub valid_steps : ℤ → List ℤ → List ℤ
valid_steps cap [] = []
valid_steps cap (s ∷ ss) =
    let rest = valid_steps cap ss in if in_range cap s then s ∷ rest else rest

-- The bound on the step.
unfoldable pub skip_cap : SkipConfig → Option ℤ → ℤ
skip_cap cfg score =
    let cap = if int_beq cfg.max_skip_step (pos 0) then pos 5 else cfg.max_skip_step in
    elim score [
      | none ↦ cap
      | some s ↦ elim (select_k_by_score cfg s) [ none ↦ cap | some k ↦ int_min cap k ]
    ]

-- With no saved step there is no valid one.
unfoldable pub determine_skip_step : SkipConfig → List ℤ → Option ℤ → ℤ
determine_skip_step cfg saved_steps score =
    elim (int_max (valid_steps (skip_cap cfg score) saved_steps)) [ none ↦ pos 0 | some k ↦ k ]
