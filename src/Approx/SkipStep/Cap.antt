-- ===== src/Approx/SkipStep/Cap.antt =====
-- The bound of `_determine_skip_step` of reuse/approximate/strategy.py, by the fields of the
-- configuration, and the step within it.
use mathlib.Core.List.{Memᴰ}
use mathlib.Core.Path.{subst}
use cache_seek.Prelude.{
  ◌≡◌, ◌≢◌, refl, sym, true, false, ◌⊎◌, Option, none, some, List, [], ◌∷◌, All, arith, inl, inr,
  Bool-cases, Option-cases, if◌then◌else◌,
}
use cache_seek.Prelude.Int.{
  ℤ, pos, int_beq, int_beq_iff, int_leb, int_leb_refl, int_leb_trans, int_leb_total, int_max,
  int_min, int_min_le,
}
use cache_seek.Approx.SkipStep.{
  SkipConfig, qualifying, select_k_by_score, in_range, skip_cap, determine_skip_step,
}
use cache_seek.Approx.SkipStep.Range.{determine_skip_step-Deepest}

-- `max_skip_step`, and 5 where it is 0.
abbrev pub IsBase : SkipConfig → ℤ → Type 0
IsBase cfg base =
    ((cfg.max_skip_step ≡ pos 0) × (base ≡ pos 5))
    ⊎ ((cfg.max_skip_step ≢ pos 0) × (base ≡ cfg.max_skip_step))

-- The staircase is off, or the score reaches no tier.
abbrev pub NoTier : SkipConfig → ℤ → Type 0
NoTier cfg score =
    (cfg.staircase_skip_enabled ≡ false)
    ⊎ All (λ entry. int_leb entry.1 score ≡ false) cfg.skip_step_tau_table

-- `k` is the deepest tier of the table that the score reaches.
abbrev pub BestTier : SkipConfig → ℤ → ℤ → Type 0
BestTier cfg score k =
    (cfg.staircase_skip_enabled ≡ true)
    × ((tau : ℤ) × Memᴰ (k, tau) cfg.skip_step_tau_table × (int_leb tau score ≡ true))
    × All (λ entry. (int_leb entry.1 score ≡ false) ⊎ (int_leb entry.0 k ≡ true))
        cfg.skip_step_tau_table

-- Without a score or a tier the bound is the base, with a tier the lower one of the two.
abbrev pub IsCap : SkipConfig → Option ℤ → ℤ → Type 0
IsCap cfg none cap = IsBase cfg cap
IsCap cfg (some score) cap =
    (base : ℤ) × IsBase cfg base
    × ((NoTier cfg score × (cap ≡ base))
        ⊎ ((k : ℤ) × BestTier cfg score k
            × (int_leb cap base ≡ true)
            × (int_leb cap k ≡ true)
            × ((cap ≡ base) ⊎ (cap ≡ k))))

-- `0 < s` and `s <= cap`.
abbrev pub InRange : ℤ → ℤ → Type 0
InRange cap s = (int_leb s (pos 0) ≡ false) × (int_leb s cap ≡ true)

-- `k` is the deepest saved step in the range, or 0 where there is none.
abbrev pub DeepestSaved : ℤ → List ℤ → ℤ → Type 0
DeepestSaved cap saved k =
    ((k ≡ pos 0) × All (λ s. ¬ InRange cap s) saved)
    ⊎ (InRange cap k × Memᴰ k saved × All (λ s. InRange cap s → int_leb s k ≡ true) saved)

abbrev Beaten : ℤ → ℤ → List (ℤ × ℤ) → Type 0
Beaten score k table =
    All (λ entry. (int_leb entry.1 score ≡ false) ⊎ (int_leb entry.0 k ≡ true)) table

qualifying-none :
    (score : ℤ) (table : List (ℤ × ℤ))
    → int_max (qualifying score table) ≡ none
    → All (λ entry. int_leb entry.1 score ≡ false) table
unfolding qualifying
qualifying-none score [] h = tt
qualifying-none score ((k, tau) ∷ table) h = elim (Bool-cases (int_leb tau score)) [
  | inl e ↦ elim (Option-cases (int_max (qualifying score table))) [
    | inl q ↦ ground (arith, e, q, h)
    | inr (m, q) ↦ ground (arith, e, q, h)
  ]
  | inr e ↦ (e, qualifying-none score table (ground (arith, e, h)))
]

Beaten-mono :
    (score k m : ℤ) (table : List (ℤ × ℤ))
    → int_leb k m ≡ true
    → Beaten score k table
    → Beaten score m table
Beaten-mono score k m [] h a = tt
Beaten-mono score k m (entry ∷ table) h a = (
  elim a.0 [ inl out ↦ inl out | inr le ↦ inr (int_leb_trans entry.0 k m le h) ],
  Beaten-mono score k m table h a.1,
)

None-Beaten :
    (score k : ℤ) (table : List (ℤ × ℤ))
    → All (λ entry. int_leb entry.1 score ≡ false) table
    → Beaten score k table
None-Beaten score k [] a = tt
None-Beaten score k (entry ∷ table) a = (inl a.0, None-Beaten score k table a.1)

abbrev BestOf : ℤ → List (ℤ × ℤ) → ℤ → Type 0
BestOf score table k =
    ((tau : ℤ) × Memᴰ (k, tau) table × (int_leb tau score ≡ true)) × Beaten score k table

qualifying-BestOf :
    (score k : ℤ) (table : List (ℤ × ℤ))
    → int_max (qualifying score table) ≡ some k
    → BestOf score table k
unfolding qualifying
qualifying-BestOf score k [] h = ground (arith, h)
qualifying-BestOf score k ((j, tau) ∷ table) h = elim (Bool-cases (int_leb tau score)) [
  | inr under ↦
      let ((t, at, reached), beaten) = qualifying-BestOf score k table (ground (arith, under, h)) in
      ((t, Memᴰ.tail at, reached), (inl under, beaten))
  | inl over ↦ elim (Option-cases (int_max (qualifying score table))) [
    | inl q ↦
        let same : j ≡ k = ground (arith, over, q, h) in
        subst (BestOf score ((j, tau) ∷ table)) same (
          (tau, Memᴰ.head refl, over),
          (inr (int_leb_refl j), None-Beaten score j table (qualifying-none score table q)),
        )
    | inr (m, q) ↦
        let ((t, at, reached), beaten) = qualifying-BestOf score m table q in
        elim (Bool-cases (int_leb m j)) [
          | inl le ↦
              let same : j ≡ k = ground (arith, over, q, le, h) in
              subst (BestOf score ((j, tau) ∷ table)) same (
                (tau, Memᴰ.head refl, over),
                (inr (int_leb_refl j), Beaten-mono score m j table le beaten),
              )
          | inr gt ↦
              let same : m ≡ k = ground (arith, over, q, gt, h) in
              subst (BestOf score ((j, tau) ∷ table)) same
                ((t, Memᴰ.tail at, reached), (inr (int_leb_total m j gt), beaten))
        ]
  ]
]

abbrev base_of : SkipConfig → ℤ
base_of cfg = if int_beq cfg.max_skip_step (pos 0) then pos 5 else cfg.max_skip_step

base_of-IsBase : (cfg : SkipConfig) → IsBase cfg (base_of cfg)
base_of-IsBase cfg = elim (Bool-cases (int_beq cfg.max_skip_step (pos 0))) [
  | inl e ↦ rw e (inl ((int_beq_iff cfg.max_skip_step (pos 0)).0 e, refl))
  | inr e ↦ rw e (inr ((λ q. ground (arith, e, (int_beq_iff cfg.max_skip_step (pos 0)).1 q)), refl))
]

int_min_right : (a b : ℤ) → int_leb (int_min a b) b ≡ true
int_min_right a b = ground (arith, int_leb_refl b)

int_min_one : (a b : ℤ) → (int_min a b ≡ a) ⊎ (int_min a b ≡ b)
int_min_one a b = elim (Bool-cases (int_leb a b)) [
  | inl e ↦ rw e (inl refl)
  | inr e ↦ rw e (inr refl)
]

-- What the selection of a tier gives.
abbrev Selected : SkipConfig → ℤ → Option ℤ → Type 0
Selected cfg score none = NoTier cfg score
Selected cfg score (some k) = BestTier cfg score k

table-Selected :
    (cfg : SkipConfig) (score : ℤ) (o : Option ℤ)
    → cfg.staircase_skip_enabled ≡ true
    → int_max (qualifying score cfg.skip_step_tau_table) ≡ o
    → Selected cfg score o
table-Selected cfg score none on e = inr (qualifying-none score cfg.skip_step_tau_table e)
table-Selected cfg score (some k) on e =
    let (reached, beaten) = qualifying-BestOf score k cfg.skip_step_tau_table e in
    (on, reached, beaten)

select_k_by_score-Selected :
    (cfg : SkipConfig) (score : ℤ) (o : Option ℤ)
    → select_k_by_score cfg score ≡ o
    → Selected cfg score o
unfolding select_k_by_score
select_k_by_score-Selected cfg score none h = elim (Bool-cases cfg.staircase_skip_enabled) [
  | inl on ↦ table-Selected cfg score none on (ground (arith, on, h))
  | inr off ↦ inl off
]
select_k_by_score-Selected cfg score (some k) h = elim (Bool-cases cfg.staircase_skip_enabled) [
  | inl on ↦ table-Selected cfg score (some k) on (ground (arith, on, h))
  | inr off ↦ ground (arith, off, h)
]

skip_cap-IsCap : (cfg : SkipConfig) (score : Option ℤ) → IsCap cfg score (skip_cap cfg score)
unfolding skip_cap
skip_cap-IsCap cfg none = base_of-IsBase cfg
skip_cap-IsCap cfg (some score) = elim (Option-cases (select_k_by_score cfg score)) [
  | inl e ↦
      let same : skip_cap cfg (some score) ≡ base_of cfg = ground (arith, e) in
      (base_of cfg, base_of-IsBase cfg, inl (select_k_by_score-Selected cfg score none e, same))
  | inr (k, e) ↦
      let same : skip_cap cfg (some score) ≡ int_min (base_of cfg) k = ground (arith, e) in
      subst (IsCap cfg (some score)) (sym same) (
        base_of cfg,
        base_of-IsBase cfg,
        inr (
          k,
          select_k_by_score-Selected cfg score (some k) e,
          int_min_le (base_of cfg) k,
          int_min_right (base_of cfg) k,
          int_min_one (base_of cfg) k,
        ),
      )
]

in_range-InRange : (cap s : ℤ) → in_range cap s ≡ true → InRange cap s
unfolding in_range
in_range-InRange cap s h = (ground (arith, h), ground (arith, h))

not_in_range : (cap s : ℤ) → in_range cap s ≡ false → ¬ InRange cap s
unfolding in_range
not_in_range cap s h (above, below) = ground (arith, h, above, below)

All-not_in_range :
    (cap : ℤ) (saved : List ℤ)
    → All (λ s. in_range cap s ≡ false) saved
    → All (λ s. ¬ InRange cap s) saved
All-not_in_range cap [] h = tt
All-not_in_range cap (s ∷ saved) h = (not_in_range cap s h.0, All-not_in_range cap saved h.1)

All-deeper :
    (cap k : ℤ) (saved : List ℤ)
    → All (λ s. (in_range cap s ≡ false) ⊎ (int_leb s k ≡ true)) saved
    → All (λ s. InRange cap s → int_leb s k ≡ true) saved
All-deeper cap k [] h = tt
All-deeper cap k (s ∷ saved) h = (
  elim h.0 [ inl out ↦ λ inside. absurd (not_in_range cap s out inside) | inr le ↦ λ inside. le ],
  All-deeper cap k saved h.1,
)

-- `_determine_skip_step` returns the deepest saved step that is above 0 and not above a cap, or 0 where
-- there is none. The cap is `max_skip_step` (5 where that is 0), or, where the staircase is on and the
-- score reaches a tier of the table, the lower one of that and the deepest tier that it reaches.
pub determine_skip_step-DeepestSaved :
    (cfg : SkipConfig) (saved : List ℤ) (score : Option ℤ)
    → (cap : ℤ) × IsCap cfg score cap × DeepestSaved cap saved (determine_skip_step cfg saved score)
determine_skip_step-DeepestSaved cfg saved score = (
  skip_cap cfg score,
  skip_cap-IsCap cfg score,
  elim (determine_skip_step-Deepest cfg saved score) [
    | inl (zero, out) ↦ inl (zero, All-not_in_range (skip_cap cfg score) saved out)
    | inr (inside, at, above) ↦ inr (
      in_range-InRange (skip_cap cfg score) _ inside,
      at,
      All-deeper (skip_cap cfg score) _ saved above,
    )
  ],
)
