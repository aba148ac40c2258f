-- ===== src/Approx/SkipStep/Range.antt =====
-- `_determine_skip_step` of reuse/approximate/strategy.py, for one bound.
use cache_seek.Prelude.{
  ◌≡◌, refl, true, false, ◌⊎◌, Option, none, some, List, [], ◌∷◌, All, arith, inl, inr, Bool-cases,
  Option-cases,
}
use cache_seek.Prelude.Int.{ℤ, pos, int_leb, int_leb_refl, int_leb_trans, int_leb_total, int_max}
use cache_seek.Approx.SkipStep.{SkipConfig, in_range, valid_steps, skip_cap, determine_skip_step}
use mathlib.Core.List.{Memᴰ}
use mathlib.Core.Path.{subst, sym}

-- `k` is saved and in the range, and no saved step in the range is deeper.
abbrev pub Chosen : ℤ → List ℤ → ℤ → Type 0
Chosen cap saved k =
    (in_range cap k ≡ true)
    × Memᴰ k saved
    × All (λ s. (in_range cap s ≡ false) ⊎ (int_leb s k ≡ true)) saved

-- `k` is the deepest saved step in the range, or 0 when there is none.
abbrev pub Deepest : ℤ → List ℤ → ℤ → Type 0
Deepest cap saved k = ((k ≡ pos 0) × All (λ s. in_range cap s ≡ false) saved) ⊎ Chosen cap saved k

valid_steps-none :
    (cap : ℤ) (saved : List ℤ)
    → int_max (valid_steps cap saved) ≡ none
    → All (λ s. in_range cap s ≡ false) saved
unfolding valid_steps
valid_steps-none cap [] h = tt
valid_steps-none cap (s ∷ ss) h = elim (Bool-cases (in_range cap s)) [
  | inl e ↦ ground (arith, e, h)
  | inr e ↦ (e, valid_steps-none cap ss (ground (arith, e, h)))
]

All-or :
    (cap m k : ℤ) (saved : List ℤ)
    → int_leb m k ≡ true
    → All (λ s. (in_range cap s ≡ false) ⊎ (int_leb s m ≡ true)) saved
    → All (λ s. (in_range cap s ≡ false) ⊎ (int_leb s k ≡ true)) saved
All-or cap m k [] h a = tt
All-or cap m k (s ∷ ss) h a = (
  elim a.0 [ inl out ↦ inl out | inr le ↦ inr (int_leb_trans s m k le h) ],
  All-or cap m k ss h a.1,
)

All-out :
    (cap k : ℤ) (saved : List ℤ)
    → All (λ s. in_range cap s ≡ false) saved
    → All (λ s. (in_range cap s ≡ false) ⊎ (int_leb s k ≡ true)) saved
All-out cap k [] a = tt
All-out cap k (s ∷ ss) a = (inl a.0, All-out cap k ss a.1)

valid_steps-some :
    (cap k : ℤ) (saved : List ℤ) → int_max (valid_steps cap saved) ≡ some k → Chosen cap saved k
unfolding valid_steps
valid_steps-some cap k [] h = ground (arith, h)
valid_steps-some cap k (s ∷ ss) h = elim (Bool-cases (in_range cap s)) [
  | inr out ↦
      let (inside, at, above) = valid_steps-some cap k ss (ground (arith, h, out)) in
      (inside, Memᴰ.tail at, (inl out, above))
  | inl into ↦ elim (Option-cases (int_max (valid_steps cap ss))) [
    | inl alone ↦
        let e : k ≡ s = ground (arith, h, into, alone) in
        subst (Chosen cap (s ∷ ss)) (sym e) (
          into,
          Memᴰ.head refl,
          (inr (int_leb_refl s), All-out cap s ss (valid_steps-none cap ss alone)),
        )
    | inr (m, best) ↦
        let (inside, at, above) = valid_steps-some cap m ss best in
        elim (Bool-cases (int_leb m s)) [
          | inl le ↦
              let e : k ≡ s = ground (arith, h, into, best, le) in
              subst (Chosen cap (s ∷ ss)) (sym e)
                (into, Memᴰ.head refl, (inr (int_leb_refl s), All-or cap m s ss le above))
          | inr gt ↦
              let e : k ≡ m = ground (arith, h, into, best, gt) in
              subst (Chosen cap (s ∷ ss)) (sym e)
                (inside, Memᴰ.tail at, (inr (int_leb_total m s gt), above))
        ]
  ]
]

pub determine_skip_step-Deepest :
    (cfg : SkipConfig) (saved : List ℤ) (score : Option ℤ)
    → Deepest (skip_cap cfg score) saved (determine_skip_step cfg saved score)
unfolding determine_skip_step
determine_skip_step-Deepest cfg saved score =
    elim (Option-cases (int_max (valid_steps (skip_cap cfg score) saved))) [
      | inl e ↦
          rw (e, determine_skip_step) (inl (refl, valid_steps-none (skip_cap cfg score) saved e))
      | inr (k, e) ↦
          rw (e, determine_skip_step) (inr (valid_steps-some (skip_cap cfg score) k saved e))
    ]

-- A wider range has a deeper deepest step.
in_range-wider :
    (cap wide s : ℤ) → int_leb cap wide ≡ true → in_range cap s ≡ true → in_range wide s ≡ true
unfolding in_range
in_range-wider cap wide s h inside = ground (arith, h, inside, int_leb_trans s cap wide)

All-at :
    (cap k m : ℤ) (saved : List ℤ)
    → Memᴰ k saved
    → All (λ s. (in_range cap s ≡ false) ⊎ (int_leb s m ≡ true)) saved
    → in_range cap k ≡ true
    → int_leb k m ≡ true
All-at cap k m [] at a inside = elim at [ ]
All-at cap k m (s ∷ ss) (Memᴰ.head e) a inside = ground (arith, e, a.0, inside)
All-at cap k m (s ∷ ss) (Memᴰ.tail at) a inside = All-at cap k m ss at a.1 inside

pub Deepest-mono :
    (cap wide k m : ℤ) (saved : List ℤ)
    → int_leb cap wide ≡ true
    → Deepest cap saved k
    → Deepest wide saved m
    → int_leb k m ≡ true
unfolding in_range
Deepest-mono cap wide k m saved h (inl (kz, _)) (inl (mz, _)) = rw (kz, mz) refl
Deepest-mono cap wide k m saved h (inl (kz, _)) (inr (into, _, _)) =
    rw kz (int_leb_total m (pos 0) (ground (arith, into)))
Deepest-mono cap wide k m saved h (inr (inside, at, _)) (inl (mz, out)) =
    All-at wide k m saved at (All-out wide m saved out) (in_range-wider cap wide k h inside)
Deepest-mono cap wide k m saved h (inr (inside, at, _)) (inr (into, _, above)) =
    All-at wide k m saved at above (in_range-wider cap wide k h inside)
