-- ===== src/Exact/Config/BreakEven.antt =====
-- `calibrate_break_even_k` of reuse/exact_prefix/config.py against its cost model.
use native.Mathlib.Decide.{dec_lt, ℕ_discrete}
use native.Mathlib.Nat.{add-zero, add-suc}
use cache_seek.Prelude.{
  ℕ, zero, suc, ◌+◌, ◌-◌, ◌*◌, ◌≤◌, ◌<◌, min, ◌≡◌, ◌↔◌, false, ltb, ltb→lt, arith, inl, inr,
  Bool-cases,
}
use cache_seek.Exact.Config.{calibrate_loop, calibrate_break_even_k}

lt_of_mul-lt : (k a b : ℕ) → k * a < k * b → a < b
lt_of_mul-lt k a b h = elim (dec_lt a b) [
  | yes lt ↦ lt
  | no ge ↦ let le : b ≤ a = omega arith in absurd (grind arith)
]

module _ (fetch recompute window fixed : ℕ) where
  -- `K·R > fixed + min(K,W)·F`
  abbrev pub Pays : ℕ → Type 0
  Pays k = fixed + min k window * fetch < k * recompute

  Pays-suc : (k : ℕ) → Pays k → Pays (suc k)
  Pays-suc k h = elim (dec_lt k window) [
    | yes below ↦
        let m : min k window ≡ k = omega arith in
        let m' : min (suc k) window ≡ suc k = omega arith in
        let h' : fixed + k * fetch < k * recompute = rw m at h in
        let cheap : fetch < recompute = lt_of_mul-lt k fetch recompute (omega arith) in
        rw m' (omega arith)
    | no above ↦ let m : min (suc k) window ≡ min k window = omega arith in rw m (omega (arith, h))
  ]

  Pays-add : (k d : ℕ) → Pays k → Pays (k + d)
  Pays-add k zero h = rw add-zero h
  Pays-add k (suc d) h = rw add-suc (Pays-suc (k + d) (Pays-add k d h))

  Pays-mono : (k n : ℕ) → k ≤ n → Pays k → Pays n
  Pays-mono k n le h = let e : k + (n - k) ≡ n = omega arith in rw e at (Pays-add k (n - k) h)

  calibrate_loop-le : (rounds k : ℕ) → k ≤ calibrate_loop fetch recompute window fixed rounds k
  unfolding calibrate_loop
  calibrate_loop-le zero k = omega arith
  calibrate_loop-le (suc rounds) k = ground (arith, calibrate_loop-le rounds (suc k))

  not-Pays : (k : ℕ) → ltb (fixed + min k window * fetch) (k * recompute) ≡ false → ¬ Pays k
  not-Pays k h p = ground arith

  calibrate_loop_iff :
      (rounds k n : ℕ)
      → k ≤ n
      → n < k + rounds
      → (calibrate_loop fetch recompute window fixed rounds k ≤ n) ↔ Pays n
  unfolding calibrate_loop
  calibrate_loop_iff zero k n le lt = absurd (omega arith)
  calibrate_loop_iff (suc rounds) k n le lt =
      elim (Bool-cases (ltb (fixed + min k window * fetch) (k * recompute))) [
        | inl pays ↦ rw pays ((λ _. Pays-mono k n le (ltb→lt _ _ pays)), (λ _. le))
        | inr dear ↦ rw dear (elim (ℕ_discrete k n) [
          | yes e ↦ (
            (λ c. absurd (omega (arith, calibrate_loop-le rounds (suc k)))),
            (λ p. absurd (not-Pays k dear (rw e p))),
          )
          | no ne ↦ calibrate_loop_iff rounds (suc k) n (omega arith) (omega arith)
        ])
      ]

  -- For every prefix length from 1 to `max_k`, the gate `matched_len < break_even_k` lets through
  -- exactly the lengths at which reuse costs less than recomputation.
  pub calibrate_break_even_k_iff :
      (max_k n : ℕ)
      → 1 ≤ n
      → n ≤ max_k
      → (calibrate_break_even_k fetch recompute window fixed max_k ≤ n) ↔ Pays n
  unfolding calibrate_break_even_k
  calibrate_break_even_k_iff max_k n pos le = calibrate_loop_iff max_k 1 n pos (omega arith)
