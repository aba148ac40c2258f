-- ===== src/Approx/Payload/StepKey.antt =====
-- The keys that reuse/approximate/payload.py gives to the steps of a cache.
use cache_seek.Prelude.{
  ℕ, zero, suc, ◌+◌, ◌-◌, ◌*◌, ◌/◌, ◌%◌, ◌≤◌, ◌≡◌, refl, sym, ap, ◌∙◌, [], ◌∷◌, ◌++◌, Text, codes,
  All, All-append, ltb, arith, inl, inr, Bool-cases,
}
use cache_seek.Prelude.Int.{ℤ, pos, negsuc}
use cache_seek.Approx.Payload.{decimal_on, int_text, step_key}

-- The number that digits stand for, behind `acc`.
abbrev value : Text → ℕ → ℕ
value [] acc = acc
value (c ∷ cs) acc = value cs (acc * 10 + (c - 48))

value-append : (us vs : Text) (acc : ℕ) → value (us ++ vs) acc ≡ value vs (value us acc)
value-append [] vs acc = refl
value-append (u ∷ us) vs acc = value-append us vs (acc * 10 + (u - 48))

value-decimal_on : (fuel n : ℕ) → n ≤ fuel → value (decimal_on fuel n) 0 ≡ n
unfolding decimal_on
value-decimal_on zero n h = ground arith
value-decimal_on (suc fuel) n h = elim (Bool-cases (ltb n 10)) [
  | inl e ↦ ground (arith, e)
  | inr e ↦ ground (
    arith,
    e,
    value-append (decimal_on fuel (n / 10)) ((48 + n % 10) ∷ []) 0,
    value-decimal_on fuel (n / 10) (ground (arith, e)),
  )
]

Digits : Text → Type 0
Digits us = All (λ c. 48 ≤ c) us

decimal_on-Digits : (fuel n : ℕ) → Digits (decimal_on fuel n)
unfolding decimal_on Digits
decimal_on-Digits zero n = (omega arith, tt)
decimal_on-Digits (suc fuel) n = elim (Bool-cases (ltb n 10)) [
  | inl e ↦ rw e (omega arith, tt)
  | inr e ↦ rw e (
      All-append (λ c. 48 ≤ c) (decimal_on fuel (n / 10)) _ (decimal_on-Digits fuel (n / 10))
        (omega arith, tt))
]

no_minus : (us vs : Text) → Digits us → us ≡ 45 ∷ vs → ⊥
unfolding Digits
no_minus [] vs d h = ground (arith, h)
no_minus (u ∷ us) vs d h = ground (arith, h, d.0)

int_text-injective : (a b : ℤ) → int_text a ≡ int_text b → a ≡ b
unfolding int_text
int_text-injective (pos a) (pos b) h = ap pos (
    sym (value-decimal_on a a (omega arith))
    ∙ ap (λ t. value t 0) h
    ∙ value-decimal_on b b (omega arith))
int_text-injective (pos a) (negsuc b) h =
    absurd (no_minus (decimal_on a a) _ (decimal_on-Digits a a) h)
int_text-injective (negsuc a) (pos b) h =
    absurd (no_minus (decimal_on b b) _ (decimal_on-Digits b b) (sym h))
int_text-injective (negsuc a) (negsuc b) h =
    let t : decimal_on (suc a) (suc a) ≡ decimal_on (suc b) (suc b) = ground (arith, h) in
    let n : suc a ≡ suc b =
      sym (value-decimal_on (suc a) (suc a) (omega arith))
      ∙ ap (λ u. value u 0) t
      ∙ value-decimal_on (suc b) (suc b) (omega arith) in
    ap negsuc (omega (arith, n))

pub prefix_cancel : (us vs ws : Text) → us ++ vs ≡ us ++ ws → vs ≡ ws
prefix_cancel [] vs ws h = h
prefix_cancel (u ∷ us) vs ws h = prefix_cancel us vs ws (ground (arith, h))

-- A cache's steps have different keys.
pub step_key-injective :
    (cache_id : Text) (a b : ℤ) → step_key cache_id a ≡ step_key cache_id b → a ≡ b
unfolding step_key
step_key-injective cache_id a b h =
    int_text-injective a b
      (prefix_cancel (codes "_step") (int_text a) (int_text b) (prefix_cancel cache_id _ _ h))
