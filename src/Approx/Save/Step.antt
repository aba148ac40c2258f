-- ===== src/Approx/Save/Step.antt =====
-- The keys of reuse/approximate/payload.py, read by `save` of reuse/approximate/strategy.py.
use cache_seek.Prelude.{
  ℕ, zero, suc, ◌+◌, ◌-◌, ◌*◌, ◌/◌, ◌%◌, ◌≤◌, ◌≡◌, refl, false, none, some, [], ◌∷◌, ◌++◌, Text,
  codes, All, All-append, ltb, nat_eq, arith, inl, inr, Bool-cases,
}
use cache_seek.Prelude.Int.{ℤ, pos, negsuc}
use cache_seek.Approx.Payload.{decimal_on, int_text, step_key}
use cache_seek.Approx.Save.{read_digits, int_of, behind, behind_last, step_of_key}

read_digits-append :
    (us vs : Text) (acc n : ℕ)
    → read_digits acc us ≡ some n
    → read_digits acc (us ++ vs) ≡ read_digits n vs
unfolding read_digits
read_digits-append [] vs acc n h = ground (arith, h)
read_digits-append (u ∷ us) vs acc n h =
    ground (arith, h, read_digits-append us vs (acc * 10 + (u - 48)) n)

pub read_digits-decimal_on : (fuel n : ℕ) → n ≤ fuel → read_digits 0 (decimal_on fuel n) ≡ some n
unfolding decimal_on read_digits
read_digits-decimal_on zero n h = ground arith
read_digits-decimal_on (suc fuel) n h = elim (Bool-cases (ltb n 10)) [
  | inl e ↦ ground (arith, e)
  | inr e ↦ ground (
    arith,
    e,
    read_digits-append (decimal_on fuel (n / 10)) ((48 + n % 10) ∷ []) 0 (n / 10)
        (read_digits-decimal_on fuel (n / 10) (ground (arith, e))),
  )
]

-- No underscore is in the text.
abbrev Plain : Text → Type 0
Plain t = All (λ c. nat_eq 95 c ≡ false) t

decimal_on-Plain : (fuel n : ℕ) → Plain (decimal_on fuel n)
unfolding decimal_on
decimal_on-Plain zero n = (ground arith, tt)
decimal_on-Plain (suc fuel) n = elim (Bool-cases (ltb n 10)) [
  | inl e ↦ rw e (ground (arith, e), tt)
  | inr e ↦ rw e (
      All-append (λ c. nat_eq 95 c ≡ false) (decimal_on fuel (n / 10)) _
        (decimal_on-Plain fuel (n / 10)) (ground arith, tt))
]

int_text-Plain : (s : ℤ) → Plain (int_text s)
unfolding int_text
int_text-Plain (pos n) = decimal_on-Plain n n
int_text-Plain (negsuc n) = (refl, decimal_on-Plain (suc n) (suc n))

behind_last-Plain : (t : Text) → Plain t → behind_last (codes "_step") t ≡ none
unfolding behind_last behind
behind_last-Plain [] h = refl
behind_last-Plain (c ∷ cs) h = ground (arith, h.0, behind_last-Plain cs h.1)

behind_last-append :
    (us vs : Text) → Plain vs → behind_last (codes "_step") (us ++ (codes "_step" ++ vs)) ≡ some vs
unfolding behind_last behind
behind_last-append [] vs h =
    rw (behind_last-Plain (codes "step" ++ vs) (refl, (refl, (refl, (refl, h))))) refl
behind_last-append (u ∷ us) vs h = rw (behind_last-append us vs h) refl

decimal_on-cons :
    (fuel n : ℕ) → (c : ℕ) × (cs : Text) × (decimal_on fuel n ≡ c ∷ cs) × (nat_eq c 45 ≡ false)
unfolding decimal_on
decimal_on-cons zero n = (48 + n % 10, [], refl, ground arith)
decimal_on-cons (suc fuel) n = elim (Bool-cases (ltb n 10)) [
  | inl e ↦ (48 + n, [], rw e refl, ground (arith, e))
  | inr e ↦
      let (c, cs, q, p) = decimal_on-cons fuel (n / 10) in
      (c, cs ++ (48 + n % 10) ∷ [], rw (e, q) refl, p)
]

int_of-int_text : (s : ℤ) → int_of (int_text s) ≡ some s
unfolding int_of int_text
int_of-int_text (pos n) =
    let (c, cs, q, p) = decimal_on-cons n n in ground (arith, q, p, read_digits-decimal_on n n)
int_of-int_text (negsuc n) =
    let (c, cs, q, p) = decimal_on-cons (suc n) (suc n) in
    ground (arith, q, p, read_digits-decimal_on (suc n) (suc n))

-- The step that a key of a cache was written for is read back from the key, whatever the id has in it.
pub step_of_key-step_key : (cache_id : Text) (s : ℤ) → step_of_key (step_key cache_id s) ≡ some s
unfolding step_of_key step_key
step_of_key-step_key cache_id s =
    rw (behind_last-append cache_id (int_text s) (int_text-Plain s)) (int_of-int_text s)
