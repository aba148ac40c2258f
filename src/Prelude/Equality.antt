-- ===== src/Prelude/Equality.antt =====
-- Boolean equality as an interface; byte strings and texts are lists of numbers.
use Prim.Native.Nat.{ℕ}
use Prim.Native.Char.{code}
use Prim.Native.String.{String}
use mathlib.Core.Path.{◌≡◌, refl}
use mathlib.Core.Logic.{◌↔◌}
use mathlib.Core.Bool.{Bool, true, false, ◌&&◌}
use mathlib.Core.List.{List, [], ◌∷◌}
use native.Mathlib.Omega.{arith}
use cache_seek.Prelude.Tests.{nat_eq, nat_eq_iff}

-- The test and what it decides.
pub record HasEq {ℓ} (K : Type ℓ) : Type ℓ where
  pub same : K → K → Bool
  pub same_iff : (x y : K) → (same x y ≡ true) ↔ (x ≡ y)

instance abbrev pub ℕ_eq : HasEq ℕ
ℕ_eq = record { same = nat_eq; same_iff = nat_eq_iff }

module _ {ℓ} {A : Type ℓ} ⦃e : HasEq A⦄ where
  infix 50 ◌==◌
  abbrev pub ◌==◌ : A → A → Bool
  x == y = e.same x y

  abbrev pub list_beq : List A → List A → Bool
  list_beq [] [] = true
  list_beq [] (y ∷ ys) = false
  list_beq (x ∷ xs) [] = false
  list_beq (x ∷ xs) (y ∷ ys) = x == y && list_beq xs ys

  pub list_beq_iff : (xs ys : List A) → (list_beq xs ys ≡ true) ↔ (xs ≡ ys)
  list_beq_iff [] [] = ground arith
  list_beq_iff [] (y ∷ ys) = ground arith
  list_beq_iff (x ∷ xs) [] = ground arith
  list_beq_iff (x ∷ xs) (y ∷ ys) = ground (arith, e.same_iff x y, list_beq_iff xs ys)

  instance abbrev pub list_eq : HasEq (List A)
  list_eq = record { same = list_beq; same_iff = list_beq_iff }

  pub beq_refl : (a : A) → (a == a) ≡ true
  beq_refl a = (e.same_iff a a).1 refl

-- `bytes` and `str` of the source.
abbrev pub Bytes : Type 0
Bytes = List ℕ

abbrev pub Text : Type 0
Text = List ℕ

instance abbrev pub bytes_eq : HasEq Bytes
bytes_eq = list_eq

-- The code points of a literal.
abbrev pub codes : String → Text
codes String.[] = []
codes (String.◌∷◌ c s) = code c ∷ codes s
