-- ===== src/Prelude/Int.antt =====
-- Signed integers over the native numbers: `negsuc n` is -(n + 1).
use Prim.Native.Nat.{ℕ, zero, suc, ◌+◌}
use mathlib.Core.Path.{◌≡◌}
use mathlib.Core.Logic.{◌↔◌}
use mathlib.Core.Bool.{Bool, true, false}
use native.Mathlib.Omega.{arith}
use mathlib.Core.List.{List, [], ◌∷◌}
use mathlib.Core.Option.{Option, none, some}
use cache_seek.Prelude.Tests.{ltb, leb, nat_eq, if◌then◌else◌}
use cache_seek.Prelude.Equality.{HasEq}

pub data ℤ : Type 0 where
  pos : ℕ → ℤ
  negsuc : ℕ → ℤ

abbrev pub int_beq : ℤ → ℤ → Bool
int_beq (pos a) (pos b) = nat_eq a b
int_beq (negsuc a) (negsuc b) = nat_eq a b
int_beq (pos a) (negsuc b) = false
int_beq (negsuc a) (pos b) = false

pub int_beq_iff : (a b : ℤ) → (int_beq a b ≡ true) ↔ (a ≡ b)
int_beq_iff (pos a) (pos b) = ground arith
int_beq_iff (negsuc a) (negsuc b) = ground arith
int_beq_iff (pos a) (negsuc b) = ground arith
int_beq_iff (negsuc a) (pos b) = ground arith

instance abbrev pub int_eq : HasEq ℤ
int_eq = record { same = int_beq; same_iff = int_beq_iff }

-- `a + 1`, `0 <= a` and `a < n`.
abbrev pub next_int : ℤ → ℤ
next_int (pos n) = pos (n + 1)
next_int (negsuc zero) = pos 0
next_int (negsuc (suc n)) = negsuc n

abbrev pub is_nonneg : ℤ → Bool
is_nonneg (pos n) = true
is_nonneg (negsuc n) = false

abbrev pub int_ltb : ℤ → ℕ → Bool
int_ltb (pos n) k = ltb n k
int_ltb (negsuc n) k = true

-- `a <= b`
abbrev pub int_leb : ℤ → ℤ → Bool
int_leb (pos a) (pos b) = leb a b
int_leb (pos a) (negsuc b) = false
int_leb (negsuc a) (pos b) = true
int_leb (negsuc a) (negsuc b) = leb b a

pub int_leb_refl : (a : ℤ) → int_leb a a ≡ true
int_leb_refl (pos a) = ground arith
int_leb_refl (negsuc a) = ground arith

pub int_leb_trans : (a b c : ℤ) → int_leb a b ≡ true → int_leb b c ≡ true → int_leb a c ≡ true
int_leb_trans (pos a) (pos b) (pos c) h k = ground arith
int_leb_trans (pos a) (pos b) (negsuc c) h k = ground arith
int_leb_trans (pos a) (negsuc b) c h k = ground arith
int_leb_trans (negsuc a) (pos b) (pos c) h k = ground arith
int_leb_trans (negsuc a) (pos b) (negsuc c) h k = ground arith
int_leb_trans (negsuc a) (negsuc b) (pos c) h k = ground arith
int_leb_trans (negsuc a) (negsuc b) (negsuc c) h k = ground arith

pub int_leb_total : (a b : ℤ) → int_leb a b ≡ false → int_leb b a ≡ true
int_leb_total (pos a) (pos b) h = ground arith
int_leb_total (pos a) (negsuc b) h = ground arith
int_leb_total (negsuc a) (pos b) h = ground arith
int_leb_total (negsuc a) (negsuc b) h = ground arith

pub int_leb_antisym : (a b : ℤ) → int_leb a b ≡ true → int_leb b a ≡ true → a ≡ b
int_leb_antisym (pos a) (pos b) h k = ground arith
int_leb_antisym (pos a) (negsuc b) h k = ground arith
int_leb_antisym (negsuc a) (pos b) h k = ground arith
int_leb_antisym (negsuc a) (negsuc b) h k = ground arith

-- `max` of two numbers and of a list, and `min` of two numbers.
abbrev pub int_max2 : ℤ → ℤ → ℤ
int_max2 m x = if int_leb m x then x else m

abbrev pub int_max : List ℤ → Option ℤ
int_max [] = none
int_max (x ∷ xs) = elim (int_max xs) [ none ↦ some x | some m ↦ some (int_max2 m x) ]

abbrev pub int_min : ℤ → ℤ → ℤ
int_min a b = if int_leb a b then a else b

pub int_max2_le :
    (a b c : ℤ) → int_leb a c ≡ true → int_leb b c ≡ true → int_leb (int_max2 a b) c ≡ true
int_max2_le a b c h k = ground (arith, h, k)

pub le-int_max2_left : (a b : ℤ) → int_leb a (int_max2 a b) ≡ true
le-int_max2_left a b = ground (arith, int_leb_refl a)

pub le-int_max2_right : (a b : ℤ) → int_leb b (int_max2 a b) ≡ true
le-int_max2_right a b = ground (arith, int_leb_refl b, int_leb_total a b)

pub int_min_mono : (a b c : ℤ) → int_leb b c ≡ true → int_leb (int_min a b) (int_min a c) ≡ true
int_min_mono a b c h = ground (
  arith,
  h,
  int_leb_refl a,
  int_leb_trans a b c,
  int_leb_total a b,
  int_leb_trans b c a,
  int_leb_total a c,
)

pub int_min_le : (a b : ℤ) → int_leb (int_min a b) a ≡ true
int_min_le a b = ground (arith, int_leb_refl a, int_leb_total a b)
