-- ===== src/Service/Eviction/Order.antt =====
-- The sort by which service/eviction.py orders its candidates.
use cache_seek.Prelude.{ℕ, ◌≤◌, List, [], ◌∷◌, All, leb, leb→le, arith, Bool-cases, inl, inr}
use cache_seek.Service.Eviction.{insert_by, sorted}
use mathlib.Core.List.{Perm}
use mathlib.Core.List.Perm

module _ {A : Type 0} (key : A → ℕ) where
  -- Each item's key is at most the keys of the items after it.
  abbrev pub Ascending : List A → Type 0
  Ascending [] = Unit
  Ascending (x ∷ xs) = All (λ y. key x ≤ key y) xs × Ascending xs

  All-insert_by :
      (P : A → Type 0) (x : A) (ys : List A) → P x → All P ys → All P (insert_by key x ys)
  unfolding insert_by
  All-insert_by P x [] px h = (px, tt)
  All-insert_by P x (y ∷ ys) px h = elim (Bool-cases (leb (key x) (key y))) [
    | inl e ↦ rw e (px, h)
    | inr e ↦ rw e (h.0, All-insert_by P x ys px h.1)
  ]

  All-weaken : (m n : ℕ) (ys : List A) → m ≤ n → All (λ y. n ≤ key y) ys → All (λ y. m ≤ key y) ys
  All-weaken m n [] h a = tt
  All-weaken m n (y ∷ ys) h a = (omega (arith, a.0), All-weaken m n ys h a.1)

  insert_by-Ascending : (x : A) (ys : List A) → Ascending ys → Ascending (insert_by key x ys)
  unfolding insert_by
  insert_by-Ascending x [] h = (tt, tt)
  insert_by-Ascending x (y ∷ ys) h = elim (Bool-cases (leb (key x) (key y))) [
    | inl e ↦
        let le = leb→le (key x) (key y) e in rw e ((le, All-weaken (key x) (key y) ys le h.0), h)
    | inr e ↦
        rw e
          (All-insert_by (λ z. key y ≤ key z) x ys (ground arith) h.0, insert_by-Ascending x ys h.1)
  ]

  pub sorted-Ascending : (xs : List A) → Ascending (sorted key xs)
  unfolding sorted
  sorted-Ascending [] = tt
  sorted-Ascending (x ∷ xs) = insert_by-Ascending x (sorted key xs) (sorted-Ascending xs)

  insert_by-Perm : (x : A) (ys : List A) → Perm (insert_by key x ys) (x ∷ ys)
  unfolding insert_by
  insert_by-Perm x [] = Perm.refl (x ∷ [])
  insert_by-Perm x (y ∷ ys) = elim (Bool-cases (leb (key x) (key y))) [
    | inl e ↦ rw e (Perm.refl (x ∷ y ∷ ys))
    | inr e ↦ rw e (Perm.trans (Perm.cons y (insert_by-Perm x ys)) (Perm.swap x y ys))
  ]

  pub sorted-Perm : (xs : List A) → Perm (sorted key xs) xs
  unfolding sorted
  sorted-Perm [] = Perm.nil
  sorted-Perm (x ∷ xs) =
      Perm.trans (insert_by-Perm x (sorted key xs)) (Perm.cons x (sorted-Perm xs))
