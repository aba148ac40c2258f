-- ===== src/Dict.antt =====
-- Python's `dict`: an association list in insertion order. An assignment to a key that is there
-- keeps its place, a new key goes to the end.
use cache_seek.Prelude.{
  ◌≡◌, refl, Bool, true, false, Option, none, some, List, [], ◌∷◌, arith, HasEq, ◌==◌,
  if◌then◌else◌, beq_refl, inl, inr, Bool-cases,
}

abbrev pub Dict {ℓ} : Type ℓ → Type ℓ → Type ℓ
Dict K V = List (K × V)

module _ {ℓ} {K V : Type ℓ} ⦃e : HasEq K⦄ where
  -- `d.get(k)`
  unfoldable pub get : Dict K V → K → Option V
  get [] k = none
  get ((j, v) ∷ d) k = if j == k then some v else get d k

  -- `d[k] = v`
  unfoldable pub put : Dict K V → K → V → Dict K V
  put [] k v = (k, v) ∷ []
  put ((j, w) ∷ d) k v = if j == k then (j, v) ∷ d else (j, w) ∷ put d k v

  -- `d.pop(k, None)`, the dict that is left. A dict has each key once.
  unfoldable pub pop : Dict K V → K → Dict K V
  pop [] k = []
  pop ((j, w) ∷ d) k = let rest = pop d k in if j == k then rest else (j, w) ∷ rest

  -- `k in d`
  abbrev pub has : Dict K V → K → Bool
  has d k = elim (get d k) [ none ↦ false | some _ ↦ true ]

  pub get-put :
      (d : Dict K V) (k j : K) (v : V) → get (put d k v) j ≡ (if k == j then some v else get d j)
  unfolding get put
  get-put [] k j v = refl
  get-put ((i, w) ∷ d) k j v =
      ground (arith, e.same_iff i k, e.same_iff i j, e.same_iff k j, get-put d k j v)

  pub get-pop : (d : Dict K V) (k j : K) → get (pop d k) j ≡ (if k == j then none else get d j)
  unfolding get pop
  get-pop [] k j = ground arith
  get-pop ((i, w) ∷ d) k j =
      ground (arith, e.same_iff i k, e.same_iff i j, e.same_iff k j, get-pop d k j)

  pub get-put_self : (d : Dict K V) (k : K) (v : V) → get (put d k v) k ≡ some v
  get-put_self d k v = rw (get-put, beq_refl k)

  pub pop-absent : (d : Dict K V) (k : K) → get d k ≡ none → pop d k ≡ d
  unfolding get pop
  pop-absent [] k h = refl
  pop-absent ((j, w) ∷ d) k h = ground (arith, pop-absent d k)

  -- Each key is there once.
  abbrev pub IsDict : Dict K V → Type ℓ
  IsDict [] = Unit
  IsDict ((k, v) ∷ d) = (get d k ≡ none) × IsDict d

  pub put-IsDict : (d : Dict K V) (k : K) (v : V) → IsDict d → IsDict (put d k v)
  unfolding put get
  put-IsDict [] k v h = (refl, tt)
  put-IsDict ((j, w) ∷ d) k v (absent, rest) = elim (Bool-cases (j == k)) [
    | inl q ↦ rw q (absent, rest)
    | inr q ↦ rw q (
      ground (arith, get-put d k j v, absent, q, e.same_iff j k, e.same_iff k j),
      put-IsDict d k v rest,
    )
  ]

  pub pop-IsDict : (d : Dict K V) (k : K) → IsDict d → IsDict (pop d k)
  unfolding pop
  pop-IsDict [] k h = tt
  pop-IsDict ((j, w) ∷ d) k (absent, rest) = elim (Bool-cases (j == k)) [
    | inl q ↦ rw q (pop-IsDict d k rest)
    | inr q ↦ rw q (ground (arith, get-pop d k j, absent), pop-IsDict d k rest)
  ]

pub ruleset dict_laws = (get-put, get-pop)
