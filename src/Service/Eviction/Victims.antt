-- ===== src/Service/Eviction/Victims.antt =====
-- The victims of service/eviction.py against their candidates.
use cache_seek.Prelude.{
  ℕ, zero, suc, ◌+◌, ◌<◌, ◌≤◌, ◌≡◌, refl, ap, List, [], ◌∷◌, ◌++◌, map, Text, length, take, drop,
  All, leb, arith, Bool-cases, inl, inr, ◌⊎◌,
}
use cache_seek.Prelude.Int.{pos}
use cache_seek.Service.Eviction.{
  Candidate, sorted, accumulate_loop, accumulate, lru_select_victims, fifo_select_victims,
}
use cache_seek.Service.Eviction.Order.{Ascending, sorted-Ascending, sorted-Perm}
use mathlib.Core.List.{Perm}

abbrev pub total_bytes : List Candidate → ℕ
total_bytes [] = 0
total_bytes (c ∷ cs) = c.size_bytes + total_bytes cs

-- `victims` are the ids of the first `count` items; they free `budget` bytes, or are all items;
-- with one fewer they free less.
pub record Enough (budget : ℕ) (items : List Candidate) (victims : List Text) : Type 0 where
  pub count : ℕ
  pub bounded : count ≤ length items
  pub first : victims ≡ map (λ c. c.cache_id) (take count items)
  pub frees : (budget ≤ total_bytes (take count items)) ⊎ (count ≡ length items)
  pub needed : (k : ℕ) → k < count → total_bytes (take k items) < budget

-- Taking fewer than `count` items frees less than `budget`, on top of `freed`.
abbrev Short : ℕ → ℕ → List Candidate → ℕ → Type 0
Short budget freed items count = (k : ℕ) → k < count → freed + total_bytes (take k items) < budget

Short-cons :
    (budget freed count : ℕ) (c : Candidate) (cs : List Candidate)
    → freed < budget
    → Short budget (freed + c.size_bytes) cs count
    → Short budget freed (c ∷ cs) (suc count)
Short-cons budget freed count c cs h s zero lt = omega arith
Short-cons budget freed count c cs h s (suc k) lt = omega (arith, s k (omega arith))

accumulate_loop_lem :
    (budget freed : ℕ) (items : List Candidate)
    → freed < budget
    → (count : ℕ) × (count ≤ length items)
      × (accumulate_loop budget freed items ≡ map (λ c. c.cache_id) (take count items))
      × ((budget ≤ freed + total_bytes (take count items)) ⊎ (count ≡ length items))
      × Short budget freed items count
unfolding accumulate_loop
accumulate_loop_lem budget freed [] h =
    (0, omega arith, refl, inr refl, λ k lt. absurd (omega arith))
accumulate_loop_lem budget freed (c ∷ cs) h =
    elim (Bool-cases (leb budget (freed + c.size_bytes))) [
      | inl e ↦ (
        1,
        omega arith,
        ground (arith, e),
        inl (ground (arith, e)),
        Short-cons budget freed 0 c cs h (λ k lt. absurd (omega arith)),
      )
      | inr e ↦
          let (count, b, f, fr, nd) =
            accumulate_loop_lem budget (freed + c.size_bytes) cs (ground (arith, e)) in
          (
            suc count,
            omega arith,
            ground (arith, e, f),
            ground (arith, fr),
            Short-cons budget freed count c cs h nd,
          )
    ]

accumulate-Enough :
    (items : List Candidate) (budget : ℕ) → Enough budget items (accumulate items (pos budget))
unfolding accumulate
accumulate-Enough items zero = record {
  count = 0;
  bounded = omega arith;
  first = refl;
  frees = inl (omega arith);
  needed = λ k lt. absurd (omega arith);
}
accumulate-Enough items (suc n) =
    let (count, b, f, fr, nd) = accumulate_loop_lem (suc n) 0 items (omega arith) in
    record {
      count = count;
      bounded = b;
      first = f;
      frees = ground (arith, fr);
      needed = λ k lt. omega (arith, nd k lt);
    }

-- The candidates are parted into victims and survivors: the victims are named in ascending order of
-- the key, no survivor has a smaller key than a victim, the victims free `budget` bytes or nobody
-- survives, and every shorter beginning of the victims frees less.
pub record Parted (key : Candidate → ℕ) (budget : ℕ) (candidates : List Candidate) (ids : List Text)
    : Type 0 where
  pub victims : List Candidate
  pub survivors : List Candidate
  pub all_parted : Perm (victims ++ survivors) candidates
  pub named : ids ≡ map (λ c. c.cache_id) victims
  pub ordered : Ascending key victims
  pub oldest : All (λ v. All (λ s. key v ≤ key s) survivors) victims
  pub frees : (budget ≤ total_bytes victims) ⊎ (survivors ≡ [])
  pub needed : (k : ℕ) → k < length victims → total_bytes (take k victims) < budget

take-drop : (k : ℕ) (xs : List Candidate) → take k xs ++ drop k xs ≡ xs
take-drop zero xs = refl
take-drop (suc k) [] = refl
take-drop (suc k) (x ∷ xs) = ap (λ ys. x ∷ ys) (take-drop k xs)

length-take : (k : ℕ) (xs : List Candidate) → k ≤ length xs → length (take k xs) ≡ k
length-take zero xs h = refl
length-take (suc k) [] h = absurd (omega arith)
length-take (suc k) (x ∷ xs) h = omega (arith, length-take k xs)

take-take : (j k : ℕ) (xs : List Candidate) → j ≤ k → take j (take k xs) ≡ take j xs
take-take zero k xs h = refl
take-take (suc j) zero xs h = absurd (omega arith)
take-take (suc j) (suc k) [] h = refl
take-take (suc j) (suc k) (x ∷ xs) h = ap (λ ys. x ∷ ys) (take-take j k xs (omega arith))

drop-length : (k : ℕ) (xs : List Candidate) → k ≡ length xs → drop k xs ≡ []
drop-length zero [] h = refl
drop-length zero (x ∷ xs) h = absurd (omega arith)
drop-length (suc k) [] h = refl
drop-length (suc k) (x ∷ xs) h = drop-length k xs (omega arith)

All-drop : (P : Candidate → Type 0) (k : ℕ) (xs : List Candidate) → All P xs → All P (drop k xs)
All-drop P zero xs a = a
All-drop P (suc k) [] a = tt
All-drop P (suc k) (x ∷ xs) a = All-drop P k xs a.1

All-take : (P : Candidate → Type 0) (k : ℕ) (xs : List Candidate) → All P xs → All P (take k xs)
All-take P zero xs a = tt
All-take P (suc k) [] a = tt
All-take P (suc k) (x ∷ xs) a = (a.0, All-take P k xs a.1)

module _ (key : Candidate → ℕ) where
  take-Ascending : (k : ℕ) (xs : List Candidate) → Ascending key xs → Ascending key (take k xs)
  take-Ascending zero xs a = tt
  take-Ascending (suc k) [] a = tt
  take-Ascending (suc k) (x ∷ xs) a =
      (All-take (λ y. key x ≤ key y) k xs a.0, take-Ascending k xs a.1)

  take-oldest :
      (k : ℕ) (xs : List Candidate)
      → Ascending key xs
      → All (λ v. All (λ s. key v ≤ key s) (drop k xs)) (take k xs)
  take-oldest zero xs a = tt
  take-oldest (suc k) [] a = tt
  take-oldest (suc k) (x ∷ xs) a = (All-drop (λ y. key x ≤ key y) k xs a.0, take-oldest k xs a.1)

  accumulate-Parted :
      (candidates : List Candidate) (budget : ℕ)
      → Parted key budget candidates (accumulate (sorted key candidates) (pos budget))
  accumulate-Parted candidates budget =
      let items = sorted key candidates in
      let e = accumulate-Enough items budget in
      record {
        victims = take e.count items;
        survivors = drop e.count items;
        all_parted = rw (take-drop e.count items) (sorted-Perm key candidates);
        named = e.first;
        ordered = take-Ascending e.count items (sorted-Ascending key candidates);
        oldest = take-oldest e.count items (sorted-Ascending key candidates);
        frees = elim e.frees [
          | inl enough ↦ inl enough
          | inr everything ↦ inr (drop-length e.count items everything)
        ];
        needed = λ k lt.
            let inside : k < e.count = omega (arith, length-take e.count items e.bounded, lt) in
            rw (take-take k e.count items (omega (arith, inside))) (e.needed k inside);
      }

-- `LRUEviction.select_victims` and `FIFOEviction.select_victims`, each by its own time, part the
-- candidates: victims in ascending order of the time, no survivor older than a victim, the budget
-- freed or nobody left, and every shorter beginning of the victims freeing too little.
pub select_victims-Parted :
    (candidates : List Candidate) (budget : ℕ)
    → Parted
        (λ c. c.last_access_time)
        budget
        candidates
        (lru_select_victims candidates (pos budget))
      × Parted (λ c. c.created_at) budget candidates (fifo_select_victims candidates (pos budget))
unfolding lru_select_victims fifo_select_victims
select_victims-Parted candidates budget = (
  accumulate-Parted (λ c. c.last_access_time) candidates budget,
  accumulate-Parted (λ c. c.created_at) candidates budget,
)
