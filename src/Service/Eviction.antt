-- ===== src/Service/Eviction.antt =====
-- service/eviction.py: the victim selection. A size in MB is held as its number of bytes,
-- `size_mb * 1024 * 1024`; times are whole numbers of one unit.
pub mod Order
pub mod Victims
use cache_seek.Prelude.{ℕ, zero, suc, ◌+◌, List, [], ◌∷◌, Text, leb, if◌then◌else◌}
use cache_seek.Prelude.Int.{ℤ, pos, negsuc}

-- The entries of a candidate's metadata that a policy reads; a missing one is 0.
pub record Candidate : Type 0 where
  pub cache_id : Text
  pub size_bytes : ℕ
  pub last_access_time : ℕ
  pub created_at : ℕ

-- `sorted(items, key=key)`, which keeps the order of equal keys.
unfoldable pub insert_by : {A : Type 0} → (A → ℕ) → A → List A → List A
insert_by key x [] = x ∷ []
insert_by key x (y ∷ ys) =
    let rest = insert_by key x ys in if leb (key x) (key y) then x ∷ y ∷ ys else y ∷ rest

unfoldable pub sorted : {A : Type 0} → (A → ℕ) → List A → List A
sorted key [] = []
sorted key (x ∷ xs) = insert_by key x (sorted key xs)

-- The loop of `_accumulate`, from `freed` bytes on.
unfoldable pub accumulate_loop : ℕ → ℕ → List Candidate → List Text
accumulate_loop budget freed [] = []
accumulate_loop budget freed (c ∷ cs) =
    let rest = accumulate_loop budget (freed + c.size_bytes) cs in
    if leb budget (freed + c.size_bytes) then c.cache_id ∷ [] else c.cache_id ∷ rest

unfoldable pub accumulate : List Candidate → ℤ → List Text
accumulate items (negsuc n) = []
accumulate items (pos zero) = []
accumulate items (pos (suc n)) = accumulate_loop (suc n) 0 items

-- `LRUEviction` and `FIFOEviction`
unfoldable pub lru_select_victims : List Candidate → ℤ → List Text
lru_select_victims candidates size_to_free_bytes =
    accumulate (sorted (λ c. c.last_access_time) candidates) size_to_free_bytes

unfoldable pub fifo_select_victims : List Candidate → ℤ → List Text
fifo_select_victims candidates size_to_free_bytes =
    accumulate (sorted (λ c. c.created_at) candidates) size_to_free_bytes
