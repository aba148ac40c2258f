-- ===== src/Stores/TensorTier/LayerKey.antt =====
-- The keys that stores/tier.py gives to the layers of a blob.
use cache_seek.Prelude.{
  ◌≡◌, refl, sym, ap, ◌∙◌, ℕ, ◌+◌, ◌-◌, ◌*◌, ◌&&◌, some, [], ◌∷◌, ◌++◌, Text, codes, arith, leb,
  if◌then◌else◌,
}
use cache_seek.Approx.Payload.{decimal_on}
use cache_seek.Approx.Payload.StepKey.{prefix_cancel}
use cache_seek.Approx.Save.{read_digits}
use cache_seek.Approx.Save.Step.{read_digits-decimal_on}
use cache_seek.Stores.TensorTier.{layer_key}

-- The number that a text starts with, behind `acc`, and the rest.
abbrev split : Text → ℕ → ℕ × Text
split [] acc = (acc, [])
split (c ∷ cs) acc =
    let rest = split cs (acc * 10 + (c - 48)) in
    if leb 48 c && leb c 57 then rest else (acc, c ∷ cs)

split-append :
    (us vs : Text) (acc n : ℕ) → read_digits acc us ≡ some n → split (us ++ vs) acc ≡ split vs n
unfolding read_digits
split-append [] vs acc n h = ground (arith, h)
split-append (u ∷ us) vs acc n h = ground (arith, h, split-append us vs (acc * 10 + (u - 48)) n)

-- A text that does not start with a digit.
abbrev pub Stops : Text → Type 0
Stops s = (n : ℕ) → split s n ≡ (n, s)

append_assoc : (xs ys zs : Text) → (xs ++ ys) ++ zs ≡ xs ++ (ys ++ zs)
append_assoc [] ys zs = refl
append_assoc (x ∷ xs) ys zs = ap (λ l. x ∷ l) (append_assoc xs ys zs)

key_parts :
    (locator : Text) (i : ℕ) (s : Text)
    → layer_key locator i ++ s ≡ locator ++ (codes ":L" ++ (decimal_on i i ++ s))
unfolding layer_key
key_parts locator i s = append_assoc locator (codes ":L" ++ decimal_on i i) s

-- A key names its layer and its suffix.
pub layer_key-injective :
    (locator : Text) (i j : ℕ) (s t : Text)
    → Stops s
    → Stops t
    → layer_key locator i ++ s ≡ layer_key locator j ++ t
    → (i ≡ j) × (s ≡ t)
layer_key-injective locator i j s t stop_s stop_t h =
    let front = sym (key_parts locator i s) ∙ h ∙ key_parts locator j t in
    let digits : decimal_on i i ++ s ≡ decimal_on j j ++ t =
      prefix_cancel (codes ":L") _ _ (prefix_cancel locator _ _ front) in
    let left = split-append (decimal_on i i) s 0 i (read_digits-decimal_on i i (omega arith)) in
    let right = split-append (decimal_on j j) t 0 j (read_digits-decimal_on j j (omega arith)) in
    let both : (i, s) ≡ (j, t) =
      sym (stop_s i) ∙ sym left ∙ ap (λ u. split u 0) digits ∙ right ∙ stop_t j in
    (ap (λ p. p.0) both, ap (λ p. p.1) both)
