-- ===== src/Stores/TensorTier/Entries.antt =====
-- The keys that one payload is written under, of `TensorStoreTierStore` of stores/tier.py.
use mathlib.Core.Path.{subst}
use cache_seek.Prelude.{
  ◌≡◌, ◌≢◌, refl, sym, ap, ℕ, zero, suc, ◌+◌, ◌<◌, false, some, List, [], ◌∷◌, ◌++◌, Text, bytes_eq,
  ◌==◌, codes, arith, inl, inr, All, All-append, get_elem?, Bool-cases,
}
use cache_seek.Stores.TensorTier.{
  TensorStore, Item, single, pair, TensorTier, layer_key, item_entries, payload_entries,
}
use cache_seek.Stores.TensorTier.LayerKey.{Stops, layer_key-injective}
use cache_seek.Stores.TensorTier.Layers.{TensorLaws, IsClear, Apart}

-- The suffixes of a layer's keys.
pub data Suffix : Type 0 where
  plain key value key_spec : Suffix

abbrev pub suffix_text : Suffix → Text
suffix_text plain = []
suffix_text key = codes ":k"
suffix_text value = codes ":v"
suffix_text key_spec = codes ":k:spec"

suffix-Stops : (u : Suffix) → Stops (suffix_text u)
suffix-Stops plain n = refl
suffix-Stops key n = refl
suffix-Stops value n = refl
suffix-Stops key_spec n = refl

sidecar-Stops : (u : Suffix) → Stops (suffix_text u ++ codes ":spec")
sidecar-Stops plain n = refl
sidecar-Stops key n = refl
sidecar-Stops value n = refl
sidecar-Stops key_spec n = refl

pub append_nil : (xs : Text) → xs ++ [] ≡ xs
append_nil [] = refl
append_nil (x ∷ xs) = ap (λ l. x ∷ l) (append_nil xs)

pub append_assoc : (xs ys zs : Text) → (xs ++ ys) ++ zs ≡ xs ++ (ys ++ zs)
append_assoc [] ys zs = refl
append_assoc (x ∷ xs) ys zs = ap (λ l. x ∷ l) (append_assoc xs ys zs)

-- Two suffixes of one layer that stand for different keys, the second not the first's sidecar.
abbrev pub Differ : Suffix → Suffix → Type 0
Differ u v = (suffix_text u ≢ suffix_text v) × (suffix_text u ++ codes ":spec" ≢ suffix_text v)

distinct :
    (locator : Text) (i j : ℕ) (u v : Text)
    → Stops u
    → Stops v
    → (i ≡ j → u ≢ v)
    → (layer_key locator i ++ u == layer_key locator j ++ v) ≡ false
distinct locator i j u v stop_u stop_v differ =
    elim (Bool-cases (layer_key locator i ++ u == layer_key locator j ++ v)) [
      | inr e ↦ e
      | inl e ↦
          let (p, q) =
            layer_key-injective locator i j u v stop_u stop_v
              ((bytes_eq.same_iff (layer_key locator i ++ u) (layer_key locator j ++ v)).0 e) in
          absurd (differ p q)
    ]

no_sidecar : (u : Suffix) → suffix_text u ++ codes ":spec" ≢ suffix_text u
no_sidecar plain e = ground (arith, e)
no_sidecar key e = ground (arith, e)
no_sidecar value e = ground (arith, e)
no_sidecar key_spec e = ground (arith, e)

value_key : Differ value key
value_key = ((λ e. ground (arith, e)), (λ e. ground (arith, e)))

pub plain_key : Differ plain key
plain_key = ((λ e. ground (arith, e)), (λ e. ground (arith, e)))

pub plain_key_spec : Differ plain key_spec
plain_key_spec = ((λ e. ground (arith, e)), (λ e. ground (arith, e)))

module _ {B T Spec : Type 0} (store : TensorStore B T Spec) (laws : TensorLaws store)
    (locator : Text) where
  abbrev S : Type 0
  S = TensorTier B T Spec

  abbrev Clear : Text → Text × T → Type 0
  Clear = IsClear store laws

  -- Keys of different layers, or with different suffixes.
  apart :
      (i j : ℕ) (u v : Suffix) (t : T)
      → (i ≡ j → Differ u v)
      → Clear (layer_key locator j ++ suffix_text v) (layer_key locator i ++ suffix_text u, t)
  apart i j u v t differ = (
    distinct locator i j (suffix_text u) (suffix_text v) (suffix-Stops u) (suffix-Stops v)
        (λ e. (differ e).0),
    rw (append_assoc (layer_key locator i) (suffix_text u) (codes ":spec")) (
        distinct locator i j (suffix_text u ++ codes ":spec") (suffix_text v) (sidecar-Stops u)
          (suffix-Stops v) (λ e. (differ e).1)),
  )

  -- The key of a layer with a suffix is clear of another item.
  item-Clear :
      (i j : ℕ) (v : Suffix) (item : Item T)
      → (i ≡ j → ⊥)
      → All (Clear (layer_key locator j ++ suffix_text v)) (item_entries locator i item)
  unfolding item_entries
  item-Clear i j v (single t) ne = (
    subst (λ x. Clear (layer_key locator j ++ suffix_text v) (x, t))
        (append_nil (layer_key locator i)) (apart i j plain v t (λ e. absurd (ne e))),
    tt,
  )
  item-Clear i j v (pair k w) ne =
      (apart i j key v k (λ e. absurd (ne e)), (apart i j value v w (λ e. absurd (ne e)), tt))

  payload-Clear :
      (i j : ℕ) (v : Suffix) (items : List (Item T))
      → j < i
      → All (Clear (layer_key locator j ++ suffix_text v)) (payload_entries locator i items)
  unfolding payload_entries
  payload-Clear i j v [] lt = tt
  payload-Clear i j v (item ∷ items) lt =
      All-append (Clear (layer_key locator j ++ suffix_text v)) (item_entries locator i item) _
        (item-Clear i j v item (λ e. omega (arith, e, lt)))
        (payload-Clear (suc i) j v items (omega (arith, lt)))

  own_sidecar :
      (j : ℕ) (v : Suffix)
      → ((layer_key locator j ++ suffix_text v) ++ codes ":spec"
          == layer_key locator j ++ suffix_text v)
        ≡ false
  own_sidecar j v = rw (append_assoc (layer_key locator j) (suffix_text v) (codes ":spec")) (
      distinct locator j j (suffix_text v ++ codes ":spec") (suffix_text v) (sidecar-Stops v)
        (suffix-Stops v) (λ e. no_sidecar v))

  -- The entries of a payload do not overwrite each other.
  pub payload-Apart :
      (l : ℕ) (items : List (Item T)) → Apart store laws (payload_entries locator l items)
  unfolding payload_entries item_entries
  payload-Apart l [] = tt
  payload-Apart l (single t ∷ items) =
      subst (λ x. Apart store laws ((x, t) ∷ payload_entries locator (suc l) items))
        (append_nil (layer_key locator l))
        (
          own_sidecar l plain,
          payload-Clear (suc l) l plain items (omega arith),
          payload-Apart (suc l) items,
        )
  payload-Apart l (pair k v ∷ items) =
      let rest = payload-Apart (suc l) items in
      (
        own_sidecar l key,
        (apart l l value key v (λ e. value_key), payload-Clear (suc l) l key items (omega arith)),
        (own_sidecar l value, payload-Clear (suc l) l value items (omega arith), rest),
      )

  first :
      (l : ℕ) (v : Suffix) (t : T) (item : Item T) (items : List (Item T))
      → Differ plain v
      → item ≡ single t
      → All
          (Clear (layer_key locator l ++ suffix_text v))
          (payload_entries locator l (item ∷ items))
  unfolding payload_entries item_entries
  first l v t item items differ e =
      subst
        (λ x.
          All (Clear (layer_key locator l ++ suffix_text v))
            (payload_entries locator l (x ∷ items)))
        (sym e)
        (
          subst (λ x. Clear (layer_key locator l ++ suffix_text v) (x, t))
              (append_nil (layer_key locator l)) (apart l l plain v t (λ q. differ)),
          payload-Clear (suc l) l v items (omega arith),
        )

  -- A key of a layer with one tensor that none of the payload's entries is.
  pub unpaired :
      (l i : ℕ) (v : Suffix) (t : T) (items : List (Item T))
      → Differ plain v
      → get_elem? items i ≡ some (single t)
      → All (Clear (layer_key locator (l + i) ++ suffix_text v)) (payload_entries locator l items)
  unfolding payload_entries
  unpaired l i v t [] differ e = tt
  unpaired l zero v t (item ∷ items) differ e =
      subst
        (λ j.
          All (Clear (layer_key locator j ++ suffix_text v))
            (payload_entries locator l (item ∷ items)))
        (omega arith) (first l v t item items differ (ground (arith, e)))
  unpaired l (suc i) v t (item ∷ items) differ e =
      subst
        (λ j.
          All (Clear (layer_key locator j ++ suffix_text v))
            (payload_entries locator l (item ∷ items)))
        (omega arith)
        (All-append (Clear (layer_key locator (suc l + i) ++ suffix_text v))
          (item_entries locator l item) _ (item-Clear l (suc l + i) v item (λ q. omega (arith, q)))
          (unpaired (suc l) i v t items differ e))
