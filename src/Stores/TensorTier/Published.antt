-- ===== src/Stores/TensorTier/Published.antt =====
-- A blob that the worker of `TensorStoreTierStore` of stores/tier.py has published, read layer by
-- layer.
use mathlib.Core.Path.{subst}
use cache_seek.Prelude.{
  ◌≡◌, refl, sym, ap, ◌∙◌, ℕ, zero, suc, ◌+◌, Bool, true, false, none, some, List, [], ◌∷◌, ◌++◌,
  Text, bytes_eq, codes, arith, All, All-append_parts, get_elem?, if◌then◌else◌,
}
use cache_seek.Dict
use cache_seek.Exact.Types.{BlobHandle, BlobRef}
use cache_seek.Stores.TensorTier.{
  TensorStore, Item, single, pair, Layer, layer, layer_pair, Job, TensorTier, layer_key,
  item_entries, payload_entries, put_entries, do_put_payload, read_sidecar, parse_sidecar, get_with,
  get_known, get_one, get_rest, get_layer, run_job,
}
use cache_seek.Stores.TensorTier.Entries.{
  Suffix, plain, key, key_spec, Differ, suffix_text, append_assoc, plain_key, plain_key_spec,
  payload-Apart, unpaired,
}
use cache_seek.Stores.TensorTier.Layers.{
  TensorLaws, Placed, IsClear, specs-put_entries, bytes-put_entries, AllPlaced,
  put_entries-AllPlaced,
}

ran :
    (ok : Bool) (on_ready : BlobRef)
    → (if ok then on_ready ∷ [] else []) ≡ on_ready ∷ []
    → ok ≡ true
ran true on_ready e = refl
ran false on_ready e = ground (arith, e)

module _ {B T Spec : Type 0} (store : TensorStore B T Spec) (laws : TensorLaws store)
    (locator : Text) where
  abbrev S : Type 0
  S = TensorTier B T Spec

  item-AllPlaced :
      (s : S) (l i : ℕ) (item : Item T) (items : List (Item T))
      → get_elem? items i ≡ some item
      → AllPlaced store laws s (payload_entries locator l items)
      → AllPlaced store laws s (item_entries locator (l + i) item)
  unfolding payload_entries
  item-AllPlaced s l i item [] e placed = ground (arith, e)
  item-AllPlaced s l zero item (x ∷ items) e placed =
      subst (λ j. AllPlaced store laws s (item_entries locator j item)) (omega arith)
        (subst (λ y. AllPlaced store laws s (item_entries locator l y)) (ground (arith, e))
          (All-append_parts (λ entry. Placed store laws s entry.0 entry.1)
            (item_entries locator l x) _ placed).0)
  item-AllPlaced s l (suc i) item (x ∷ items) e placed =
      subst (λ j. AllPlaced store laws s (item_entries locator j item)) (omega arith)
        (item-AllPlaced s (suc l) i item items e
          (All-append_parts (λ entry. Placed store laws s entry.0 entry.1)
            (item_entries locator l x) _ placed).1)

  get_one-Placed :
      (s : S) (name : Text) (t : T)
      → Placed store laws s name t
      → get_one store s name ≡ (s, some (some t))
  unfolding get_one get_known
  get_one-Placed s name t (spec, there) =
      rw spec (ap (λ r. (s, r)) (laws.reads s.tensors name t there))

  side_none :
      (has : Bool) (s : S) (name : Text)
      → laws.bytes_at s.tensors (name ++ codes ":spec") ≡ none
      → get_with store (read_sidecar store has s.tensors name) s name ≡ (s, some none)
  unfolding read_sidecar get_with parse_sidecar
  side_none false s name e = refl
  side_none true s name e = rw (laws.gets, e) refl

  get_one_none :
      (s : S) (name : Text)
      → Dict.get s.specs name ≡ none
      → laws.bytes_at s.tensors (name ++ codes ":spec") ≡ none
      → get_one store s name ≡ (s, some none)
  unfolding get_one get_known
  get_one_none s name e side = rw e (side_none store.has_bytes s name side)

  -- What a reader of the layer gets.
  abbrev pub layer_of : Item T → Layer T
  layer_of (single t) = layer (some t)
  layer_of (pair k v) = layer_pair k (some v)

  -- Nothing was written under the key `:k` of the layer.
  abbrev pub IsFresh : S → ℕ → Type 0
  IsFresh s i =
      let name = layer_key locator i ++ codes ":k" in
      (Dict.get s.specs name ≡ none) × (laws.bytes_at s.tensors (name ++ codes ":spec") ≡ none)

  get_layer_item :
      (s : S) (handle : BlobHandle) (i : ℕ) (item : Item T)
      → handle.locator ≡ locator
      → ((t : T) → item ≡ single t → IsFresh s i)
      → AllPlaced store laws s (item_entries locator i item)
      → get_layer store s handle i ≡ (s, some (layer_of item))
  unfolding get_layer get_rest item_entries
  get_layer_item s handle i (single t) at fresh (placed, rest) =
      let (spec, side) = fresh t refl in
      rw at (
        rw (get_one_none s (layer_key locator i ++ codes ":k") spec side)
          (rw (get_one-Placed s (layer_key locator i) t placed) refl))
  get_layer_item s handle i (pair k v) at fresh (placed_k, (placed_v, rest)) = rw at (
      rw (get_one-Placed s (layer_key locator i ++ codes ":k") k placed_k)
        (rw (get_one-Placed s (layer_key locator i ++ codes ":v") v placed_v) refl))

  never_written :
      (i : ℕ) (u : Suffix) (t : T) (items : List (Item T))
      → Differ plain u
      → get_elem? items i ≡ some (single t)
      → All
          (IsClear store laws (layer_key locator i ++ suffix_text u))
          (payload_entries locator 0 items)
  never_written i u t items differ e =
      subst
        (λ j.
          All (IsClear store laws (layer_key locator j ++ suffix_text u))
            (payload_entries locator 0 items))
        (omega arith) (unpaired store laws locator 0 i u t items differ e)

  -- The writes of the payload leave a layer with one tensor without a key `:k`.
  put_entries-IsFresh :
      (s : S) (i : ℕ) (t : T) (items : List (Item T))
      → get_elem? items i ≡ some (single t)
      → IsFresh s i
      → IsFresh (do_put_payload store s locator items).0 i
  unfolding do_put_payload
  put_entries-IsFresh s i t items e (spec, side) =
      let entries = payload_entries locator 0 items in
      let name = layer_key locator i ++ codes ":k" in
      (
        specs-put_entries store laws s entries name (never_written i key t items plain_key e)
            ∙ spec,
        subst
              (λ x.
                laws.bytes_at (put_entries store s entries).0.tensors x ≡ laws.bytes_at s.tensors x)
              (sym (append_assoc (layer_key locator i) (codes ":k") (codes ":spec")))
              (bytes-put_entries store laws s entries (layer_key locator i ++ codes ":k:spec")
                (never_written i key_spec t items plain_key_spec e))
            ∙ side,
      )

  put_payload-AllPlaced :
      (s : S) (i : ℕ) (item : Item T) (items : List (Item T))
      → get_elem? items i ≡ some item
      → (do_put_payload store s locator items).1 ≡ true
      → AllPlaced store laws (do_put_payload store s locator items).0 (item_entries locator i item)
  unfolding do_put_payload
  put_payload-AllPlaced s i item items e ok =
      let entries = payload_entries locator 0 items in
      let s' = (put_entries store s entries).0 in
      subst (λ j. AllPlaced store laws s' (item_entries locator j item)) (omega arith)
        (item-AllPlaced s' 0 i item items e (
          put_entries-AllPlaced store laws s entries (payload-Apart store laws locator 0 items) ok))

  -- Once the worker has published a payload under its locator, every layer of it is read back as it
  -- was given, a pair as a pair; for a layer with a single tensor, nothing may have been written
  -- under its key `:k` before.
  pub get_layer-run_job :
      (s : S) (items : List (Item T)) (on_ready : BlobRef) (handle : BlobHandle) (i : ℕ)
      (item : Item T)
      → handle.locator ≡ locator
      → get_elem? items i ≡ some item
      → ((t : T) → item ≡ single t → IsFresh s i)
      → let job : Job T = record { locator = locator; payload = items; on_ready = on_ready } in
        let (s', refs) = run_job store s job in
        refs ≡ on_ready ∷ [] → get_layer store s' handle i ≡ (s', some (layer_of item))
  unfolding run_job
  get_layer-run_job s items on_ready handle i item at e fresh published =
      get_layer_item (do_put_payload store s locator items).0 handle i item at
        (λ t q. put_entries-IsFresh s i t items (e ∙ ap (λ x. some x) q) (fresh t q))
        (put_payload-AllPlaced s i item items e
          (ran (do_put_payload store s locator items).1 on_ready published))
