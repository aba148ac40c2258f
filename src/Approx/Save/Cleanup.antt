-- ===== src/Approx/Save/Cleanup.antt =====
-- The latents that `save` of reuse/approximate/strategy.py writes and those that its clean-up removes.
use cache_seek.Prelude.{
  ◌≡◌, refl, Bool, true, false, ◌||◌, Option, none, some, List, [], ◌∷◌, Text, Bytes, bytes_eq,
  ◌==◌, beq_refl, arith, inl, inr, Bool-cases,
}
use cache_seek.Prelude.Int.{ℤ, int_eq}
use cache_seek.Dict
use cache_seek.Dict.{Dict}
use cache_seek.Approx.Payload.{Latent, step_key, entries, blob_of}
use cache_seek.Approx.Payload.StepKey.{step_key-injective}
use cache_seek.Approx.Payload.RoundTrip.{Once}
use cache_seek.Approx.Backends.{KvStore}
use cache_seek.Approx.Backends.Laws.{KvLaws}
use cache_seek.Approx.Save.{put_entries, remove_saved_latents}
use cache_seek.Approx.Save.Step.{step_of_key-step_key}

-- The key is that of one of the steps.
abbrev pub is_key : Text → List ℤ → Text → Bool
is_key id [] k = false
is_key id (s ∷ ss) k = (step_key id s == k) || is_key id ss k

pub is_key-false :
    (id : Text) (ss : List ℤ) (k : Text) → is_key id ss k ≡ true → (s : ℤ) × (step_key id s ≡ k)
is_key-false id [] k h = ground (arith, h)
is_key-false id (s ∷ ss) k h = elim (Bool-cases (step_key id s == k)) [
  | inl e ↦ (s, ground (arith, e, bytes_eq.same_iff (step_key id s) k))
  | inr e ↦ is_key-false id ss k (ground (arith, h, e))
]

module _ {K : Type 0} (store : KvStore K) (laws : KvLaws store) where
  -- Whether or not a call raised, no other key is touched.
  pub at-remove_saved_latents_other :
      (kv : K) (id : Text) (ss : List ℤ) (k : Text)
      → is_key id ss k ≡ false
      → laws.kv_at (remove_saved_latents store kv id ss).0 k ≡ laws.kv_at kv k
  unfolding remove_saved_latents
  at-remove_saved_latents_other kv id [] k h = refl
  at-remove_saved_latents_other kv id (s ∷ ss) k h =
      let kv' = (store.kv_remove kv (step_key id s)).0 in
      ground
        (arith, h, at-remove_saved_latents_other kv' id ss k, laws.at_remove kv (step_key id s) k)

  -- What is absent stays absent.
  at-remove_saved_latents_none :
      (kv : K) (id : Text) (ss : List ℤ) (k : Text)
      → laws.kv_at kv k ≡ none
      → laws.kv_at (remove_saved_latents store kv id ss).0 k ≡ none
  unfolding remove_saved_latents
  at-remove_saved_latents_none kv id [] k h = h
  at-remove_saved_latents_none kv id (s ∷ ss) k h =
      let kv' = (store.kv_remove kv (step_key id s)).0 in
      ground
        (arith, h, at-remove_saved_latents_none kv' id ss k, laws.at_remove kv (step_key id s) k)

  -- If no call raised, the keys of the steps are gone.
  pub at-remove_saved_latents :
      (kv : K) (id : Text) (ss : List ℤ) (k : Text)
      → (remove_saved_latents store kv id ss).1 ≡ true
      → is_key id ss k ≡ true
      → laws.kv_at (remove_saved_latents store kv id ss).0 k ≡ none
  unfolding remove_saved_latents
  at-remove_saved_latents kv id [] k ok h = ground (arith, h)
  at-remove_saved_latents kv id (s ∷ ss) k ok h =
      let kv' = (store.kv_remove kv (step_key id s)).0 in
      ground (
        arith,
        h,
        ok,
        at-remove_saved_latents kv' id ss k,
        at-remove_saved_latents_none kv' id ss k,
        laws.at_remove kv (step_key id s) k,
      )

  module _ {T : Type 0} (serialize : T → Bytes) (deserialize : Bytes → T) where
    abbrev puts : K → Text → Dict ℤ (Latent T) → K × (List ℤ × Bool)
    puts kv id latents = put_entries store kv (entries serialize deserialize id latents)

    -- No key but those of the steps that were put is touched.
    pub at-put_entries_other :
        (kv : K) (id : Text) (latents : Dict ℤ (Latent T)) (k : Text)
        → is_key id (puts kv id latents).1.0 k ≡ false
        → laws.kv_at (puts kv id latents).0 k ≡ laws.kv_at kv k
    unfolding put_entries entries
    at-put_entries_other kv id [] k = λ _. refl
    at-put_entries_other kv id ((s, v) ∷ rest) k =
        let b = blob_of serialize deserialize v in
        let law = laws.at_put kv (step_key id s) b k in
        elim (Bool-cases (store.kv_put kv (step_key id s) b).1) [
          | inl e ↦
              rw (e, step_of_key-step_key id s)
                λ h. ground (
                  arith,
                  e,
                  law,
                  h,
                  at-put_entries_other (store.kv_put kv (step_key id s) b).0 id rest k,
                )
          | inr e ↦ rw e λ h. ground (arith, e, law)
        ]

    abbrev stored : Option (Latent T) → Option Bytes → Option Bytes
    stored none old = old
    stored (some v) old = some (blob_of serialize deserialize v)

    -- If no call raised, every latent is under its key.
    pub at-put_entries :
        (kv : K) (id : Text) (latents : Dict ℤ (Latent T)) (s : ℤ)
        → Once serialize deserialize latents
        → (puts kv id latents).1.1 ≡ true
        → laws.kv_at (puts kv id latents).0 (step_key id s)
          ≡ stored (Dict.get latents s) (laws.kv_at kv (step_key id s))
    unfolding put_entries entries Dict.get
    at-put_entries kv id [] s once = λ h. refl
    at-put_entries kv id ((s0, v0) ∷ rest) s once =
        let b = blob_of serialize deserialize v0 in
        let law = laws.at_put kv (step_key id s0) b (step_key id s) in
        let ih = at-put_entries (store.kv_put kv (step_key id s0) b).0 id rest s once.1 in
        elim (Bool-cases (store.kv_put kv (step_key id s0) b).1) [
          | inr e ↦ rw e λ h. ground (arith, h)
          | inl e ↦
              rw (e, step_of_key-step_key id s0)
                λ h. elim (Bool-cases (s0 == s)) [
                  | inl q ↦ ground (
                    arith,
                    e,
                    h,
                    q,
                    ih,
                    law,
                    once.0,
                    int_eq.same_iff s0 s,
                    beq_refl (step_key id s),
                  )
                  | inr q ↦ ground (
                    arith,
                    e,
                    h,
                    q,
                    ih,
                    law,
                    int_eq.same_iff s0 s,
                    bytes_eq.same_iff (step_key id s0) (step_key id s),
                    step_key-injective id s0 s,
                  )
                ]
        ]
