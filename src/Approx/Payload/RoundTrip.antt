-- ===== src/Approx/Payload/RoundTrip.antt =====
-- The entries of reuse/approximate/payload.py, put into a store and loaded from it.
use cache_seek.Prelude.{
  ◌≡◌, refl, Option, none, some, List, [], ◌∷◌, Bytes, Text, bytes_eq, ◌==◌, beq_refl, arith, inl,
  inr, Bool-cases,
}
use cache_seek.Prelude.Int.{ℤ, int_eq}
use cache_seek.Dict
use cache_seek.Dict.{Dict, get-put, get-put_self}
use cache_seek.Approx.Payload.{
  Latent, tensor, raw, VideoApproxPayload, step_key, single, blob_of, entries, to_kv_entries,
  load_steps, from_kv_loader, get_latent_at_step,
}
use cache_seek.Approx.Payload.StepKey.{step_key-injective}

-- The loop that puts every entry into the store.
abbrev pub put_all : List (Text × Bytes) → Dict Text Bytes → Dict Text Bytes
put_all [] d = d
put_all ((k, b) ∷ es) d = put_all es (Dict.put d k b)

module _ {T : Type 0} (serialize : T → Bytes) (deserialize : Bytes → T) where
  -- A dict has each key once.
  abbrev pub Once : Dict ℤ (Latent T) → Type 0
  Once [] = Unit
  Once ((s, v) ∷ rest) = (Dict.get rest s ≡ none) × Once rest

  -- What the store holds under a step's key, by what the payload has for it.
  abbrev stored : Option (Latent T) → Option Bytes → Option Bytes
  stored none old = old
  stored (some v) old = some (blob_of serialize deserialize v)

  get-put_all :
      (id : Text) (steps : Dict ℤ (Latent T)) (d : Dict Text Bytes) (s : ℤ)
      → Once steps
      → Dict.get (put_all (entries serialize deserialize id steps) d) (step_key id s)
        ≡ stored (Dict.get steps s) (Dict.get d (step_key id s))
  unfolding Dict.get entries
  get-put_all id [] d s once = refl
  get-put_all id ((s0, v0) ∷ rest) d s once =
      let b0 = blob_of serialize deserialize v0 in
      let ih = get-put_all id rest (Dict.put d (step_key id s0) b0) s once.1 in
      let g = get-put d (step_key id s0) (step_key id s) b0 in
      elim (Bool-cases (s0 == s)) [
        | inl e ↦ ground (arith, e, ih, g, once.0, int_eq.same_iff s0 s, beq_refl (step_key id s))
        | inr e ↦ ground (
          arith,
          e,
          ih,
          g,
          int_eq.same_iff s0 s,
          bytes_eq.same_iff (step_key id s0) (step_key id s),
          step_key-injective id s0 s,
        )
      ]

  -- If deserialization undoes serialization, a step of a payload whose entries were put into a store,
  -- loaded from it by a spec of that step, gives the latent that the payload has.
  pub get_latent-from_kv_loader :
      (p : VideoApproxPayload T) (d : Dict Text Bytes) (step : ℤ) (v : Latent T)
      → ((t : T) → deserialize (serialize t) ≡ t)
      → Once p.step_to_latents
      → Dict.get p.step_to_latents step ≡ some v
      → get_latent_at_step serialize deserialize
          (from_kv_loader serialize deserialize p.cache_id
            (Dict.get (put_all (to_kv_entries serialize deserialize p) d))
            (single step))
          step
        ≡ get_latent_at_step serialize deserialize p step
  unfolding get_latent_at_step from_kv_loader load_steps to_kv_entries blob_of
  get_latent-from_kv_loader p d step (tensor t) undo once known = ground (
    arith,
    known,
    get-put_all p.cache_id p.step_to_latents d step once,
    get-put_self {V = Latent T} [] step (raw (serialize t)),
    undo t,
  )
  get_latent-from_kv_loader p d step (raw b) undo once known = ground (
    arith,
    known,
    get-put_all p.cache_id p.step_to_latents d step once,
    get-put_self {V = Latent T} [] step (raw b),
  )
