-- ===== src/Approx/Save/AllOrNothing.antt =====
-- The latents in the KV store after a `save` of reuse/approximate/strategy.py, by how it ended.
use cache_seek.Prelude.{
  ◌≡◌, refl, ◌∙◌, ap, Bool, true, false, Option, none, some, List, [], ◌∷◌, Text, ℕ, bytes_eq,
  arith, inl, inr, Bool-cases, length,
}
use cache_seek.Prelude.Int.{ℤ}
use cache_seek.Dict.{Dict}
use cache_seek.Metadata.{sorted_steps}
use cache_seek.Approx.Payload.{Latent, step_key, entries, estimated_size_bytes}
use cache_seek.Approx.Backends.{VectorStore, World, Strategy, Donor, Registration}
use cache_seek.Approx.Backends.Laws.{KvLaws}
use cache_seek.Approx.Save.{
  ModelOutputs, latents_failed, latents_cleanup_failed, cleanup_failed, save_failed,
  rollback_failed, SaveOutcome, saved, skipped, raised, Attempt, written, abandoned, failed,
  valid_latents, put_entries, cleanup, abandon, index_entry, index_embedding, settle, skip_stored,
  save_stored_latents, rollback_vector, rollback_metadata, rollback_cache_entry, discard_latents,
  finish_latents, save_latents, save_valid, save,
}
use cache_seek.Approx.Save.Cleanup.{
  is_key, is_key-false, at-put_entries_other, at-remove_saved_latents,
  at-remove_saved_latents_other,
}

module _ {K V M A E T Frame : Type 0} (strategy : Strategy K V M A E T Frame)
    (laws : KvLaws strategy.kv_store) (id : Text) where
  abbrev W : Type 0
  W = World K V M A

  -- No step of the cache is in the KV store.
  abbrev pub IsFresh : W → Type 0
  IsFresh w = (s : ℤ) → laws.kv_at w.kv (step_key id s) ≡ none

  -- The KV store has the same contents.
  abbrev pub Same : W → W → Type 0
  Same w w' = (k : Text) → laws.kv_at w'.kv k ≡ laws.kv_at w.kv k

  -- Only the keys of these steps of the cache differ.
  abbrev pub Touched : List ℤ → W → W → Type 0
  Touched steps w w' =
      (k : Text) → is_key id steps k ≡ false → laws.kv_at w'.kv k ≡ laws.kv_at w.kv k

  -- The vector store took a point for the cache with these steps, the metadata store registered the
  -- cache, and the world has what the two made.
  abbrev pub Indexed : List ℤ → W → Type 0
  Indexed steps w' =
      (store : VectorStore V E) × (strategy.vector_store ≡ some store)
      × (v : V) × (vec : List E) × (donor : Donor) × (donor.saved_steps ≡ steps)
      × (store.upsert v strategy.config.video_vector_collection id vec donor ≡ (w'.vectors, true))
      × (m : M) × (registration : Registration) × (strategy.metadata_manager.register_cache m id
            registration
          ≡ (w'.meta, true))

  -- What a save leaves, by how it ended.
  abbrev pub AllOrNothing : List ℤ → W → W × SaveOutcome → Type 0
  AllOrNothing steps w (w', saved) = Touched steps w w' × Indexed steps w'
  AllOrNothing steps w (w', skipped) = Same w w'
  AllOrNothing steps w (w', raised latents_failed) = Same w w'
  AllOrNothing steps w (w', raised save_failed) = Same w w'
  AllOrNothing steps w (w', raised latents_cleanup_failed) = Touched steps w w'
  AllOrNothing steps w (w', raised cleanup_failed) = Touched steps w w'
  AllOrNothing steps w (w', raised rollback_failed) = Touched steps w w'

  -- The same, inside the block that writes the vector and the metadata.
  abbrev Tried : List ℤ → W → W × Attempt → Type 0
  Tried steps w (w1, written) = Touched steps w w1 × Indexed steps w1
  Tried steps w (w1, abandoned) = Same w w1
  Tried steps w (w1, failed has_vector has_metadata) = Touched steps w w1

  cleanup-Touched :
      (steps : List ℤ) (w w1 : W)
      → Touched steps w w1
      → Touched steps w (cleanup strategy w1 id steps).0
  unfolding cleanup
  cleanup-Touched steps w w1 h k e =
      at-remove_saved_latents_other strategy.kv_store laws w1.kv id steps k e ∙ h k e

  -- A clean-up that did not raise restores the contents.
  cleanup-Same :
      (steps : List ℤ) (w w1 : W)
      → IsFresh w
      → Touched steps w w1
      → (cleanup strategy w1 id steps).1 ≡ true
      → Same w (cleanup strategy w1 id steps).0
  unfolding cleanup
  cleanup-Same steps w w1 fresh h ok k = elim (Bool-cases (is_key id steps k)) [
    | inl e ↦
        let (s, q) = is_key-false id steps k e in
        ground
          (arith, at-remove_saved_latents strategy.kv_store laws w1.kv id steps k ok e, fresh s, q)
    | inr e ↦ cleanup-Touched steps w w1 h k e
  ]

  rollback_vector-kv :
      (w : W) (collection : Text) (flag : Bool)
      → (rollback_vector strategy w id collection flag).0.kv ≡ w.kv
  unfolding rollback_vector
  rollback_vector-kv w collection false = refl
  rollback_vector-kv w collection true = ground arith

  rollback_metadata-kv : (w : W) (flag : Bool) → (rollback_metadata strategy w id flag).0.kv ≡ w.kv
  unfolding rollback_metadata
  rollback_metadata-kv w false = refl
  rollback_metadata-kv w true = refl

  index_entry-kv :
      (store : VectorStore V E) (w : W) (collection : Text) (vec : List E) (donor : Donor)
      (registration : Registration)
      → (index_entry strategy store w collection id vec donor registration).0.kv ≡ w.kv
  unfolding index_entry
  index_entry-kv store w collection vec donor registration = ground arith

  Touched-kv :
      (steps : List ℤ) (w w1 w2 : W) → w2.kv ≡ w1.kv → Touched steps w w1 → Touched steps w w2
  Touched-kv steps w w1 w2 e h k q = ap (λ x. laws.kv_at x k) e ∙ h k q

  Tried-Touched :
      (steps : List ℤ) (w w1 : W) (a : Attempt)
      → Touched steps w w1
      → (a ≡ written → Indexed steps w1)
      → (a ≡ abandoned → Same w w1)
      → Tried steps w (w1, a)
  Tried-Touched steps w w1 written h indexed same = (h, indexed refl)
  Tried-Touched steps w w1 abandoned h indexed same = same refl
  Tried-Touched steps w w1 (failed v m) h indexed same = h

  index_entry-finished :
      (store : VectorStore V E) (w : W) (collection : Text) (vec : List E) (donor : Donor)
      (registration : Registration)
      → ¬ ((index_entry strategy store w collection id vec donor registration).1 ≡ abandoned)
  unfolding index_entry
  index_entry-finished store w collection vec donor registration h = ground (arith, h)

  index_entry-Indexed :
      (store : VectorStore V E) (steps : List ℤ) (w : W) (vec : List E) (donor : Donor)
      (registration : Registration)
      → strategy.vector_store ≡ some store
      → donor.saved_steps ≡ steps
      → (index_entry strategy store w strategy.config.video_vector_collection id vec donor
          registration).1
        ≡ written
      → Indexed steps
          (index_entry strategy store w strategy.config.video_vector_collection id vec donor
            registration).0
  unfolding index_entry
  index_entry-Indexed store steps w vec donor registration attached same =
      let coll = strategy.config.video_vector_collection in
      let r1 = store.ensure_collection w.vectors coll (length vec) in
      let r2 = store.upsert r1.0 coll id vec donor in
      let r3 = strategy.metadata_manager.register_cache w.meta id registration in
      elim (Bool-cases r1.1) [
        | inr e1 ↦ rw e1 (λ h. absurd (ground (arith, h)))
        | inl e1 ↦ elim (Bool-cases r2.1) [
          | inr e2 ↦ rw e1 (rw e2 (λ h. absurd (ground (arith, h))))
          | inl e2 ↦ elim (Bool-cases r3.1) [
            | inr e3 ↦ rw e1 (rw e2 (rw e3 (λ h. absurd (ground (arith, h)))))
            | inl e3 ↦ rw e1 (
                rw e2 (λ _. (
                  store,
                  attached,
                  r1.0,
                  vec,
                  donor,
                  same,
                  ap (λ b. (r2.0, b)) e2,
                  w.meta,
                  registration,
                  ap (λ b. (r3.0, b)) e3,
                )))
          ]
        ]
      ]

  module _ (steps : List ℤ) (w w1 : W) (fresh : IsFresh w) (touched : Touched steps w w1) where
    abandon-Tried : Tried steps w (abandon strategy w1 id steps)
    unfolding abandon
    abandon-Tried = elim (Bool-cases (cleanup strategy w1 id steps).1) [
      | inl e ↦ rw e (cleanup-Same steps w w1 fresh touched e)
      | inr e ↦ rw e (cleanup-Touched steps w w1 touched)
    ]

    skip_stored-AllOrNothing : AllOrNothing steps w (skip_stored strategy w1 id steps)
    unfolding skip_stored
    skip_stored-AllOrNothing = elim (Bool-cases (cleanup strategy w1 id steps).1) [
      | inl e ↦ rw e (cleanup-Same steps w w1 fresh touched e)
      | inr e ↦ rw e (cleanup-Touched steps w w1 touched)
    ]

    discard_latents-AllOrNothing : AllOrNothing steps w (discard_latents strategy w1 id steps)
    unfolding discard_latents
    discard_latents-AllOrNothing = elim (Bool-cases (cleanup strategy w1 id steps).1) [
      | inl e ↦ rw e (cleanup-Same steps w w1 fresh touched e)
      | inr e ↦ rw e (cleanup-Touched steps w w1 touched)
    ]

    settle_failed-AllOrNothing :
        (has_vector has_metadata : Bool)
        → AllOrNothing steps w (settle strategy (w1, failed has_vector has_metadata) id steps)
    unfolding settle rollback_cache_entry
    settle_failed-AllOrNothing has_vector has_metadata =
        let coll = strategy.config.video_vector_collection in
        let r1 = rollback_vector strategy w1 id coll has_vector in
        let r2 = rollback_metadata strategy r1.0 id has_metadata in
        let left =
          Touched-kv steps w w1 r2.0
            (rollback_metadata-kv r1.0 has_metadata ∙ rollback_vector-kv w1 coll has_vector)
            touched in
        elim (Bool-cases
          (rollback_cache_entry strategy w1 id steps coll has_vector has_metadata).1) [
            | inl e ↦ rw e (cleanup-Same steps w r2.0 fresh left (ground (arith, e)))
            | inr e ↦ rw e (cleanup-Touched steps w r2.0 left)
          ]

    index_entry-Tried :
        (store : VectorStore V E) (vec : List E) (donor : Donor) (registration : Registration)
        → strategy.vector_store ≡ some store
        → donor.saved_steps ≡ steps
        → Tried steps w (
            index_entry strategy store w1 strategy.config.video_vector_collection id vec donor
              registration)
    index_entry-Tried store vec donor registration attached same =
        let coll = strategy.config.video_vector_collection in
        let out = index_entry strategy store w1 coll id vec donor registration in
        Tried-Touched steps w out.0 out.1
          (Touched-kv steps w w1 out.0 (index_entry-kv store w1 coll vec donor registration)
            touched)
          (index_entry-Indexed store steps w1 vec donor registration attached same)
          (λ h. absurd (index_entry-finished store w1 coll vec donor registration h))

    index_embedding-Tried :
        (store : VectorStore V E) (embedding : Option (List E)) (prompt task_type : Text)
        (size_bytes : ℕ) (num_frames : ℤ)
        → strategy.vector_store ≡ some store
        → Tried steps w (
            index_embedding strategy store embedding w1 id prompt task_type steps size_bytes
              num_frames)
    unfolding index_embedding
    index_embedding-Tried store none prompt task_type size_bytes num_frames at = touched
    index_embedding-Tried store (some []) prompt task_type size_bytes num_frames at = abandon-Tried
    index_embedding-Tried store (some (x ∷ xs)) prompt task_type size_bytes num_frames at =
        index_entry-Tried store (x ∷ xs) _ _ at refl

  settle-AllOrNothing :
      (steps : List ℤ) (w : W) (t : W × Attempt)
      → IsFresh w
      → Tried steps w t
      → AllOrNothing steps w (settle strategy t id steps)
  unfolding settle
  settle-AllOrNothing steps w (w1, written) fresh h = h
  settle-AllOrNothing steps w (w1, abandoned) fresh h = h
  settle-AllOrNothing steps w (w1, failed v m) fresh h =
      settle_failed-AllOrNothing steps w w1 fresh h v m

  save_stored_latents-AllOrNothing :
      (attached : Option (VectorStore V E)) (frames : List Frame)
      (encoder : Option (List Frame → Text → Option (List E))) (steps : List ℤ) (w w1 : W)
      (prompt task_type : Text) (size_bytes : ℕ) (num_frames : ℤ)
      → strategy.vector_store ≡ attached
      → IsFresh w
      → Touched steps w w1
      → AllOrNothing steps w (
          save_stored_latents strategy attached frames encoder w1 id prompt task_type steps
            size_bytes num_frames)
  unfolding save_stored_latents
  save_stored_latents-AllOrNothing none frames encoder steps w w1 prompt task_type size num at fresh
        h =
      skip_stored-AllOrNothing steps w w1 fresh h
  save_stored_latents-AllOrNothing (some store) [] encoder steps w w1 prompt task_type size num at
        fresh h =
      skip_stored-AllOrNothing steps w w1 fresh h
  save_stored_latents-AllOrNothing (some store) (f ∷ fs) none steps w w1 prompt task_type size num
        at fresh h =
      skip_stored-AllOrNothing steps w w1 fresh h
  save_stored_latents-AllOrNothing (some store) (f ∷ fs) (some enc) steps w w1 prompt task_type size
        num at fresh h =
      settle-AllOrNothing steps w _ fresh (
        index_embedding-Tried steps w w1 fresh h store (enc (f ∷ fs) prompt) prompt task_type size
          num at)

  -- The steps whose latents `save` puts into the store.
  abbrev pub put_steps : W → Dict ℤ (Latent T) → List ℤ
  put_steps w latents =
      (put_entries strategy.kv_store w.kv
        (entries strategy.serialize strategy.deserialize id latents)).1.0

  abbrev pub outputs_latents : ModelOutputs T Frame → Dict ℤ (Latent T)
  outputs_latents outputs =
      valid_latents outputs.latent_states_dict (sorted_steps outputs.saved_steps)

  finish_latents-AllOrNothing :
      (fine : Bool) (steps : List ℤ) (w w1 : W) (prompt task_type : Text) (size_bytes : ℕ)
      (outputs : ModelOutputs T Frame)
      → IsFresh w
      → Touched steps w w1
      → AllOrNothing steps w
          (finish_latents strategy fine w1 id prompt task_type steps size_bytes outputs)
  unfolding finish_latents
  finish_latents-AllOrNothing false steps w w1 prompt task_type size_bytes outputs fresh h =
      discard_latents-AllOrNothing steps w w1 fresh h
  finish_latents-AllOrNothing true steps w w1 prompt task_type size_bytes outputs fresh h =
      save_stored_latents-AllOrNothing strategy.vector_store outputs.embedding_video_frames
        strategy.video_encoder steps w _ prompt task_type size_bytes outputs.num_frames refl fresh h

  save_latents-AllOrNothing :
      (w : W) (prompt task_type : Text) (latents : Dict ℤ (Latent T))
      (outputs : ModelOutputs T Frame)
      → IsFresh w
      → AllOrNothing
          (put_steps w latents)
          w
          (save_latents strategy w id prompt task_type latents outputs)
  unfolding save_latents
  save_latents-AllOrNothing w prompt task_type latents outputs fresh =
      let puts =
        put_entries strategy.kv_store w.kv
          (entries strategy.serialize strategy.deserialize id latents) in
      finish_latents-AllOrNothing puts.1.1 puts.1.0 w (record w { kv = puts.0 }) prompt task_type
        (estimated_size_bytes strategy.tensor_bytes latents) outputs fresh
        (at-put_entries_other strategy.kv_store laws strategy.serialize strategy.deserialize w.kv id
          latents)

  save_valid-AllOrNothing :
      (w : W) (prompt task_type : Text) (latents : Dict ℤ (Latent T))
      (outputs : ModelOutputs T Frame)
      → IsFresh w
      → AllOrNothing
          (put_steps w latents)
          w
          (save_valid strategy w id prompt task_type latents outputs)
  unfolding save_valid
  save_valid-AllOrNothing w prompt task_type [] outputs fresh = λ k. refl
  save_valid-AllOrNothing w prompt task_type (l ∷ ls) outputs fresh =
      save_latents-AllOrNothing w prompt task_type (l ∷ ls) outputs fresh

  -- Under a fresh id, a save that is skipped, or that raises after a failed put, a failed embedding or
  -- a failed write of the vector or the metadata and cleans up, leaves the KV store with its old
  -- contents. Where it is done, the vector store took a point with the steps that it put and the
  -- metadata store registered the cache. There, and where its clean-up or its rollback raised, only the
  -- keys of the steps that it put differ. It rests on a KV store whose calls leave the contents where
  -- they raise.
  pub save-AllOrNothing :
      (w : W) (prompt task_type : Text) (outputs : ModelOutputs T Frame)
      → IsFresh w
      → AllOrNothing
          (put_steps w (outputs_latents outputs))
          w
          (save strategy w id prompt task_type outputs)
  unfolding save
  save-AllOrNothing w [] task_type outputs fresh = λ k. refl
  save-AllOrNothing w (c ∷ cs) task_type outputs fresh =
      save_valid-AllOrNothing w (c ∷ cs) task_type (outputs_latents outputs) outputs fresh
