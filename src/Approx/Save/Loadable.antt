-- ===== src/Approx/Save/Loadable.antt =====
-- The latents that a finished `save` of reuse/approximate/strategy.py has put into the KV store.
use mathlib.Core.List.{Memᴰ}
use mathlib.Core.Path.{subst}
use cache_seek.Prelude.{
  sym, ap, ◌⊎◌, ◌≡◌, refl, ◌∙◌, Bool, true, false, Option, none, some, List, [], ◌∷◌, Text, ℕ, All,
  length, arith, inl, inr, Bool-cases, Bytes, bytes_eq,
}
use cache_seek.Prelude.Int.{
  ℤ, int_eq, int_beq, int_beq_iff, int_leb, int_leb_refl, int_leb_trans, int_leb_antisym,
}
use cache_seek.Dict
use cache_seek.Dict.{Dict}
use cache_seek.Metadata.{sorted_steps, insert_step}
use cache_seek.Approx.Payload.{
  Latent, raw, step_key, single, entries, blob_of, load_steps, from_kv_loader, load_payload,
  estimated_size_bytes,
}
use cache_seek.Approx.Payload.RoundTrip.{Once}
use cache_seek.Approx.Backends.{VectorStore, World, Strategy, Donor, Registration}
use cache_seek.Approx.Backends.Laws.{KvLaws}
use cache_seek.Approx.Save.{
  ModelOutputs, saved, Attempt, written, abandoned, failed, keep_latent, valid_latents, put_entries,
  cleanup, abandon, index_entry, index_embedding, settle, skip_stored, save_stored_latents,
  discard_latents, finish_latents, save_latents, save_valid, save,
}
use cache_seek.Approx.Save.Cleanup.{at-put_entries}

-- Every step is above `s`, and the list ascends.
abbrev Above : ℤ → List ℤ → Type 0
Above s ss = All (λ t. int_leb t s ≡ false) ss

abbrev Ascends : List ℤ → Type 0
Ascends [] = Unit
Ascends (s ∷ ss) = Above s ss × Ascends ss

insert_step-Memᴰ : (s t : ℤ) (ss : List ℤ) → (s ≡ t) ⊎ Memᴰ s ss → Memᴰ s (insert_step t ss)
unfolding insert_step
insert_step-Memᴰ s t [] (inl e) = Memᴰ.head e
insert_step-Memᴰ s t [] (inr at) = elim at [ ]
insert_step-Memᴰ s t (u ∷ us) h = elim (Bool-cases (int_beq t u)) [
  | inl q ↦ rw q (elim h [ inl e ↦ Memᴰ.head (e ∙ (int_beq_iff t u).0 q) | inr at ↦ at ])
  | inr q ↦ elim (Bool-cases (int_leb t u)) [
    | inl r ↦ rw (q, r) (elim h [ inl e ↦ Memᴰ.head e | inr at ↦ Memᴰ.tail at ])
    | inr r ↦
        rw (q, r)
          (elim h [
            | inl e ↦ Memᴰ.tail (insert_step-Memᴰ s t us (inl e))
            | inr (Memᴰ.head e) ↦ Memᴰ.head e
            | inr (Memᴰ.tail at) ↦ Memᴰ.tail (insert_step-Memᴰ s t us (inr at))
          ])
  ]
]

sorted_steps-Memᴰ : (s : ℤ) (ss : List ℤ) → Memᴰ s ss → Memᴰ s (sorted_steps ss)
unfolding sorted_steps
sorted_steps-Memᴰ s [] at = elim at [ ]
sorted_steps-Memᴰ s (t ∷ ts) (Memᴰ.head e) = insert_step-Memᴰ s t (sorted_steps ts) (inl e)
sorted_steps-Memᴰ s (t ∷ ts) (Memᴰ.tail at) =
    insert_step-Memᴰ s t (sorted_steps ts) (inr (sorted_steps-Memᴰ s ts at))

kept :
    {T : Type 0} (latents : Dict ℤ (Option (Latent T))) (ts : List ℤ) (s t : ℤ) (v : Latent T)
    (o : Option (Option (Latent T)))
    → Dict.get latents t ≡ o
    → Dict.get latents s ≡ some (some v)
    → Dict.get (valid_latents latents ts) s ≡ some v
    → Dict.get (keep_latent t o (valid_latents latents ts)) s ≡ some v
unfolding keep_latent Dict.get
kept latents ts s t v none q e ih = ih
kept latents ts s t v (some none) q e ih = ih
kept latents ts s t v (some (some u)) q e ih = elim (Bool-cases (int_beq t s)) [
  | inl same ↦
      let eq : t ≡ s = (int_beq_iff t s).0 same in
      rw same (ground (arith, sym q ∙ ap (λ x. Dict.get latents x) eq ∙ e))
  | inr other ↦ rw other ih
]

-- The filter keeps every requested latent that is not `None`.
get-requested :
    {T : Type 0} (latents : Dict ℤ (Option (Latent T))) (steps : List ℤ) (s : ℤ) (v : Latent T)
    → Memᴰ s steps
    → Dict.get latents s ≡ some (some v)
    → Dict.get (valid_latents latents steps) s ≡ some v
unfolding valid_latents keep_latent Dict.get
get-requested latents [] s v at e = elim at [ ]
get-requested latents (t ∷ ts) s v (Memᴰ.head q) e =
    subst (λ x. Dict.get (keep_latent x (Dict.get latents x) (valid_latents latents ts)) s ≡ some v)
      q (rw e (ground (arith, int_beq_iff s s)))
get-requested latents (t ∷ ts) s v (Memᴰ.tail at) e =
    kept latents ts s t v (Dict.get latents t) refl e (get-requested latents ts s v at e)

insert_step-Above :
    (s t : ℤ) (ss : List ℤ) → Above s ss → int_leb t s ≡ false → Above s (insert_step t ss)
unfolding insert_step
insert_step-Above s t [] h e = (e, tt)
insert_step-Above s t (u ∷ us) (hu, hus) e = elim (Bool-cases (int_beq t u)) [
  | inl q ↦ rw q (hu, hus)
  | inr q ↦ elim (Bool-cases (int_leb t u)) [
    | inl r ↦ rw (q, r) (e, (hu, hus))
    | inr r ↦ rw (q, r) (hu, insert_step-Above s t us hus e)
  ]
]

Above-mono : (s t : ℤ) (ss : List ℤ) → Above t ss → int_leb s t ≡ true → Above s ss
Above-mono s t [] h e = tt
Above-mono s t (u ∷ us) (hu, hus) e = (
  elim (Bool-cases (int_leb u s)) [
    | inl q ↦ ground (arith, hu, int_leb_trans u s t q e)
    | inr q ↦ q
  ],
  Above-mono s t us hus e,
)

insert_step-Ascends : (s : ℤ) (ss : List ℤ) → Ascends ss → Ascends (insert_step s ss)
unfolding insert_step
insert_step-Ascends s [] h = (tt, tt)
insert_step-Ascends s (u ∷ us) (hu, hus) = elim (Bool-cases (int_beq s u)) [
  | inl q ↦ rw q (hu, hus)
  | inr q ↦ elim (Bool-cases (int_leb s u)) [
    | inl r ↦
        let above : int_leb u s ≡ false = elim (Bool-cases (int_leb u s)) [
          | inl x ↦ ground (arith, q, int_leb_antisym s u r x, int_beq_iff s u)
          | inr x ↦ x
        ] in
        rw (q, r) ((above, Above-mono s u us hu r), (hu, hus))
    | inr r ↦ rw (q, r) (insert_step-Above u s us hu r, insert_step-Ascends s us hus)
  ]
]

sorted_steps-Ascends : (ss : List ℤ) → Ascends (sorted_steps ss)
unfolding sorted_steps
sorted_steps-Ascends [] = tt
sorted_steps-Ascends (s ∷ ss) = insert_step-Ascends s (sorted_steps ss) (sorted_steps-Ascends ss)

module _ {T : Type 0} (serialize : T → Bytes) (deserialize : Bytes → T) where
  get-keep_latent :
      (t s : ℤ) (o : Option (Option (Latent T))) (rest : Dict ℤ (Latent T))
      → int_leb t s ≡ false
      → Dict.get rest s ≡ none
      → Dict.get (keep_latent t o rest) s ≡ none
  unfolding keep_latent Dict.get
  get-keep_latent t s none rest above h = h
  get-keep_latent t s (some none) rest above h = h
  get-keep_latent t s (some (some v)) rest above h =
      ground (arith, h, above, int_eq.same_iff t s, int_leb_refl s)

  keep_latent-Once :
      (t : ℤ) (o : Option (Option (Latent T))) (rest : Dict ℤ (Latent T))
      → Dict.get rest t ≡ none
      → Once serialize deserialize rest
      → Once serialize deserialize (keep_latent t o rest)
  unfolding keep_latent
  keep_latent-Once t none rest h once = once
  keep_latent-Once t (some none) rest h once = once
  keep_latent-Once t (some (some v)) rest h once = (h, once)

  get-valid_latents :
      (latents : Dict ℤ (Option (Latent T))) (s : ℤ) (ss : List ℤ)
      → Above s ss
      → Dict.get (valid_latents latents ss) s ≡ none
  unfolding valid_latents Dict.get
  get-valid_latents latents s [] h = refl
  get-valid_latents latents s (t ∷ ts) (ht, hts) =
      get-keep_latent t s (Dict.get latents t) (valid_latents latents ts) ht
        (get-valid_latents latents s ts hts)

  valid_latents-Once :
      (latents : Dict ℤ (Option (Latent T))) (ss : List ℤ)
      → Ascends ss
      → Once serialize deserialize (valid_latents latents ss)
  unfolding valid_latents
  valid_latents-Once latents [] h = tt
  valid_latents-Once latents (t ∷ ts) (ht, hts) =
      keep_latent-Once t (Dict.get latents t) (valid_latents latents ts)
        (get-valid_latents latents t ts ht) (valid_latents-Once latents ts hts)

module _ {K V M A E T Frame : Type 0} (strategy : Strategy K V M A E T Frame)
    (laws : KvLaws strategy.kv_store) (id : Text) where
  abbrev W : Type 0
  W = World K V M A

  index_entry-kv :
      (store : VectorStore V E) (w : W) (collection : Text) (vec : List E) (donor : Donor)
      (r : Registration)
      → (index_entry strategy store w collection id vec donor r).0.kv ≡ w.kv
  unfolding index_entry
  index_entry-kv store w collection vec donor r =
      let v1 = store.ensure_collection w.vectors collection (length vec) in
      elim (Bool-cases v1.1) [
        | inr e ↦ rw e refl
        | inl e ↦ elim (Bool-cases (store.upsert v1.0 collection id vec donor).1) [
          | inr f ↦ rw (e, f) refl
          | inl f ↦ rw (e, f) refl
        ]
      ]

  index_embedding-kv :
      (store : VectorStore V E) (embedding : Option (List E)) (w : W) (prompt task_type : Text)
      (steps : List ℤ) (size_bytes : ℕ) (num_frames : ℤ)
      → let (w', ended) =
          index_embedding strategy store embedding w id prompt task_type steps size_bytes
            num_frames in
        ended ≡ written → w'.kv ≡ w.kv
  unfolding index_embedding abandon
  index_embedding-kv store none w prompt task_type steps size_bytes num_frames =
      λ e. ground (arith, e)
  index_embedding-kv store (some []) w prompt task_type steps size_bytes num_frames =
      elim (Bool-cases (cleanup strategy w id steps).1) [
        | inl q ↦ rw q λ e. ground (arith, e)
        | inr q ↦ rw q λ e. ground (arith, e)
      ]
  index_embedding-kv store (some (x ∷ xs)) w prompt task_type steps size_bytes num_frames =
      λ e. index_entry-kv store w _ (x ∷ xs) _ _

  settle-kv :
      (t : W × Attempt) (steps : List ℤ) (kv : K)
      → (t.1 ≡ written → t.0.kv ≡ kv)
      → (settle strategy t id steps).1 ≡ saved
      → (settle strategy t id steps).0.kv ≡ kv
  unfolding settle
  settle-kv (w, written) steps kv h e = h refl
  settle-kv (w, abandoned) steps kv h e = ground (arith, e)
  settle-kv (w, failed hv hm) steps kv h e = ground (arith, e)

  skip_stored-unsaved : (w : W) (steps : List ℤ) → (skip_stored strategy w id steps).1 ≡ saved → ⊥
  unfolding skip_stored
  skip_stored-unsaved w steps = elim (Bool-cases (cleanup strategy w id steps).1) [
    | inl q ↦ rw q λ e. ground (arith, e)
    | inr q ↦ rw q λ e. ground (arith, e)
  ]

  save_stored_latents-kv :
      (attached : Option (VectorStore V E)) (frames : List Frame)
      (encoder : Option (List Frame → Text → Option (List E))) (w : W) (prompt task_type : Text)
      (steps : List ℤ) (size_bytes : ℕ) (num_frames : ℤ)
      → let (w', ended) =
          save_stored_latents strategy attached frames encoder w id prompt task_type steps
            size_bytes num_frames in
        ended ≡ saved → w'.kv ≡ w.kv
  unfolding save_stored_latents
  save_stored_latents-kv none frames encoder w prompt task_type steps size_bytes num_frames e =
      absurd (skip_stored-unsaved w steps e)
  save_stored_latents-kv (some s) [] encoder w prompt task_type steps size_bytes num_frames e =
      absurd (skip_stored-unsaved w steps e)
  save_stored_latents-kv (some s) (f ∷ fs) none w prompt task_type steps size_bytes num_frames e =
      absurd (skip_stored-unsaved w steps e)
  save_stored_latents-kv (some s) (f ∷ fs) (some enc) w prompt task_type steps size_bytes num_frames
        e =
      settle-kv _ steps w.kv
        (index_embedding-kv s (enc (f ∷ fs) prompt) w prompt task_type steps size_bytes num_frames)
        e

  finish_latents-kv :
      (fine : Bool) (w : W) (prompt task_type : Text) (steps : List ℤ) (size_bytes : ℕ)
      (outputs : ModelOutputs T Frame)
      → (finish_latents strategy fine w id prompt task_type steps size_bytes outputs).1 ≡ saved
      → (fine ≡ true)
        × ((finish_latents strategy fine w id prompt task_type steps size_bytes outputs).0.kv
            ≡ w.kv)
  unfolding finish_latents discard_latents
  finish_latents-kv false w prompt task_type steps size_bytes outputs e = ground (arith, e)
  finish_latents-kv true w prompt task_type steps size_bytes outputs e = (
    refl,
    save_stored_latents-kv strategy.vector_store outputs.embedding_video_frames
        strategy.video_encoder _ prompt task_type steps size_bytes outputs.num_frames e,
  )

  save_latents-kv :
      (w : W) (prompt task_type : Text) (latents : Dict ℤ (Latent T))
      (outputs : ModelOutputs T Frame) (s : ℤ) (v : Latent T)
      → Once strategy.serialize strategy.deserialize latents
      → Dict.get latents s ≡ some v
      → (save_latents strategy w id prompt task_type latents outputs).1 ≡ saved
      → laws.kv_at
          (save_latents strategy w id prompt task_type latents outputs).0.kv
          (step_key id s)
        ≡ some (blob_of strategy.serialize strategy.deserialize v)
  unfolding save_latents
  save_latents-kv w prompt task_type latents outputs s v once known e =
      let puts =
        put_entries strategy.kv_store w.kv
          (entries strategy.serialize strategy.deserialize id latents) in
      let (fine, same) =
        finish_latents-kv puts.1.1 (record w { kv = puts.0 }) prompt task_type puts.1.0
          (estimated_size_bytes strategy.tensor_bytes latents) outputs e in
      rw same (
        at-put_entries strategy.kv_store laws strategy.serialize strategy.deserialize w.kv id
          latents s once fine
        ∙ rw known refl)

  save_valid-kv :
      (w : W) (prompt task_type : Text) (latents : Dict ℤ (Latent T))
      (outputs : ModelOutputs T Frame) (s : ℤ) (v : Latent T)
      → Once strategy.serialize strategy.deserialize latents
      → Dict.get latents s ≡ some v
      → (save_valid strategy w id prompt task_type latents outputs).1 ≡ saved
      → laws.kv_at (save_valid strategy w id prompt task_type latents outputs).0.kv (step_key id s)
        ≡ some (blob_of strategy.serialize strategy.deserialize v)
  unfolding save_valid
  save_valid-kv w prompt task_type [] outputs s v once known e = ground (arith, e)
  save_valid-kv w prompt task_type (l ∷ ls) outputs s v once known e =
      save_latents-kv w prompt task_type (l ∷ ls) outputs s v once known e

  save-kv :
      (w : W) (prompt task_type : Text) (outputs : ModelOutputs T Frame) (s : ℤ) (v : Latent T)
      → Dict.get (valid_latents outputs.latent_states_dict (sorted_steps outputs.saved_steps)) s
        ≡ some v
      → (save strategy w id prompt task_type outputs).1 ≡ saved
      → laws.kv_at (save strategy w id prompt task_type outputs).0.kv (step_key id s)
        ≡ some (blob_of strategy.serialize strategy.deserialize v)
  unfolding save
  save-kv w [] task_type outputs s v known e = ground (arith, e)
  save-kv w (c ∷ cs) task_type outputs s v known e =
      save_valid-kv w (c ∷ cs) task_type
        (valid_latents outputs.latent_states_dict (sorted_steps outputs.saved_steps)) outputs s v
        (valid_latents-Once strategy.serialize strategy.deserialize outputs.latent_states_dict
          (sorted_steps outputs.saved_steps) (sorted_steps-Ascends outputs.saved_steps))
        known e

  -- After a save that is done, a lookup's load of a requested step whose latent was not `None` finds the
  -- latent's bytes.
  pub load_payload-save :
      (w : W) (prompt task_type : Text) (outputs : ModelOutputs T Frame) (s : ℤ) (v : Latent T)
      → Memᴰ s outputs.saved_steps
      → Dict.get outputs.latent_states_dict s ≡ some (some v)
      → (save strategy w id prompt task_type outputs).1 ≡ saved
      → load_payload strategy.serialize strategy.deserialize
          (laws.kv_at (save strategy w id prompt task_type outputs).0.kv)
          id
          (single s)
        ≡ some (record {
          cache_id = id;
          step_to_latents = (s, raw (blob_of strategy.serialize strategy.deserialize v)) ∷ [];
        })
  unfolding load_payload from_kv_loader load_steps Dict.put
  load_payload-save w prompt task_type outputs s v requested there e =
      let known =
        get-requested outputs.latent_states_dict (sorted_steps outputs.saved_steps) s v
          (sorted_steps-Memᴰ s outputs.saved_steps requested) there in
      ground (arith, save-kv w prompt task_type outputs s v known e)
