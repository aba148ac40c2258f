-- ===== src/Approx/Save.antt =====
-- `VideoBasedApproximateCache.save` of reuse/approximate/strategy.py, with the clean-up that it does
-- when a backend raises. The id that `uuid.uuid4` draws is an argument.
pub mod Step
pub mod Cleanup
pub mod AllOrNothing
pub mod Loadable
use cache_seek.Prelude.{
  ℕ, zero, suc, ◌-◌, ◌+◌, ◌*◌, Bool, true, false, not, ◌&&◌, Option, none, some, List, [], ◌∷◌,
  Text, Bytes, codes, nat_eq, leb, length, if◌then◌else◌,
}
use cache_seek.Prelude.Int.{ℤ, pos, negsuc, int_eq}
use cache_seek.Dict
use cache_seek.Dict.{Dict}
use cache_seek.Service.Lifecycle.Settings.{or_default}
use cache_seek.Metadata.{sorted_steps}
use cache_seek.Approx.Payload.{Latent, step_key, entries, estimated_size_bytes}
use cache_seek.Approx.Backends.{
  KvStore, VectorStore, MetadataStore, Donor, Registration, World, Strategy, AuditEvent,
  save_stored,
}

-- The digits that an f-string writes, read by `int`.
unfoldable pub read_digits : ℕ → Text → Option ℕ
read_digits acc [] = some acc
read_digits acc (c ∷ cs) = elim (leb 48 c && leb c 57) [
  | true ↦ read_digits (acc * 10 + (c - 48)) cs
  | false ↦ none
]

-- `int(s)`, on what an f-string writes for an `int`.
unfoldable pub int_of : Text → Option ℤ
int_of [] = none
int_of (c ∷ cs) =
    if nat_eq c 45
    then (elim cs as (λ _. Option ℤ) [
      | [] ↦ none
      | d ∷ ds ↦ elim (read_digits 0 (d ∷ ds)) [
        | none ↦ none
        | some n ↦ elim n as (λ _. Option ℤ) [ zero ↦ some (pos 0) | suc m ↦ some (negsuc m) ]
      ]
    ])
    else (elim (read_digits 0 (c ∷ cs)) [ none ↦ none | some n ↦ some (pos n) ])

-- The rest of a text behind a prefix.
unfoldable pub behind : Text → Text → Option Text
behind [] t = some t
behind (p ∷ ps) [] = none
behind (p ∷ ps) (c ∷ cs) = elim (nat_eq p c) [ true ↦ behind ps cs | false ↦ none ]

-- The rest behind the last occurrence of `sep`.
unfoldable pub behind_last : Text → Text → Option Text
behind_last sep [] = none
behind_last sep (c ∷ cs) = elim (behind_last sep cs) [
  | some rest ↦ some rest
  | none ↦ behind sep (c ∷ cs)
]

-- `int(kv_key.rsplit("_step", 1)[-1])`
unfoldable pub step_of_key : Text → Option ℤ
step_of_key key =
    int_of (elim (behind_last (codes "_step") key) as (λ _. Text) [ none ↦ key | some rest ↦ rest ])

-- `ModelOutputs`; a step's latent may be `None`.
pub record ModelOutputs (T Frame : Type 0) : Type 0 where
  pub latent_states_dict : Dict ℤ (Option (Latent T))
  pub num_frames : ℤ
  pub saved_steps : List ℤ
  pub embedding_video_frames : List Frame

-- How `save` ends. The errors are the `RuntimeError`s of its handlers: of the writing of the latents
-- and of its clean-up, of the clean-up where a backend is missing, of the vector and metadata writes
-- and of their rollback.
pub data SaveError : Type 0 where
  latents_failed latents_cleanup_failed cleanup_failed save_failed rollback_failed : SaveError

pub data SaveOutcome : Type 0 where
  saved skipped : SaveOutcome
  raised : SaveError → SaveOutcome

-- How the block that writes the vector and the metadata ends: `failed` has the flags
-- `vector_written` and `metadata_attempted`.
pub data Attempt : Type 0 where
  written abandoned : Attempt
  failed : Bool → Bool → Attempt

-- The latents of the requested steps that are there.
unfoldable pub keep_latent :
    {T : Type 0} → ℤ → Option (Option (Latent T)) → Dict ℤ (Latent T) → Dict ℤ (Latent T)
keep_latent step none rest = rest
keep_latent step (some none) rest = rest
keep_latent step (some (some v)) rest = (step, v) ∷ rest

unfoldable pub valid_latents :
    {T : Type 0} → Dict ℤ (Option (Latent T)) → List ℤ → Dict ℤ (Latent T)
valid_latents latents [] = []
valid_latents latents (step ∷ steps) =
    keep_latent step (Dict.get latents step) (valid_latents latents steps)

module _ {K : Type 0} (store : KvStore K) where
  -- The loop that puts the entries: the store, the steps that were put, and whether no call raised.
  unfoldable pub put_entries : K → List (Text × Bytes) → K × (List ℤ × Bool)
  put_entries kv [] = (kv, ([], true))
  put_entries kv ((key, bytes) ∷ entries) =
      let (kv', ok) = store.kv_put kv key bytes in
      elim ok [
        | false ↦ (kv', ([], false))
        | true ↦ elim (step_of_key key) as (λ _. K × (List ℤ × Bool)) [
          | none ↦ (kv', ([], false))
          | some step ↦
              let (kv'', (steps, fine)) = put_entries kv' entries in (kv'', (step ∷ steps, fine))
        ]
      ]

  -- Every removal is tried; false where one raised.
  unfoldable pub remove_saved_latents : K → Text → List ℤ → K × Bool
  remove_saved_latents kv cache_id [] = (kv, true)
  remove_saved_latents kv cache_id (step ∷ steps) =
      let (kv', ok) = store.kv_remove kv (step_key cache_id step) in
      let (kv'', rest) = remove_saved_latents kv' cache_id steps in (kv'', ok && rest)

module _ {K V M A E T Frame : Type 0} (strategy : Strategy K V M A E T Frame) where
  abbrev W : Type 0
  W = World K V M A

  unfoldable pub cleanup : W → Text → List ℤ → W × Bool
  cleanup w cache_id steps =
      let (kv, ok) = remove_saved_latents strategy.kv_store w.kv cache_id steps in
      (record w { kv = kv }, ok)

  unfoldable pub rollback_vector : W → Text → Text → Bool → W × Bool
  rollback_vector w cache_id collection false = (w, true)
  rollback_vector w cache_id collection true = elim strategy.vector_store [
    | none ↦ (w, true)
    | some store ↦
        let (v, ok) = store.delete w.vectors collection (cache_id ∷ []) in
        (record w { vectors = v }, ok)
  ]

  unfoldable pub rollback_metadata : W → Text → Bool → W × Bool
  rollback_metadata w cache_id false = (w, true)
  rollback_metadata w cache_id true =
      let (m, ok) = strategy.metadata_manager.remove_cache w.meta cache_id in
      (record w { meta = m }, ok)

  unfoldable pub rollback_cache_entry : W → Text → List ℤ → Text → Bool → Bool → W × Bool
  rollback_cache_entry w cache_id steps collection remove_vector remove_metadata =
      let (w1, ok1) = rollback_vector w cache_id collection remove_vector in
      let (w2, ok2) = rollback_metadata w1 cache_id remove_metadata in
      let (w3, ok3) = cleanup w2 cache_id steps in (w3, ok1 && (ok2 && ok3))

  -- The clean-up inside the `try`, whose error the handler catches.
  unfoldable pub abandon : W → Text → List ℤ → W × Attempt
  abandon w cache_id steps =
      let (w', ok) = cleanup w cache_id steps in (w', if ok then abandoned else failed false false)

  -- The writes of the vector and of the metadata.
  unfoldable pub index_entry :
      VectorStore V E → W → Text → Text → List E → Donor → Registration → W × Attempt
  index_entry store w collection cache_id vec donor registration =
      let (v1, ok1) = store.ensure_collection w.vectors collection (length vec) in
      let w1 : W = record w { vectors = v1 } in
      let (v2, ok2) = store.upsert v1 collection cache_id vec donor in
      let w2 : W = record w { vectors = v2 } in
      let (m, ok3) = strategy.metadata_manager.register_cache w.meta cache_id registration in
      let w3 : W = record w { vectors = v2; meta = m } in
      if not ok1
      then (w1, failed false false)
      else (if not ok2
          then (w2, failed false false)
          else (w3, if ok3 then written else failed true true))

  -- The `try` block on what the video encoder returned.
  unfoldable pub index_embedding :
      VectorStore V E → Option (List E) → W → Text → Text → Text → List ℤ → ℕ → ℤ → W × Attempt
  index_embedding store none w cache_id prompt task_type steps size_bytes num_frames =
      (w, failed false false)
  index_embedding store (some []) w cache_id prompt task_type steps size_bytes num_frames =
      abandon w cache_id steps
  index_embedding store (some (e ∷ es)) w cache_id prompt task_type steps size_bytes num_frames =
      index_entry store w strategy.config.video_vector_collection cache_id (e ∷ es)
        (record { prompt = prompt; saved_steps = steps; task_type = task_type })
        (record {
          prompt = prompt;
          saved_steps = steps;
          size_bytes = size_bytes;
          num_frames = num_frames;
          cache_type = codes "video_approximate_cache";
        })

  -- The handler of that block.
  unfoldable pub settle : W × Attempt → Text → List ℤ → W × SaveOutcome
  settle (w, written) cache_id steps = (w, saved)
  settle (w, abandoned) cache_id steps = (w, skipped)
  settle (w, failed vector_written metadata_attempted) cache_id steps =
      let (w', ok) =
        rollback_cache_entry w cache_id steps strategy.config.video_vector_collection vector_written
          metadata_attempted in
      (w', raised (if ok then save_failed else rollback_failed))

  -- A clean-up before the `try`, where a backend or the frames are missing.
  unfoldable pub skip_stored : W → Text → List ℤ → W × SaveOutcome
  skip_stored w cache_id steps =
      let (w', ok) = cleanup w cache_id steps in (w', if ok then skipped else raised cleanup_failed)

  -- Behind the writing of the latents: the vector store, the frames and the video encoder are looked
  -- for in this order.
  unfoldable pub save_stored_latents :
      Option (VectorStore V E)
      → List Frame
      → Option (List Frame → Text → Option (List E))
      → W
      → Text
      → Text
      → Text
      → List ℤ
      → ℕ
      → ℤ
      → W × SaveOutcome
  save_stored_latents none frames encoder w cache_id prompt task_type steps size_bytes num_frames =
      skip_stored w cache_id steps
  save_stored_latents (some store) [] encoder w cache_id prompt task_type steps size_bytes
        num_frames =
      skip_stored w cache_id steps
  save_stored_latents (some store) (f ∷ fs) none w cache_id prompt task_type steps size_bytes
        num_frames =
      skip_stored w cache_id steps
  save_stored_latents (some store) (f ∷ fs) (some encode_video) w cache_id prompt task_type steps
        size_bytes num_frames =
      settle
        (index_embedding store (encode_video (f ∷ fs) prompt) w cache_id prompt task_type steps
          size_bytes num_frames)
        cache_id steps

  -- The handler of the writing of the latents.
  unfoldable pub discard_latents : W → Text → List ℤ → W × SaveOutcome
  discard_latents w cache_id steps =
      let (w', ok) = cleanup w cache_id steps in
      (w', raised (if ok then latents_failed else latents_cleanup_failed))

  -- Behind the loop, by whether no put raised.
  unfoldable pub finish_latents :
      Bool → W → Text → Text → Text → List ℤ → ℕ → ModelOutputs T Frame → W × SaveOutcome
  finish_latents false w cache_id prompt task_type steps size_bytes outputs =
      discard_latents w cache_id steps
  finish_latents true w cache_id prompt task_type steps size_bytes outputs =
      let event = save_stored cache_id task_type steps size_bytes outputs.num_frames in
      save_stored_latents strategy.vector_store outputs.embedding_video_frames
        strategy.video_encoder (record w { audit = strategy.audit_record w.audit event }) cache_id
        prompt task_type steps size_bytes outputs.num_frames

  unfoldable pub save_latents :
      W → Text → Text → Text → Dict ℤ (Latent T) → ModelOutputs T Frame → W × SaveOutcome
  save_latents w cache_id prompt task_type latents outputs =
      let (kv, (steps, fine)) =
        put_entries strategy.kv_store w.kv
          (entries strategy.serialize strategy.deserialize cache_id latents) in
      let size_bytes = estimated_size_bytes strategy.tensor_bytes latents in
      finish_latents fine (record w { kv = kv }) cache_id prompt task_type steps size_bytes outputs

  -- With no latents or no steps no latent is valid.
  unfoldable pub save_valid :
      W → Text → Text → Text → Dict ℤ (Latent T) → ModelOutputs T Frame → W × SaveOutcome
  save_valid w cache_id prompt task_type [] outputs = (w, skipped)
  save_valid w cache_id prompt task_type (latent ∷ latents) outputs =
      save_latents w cache_id prompt task_type (latent ∷ latents) outputs

  -- `save` of a prompt.
  unfoldable pub save : W → Text → Text → Text → ModelOutputs T Frame → W × SaveOutcome
  save w cache_id [] task_type outputs = (w, skipped)
  save w cache_id (c ∷ cs) task_type outputs =
      save_valid w cache_id (c ∷ cs) task_type
        (valid_latents outputs.latent_states_dict (sorted_steps outputs.saved_steps)) outputs

  -- `query.prompt or ""` and `query.task_type or "t2v"`
  unfoldable pub save_query :
      W → Text → Option Text → Option Text → ModelOutputs T Frame → W × SaveOutcome
  save_query w cache_id prompt task_type outputs =
      save w cache_id (or_default prompt []) (or_default task_type (codes "t2v")) outputs
