-- ===== src/Tests/ApproxTests.antt =====
-- The theorems on the approximate strategy's save and lookup, applied to stores that raise at will.
use mathlib.Core.List.{Memᴰ}
use cache_seek.Prelude.{
  ◌≡◌, refl, ℕ, Bool, false, none, some, List, [], ◌∷◌, Text, Bytes, bytes_eq, codes,
}
use cache_seek.Prelude.Int.{pos, int_eq}
use cache_seek.Dict
use cache_seek.Dict.{Dict}
use cache_seek.Metadata.{sorted_steps, insert_step}
use cache_seek.Approx.Payload.{
  raw, single, load_payload, tensor, entries, step_key, int_text, decimal_on, blob_of,
  estimated_size_bytes,
}
use cache_seek.Approx.Backends.{World, Registration, AuditEvent}
use cache_seek.Approx.Save.{
  ModelOutputs, saved, raised, save_failed, save, save_valid, valid_latents, keep_latent,
  save_latents, finish_latents, put_entries, step_of_key, int_of, behind_last, behind, read_digits,
  cleanup, save_stored_latents, index_embedding, index_entry, remove_saved_latents,
  rollback_cache_entry, rollback_metadata, rollback_vector, settle,
}
use cache_seek.Approx.Save.AllOrNothing.{
  IsFresh, AllOrNothing, put_steps, outputs_latents, save-AllOrNothing,
}
use cache_seek.Approx.Save.Loadable.{load_payload-save}
use cache_seek.Tests.Backends.{toy_kv_laws, toy_strategy, toy_world, Scheduled, Vectors}

abbrev one_latent : ModelOutputs Bytes ℕ
one_latent = record {
  latent_states_dict = (pos 5, some (tensor (1 ∷ []))) ∷ (pos 3, none) ∷ [];
  num_frames = pos 2;
  saved_steps = pos 5 ∷ pos 3 ∷ pos 5 ∷ [];
  embedding_video_frames = 8 ∷ 9 ∷ [];
}

abbrev id : Text
id = codes "a"

-- The registration raises, so that the vector and the latent are rolled back.
rolled_back :
    (save toy_strategy (toy_world [] [] (false ∷ [])) id (codes "p") (codes "t2v") one_latent).1
    ≡ raised save_failed
unfolding save save_valid valid_latents keep_latent save_latents finish_latents put_entries
    step_of_key int_of behind_last behind read_digits cleanup save_stored_latents index_embedding
    index_entry remove_saved_latents rollback_cache_entry rollback_metadata rollback_vector settle
    entries step_key int_text decimal_on blob_of estimated_size_bytes sorted_steps insert_step
    Dict.get
rolled_back = refl

five_there : Dict.get one_latent.latent_states_dict (pos 5) ≡ some (some (tensor (1 ∷ [])))
unfolding Dict.get
five_there = refl

done : (save toy_strategy (toy_world [] [] []) id (codes "p") (codes "t2v") one_latent).1 ≡ saved
unfolding save save_valid valid_latents keep_latent save_latents finish_latents put_entries
    step_of_key int_of behind_last behind read_digits cleanup save_stored_latents index_embedding
    index_entry remove_saved_latents rollback_cache_entry rollback_metadata rollback_vector settle
    entries step_key int_text decimal_on blob_of estimated_size_bytes sorted_steps insert_step
    Dict.get
done = refl

empty-IsFresh :
    (kv vectors meta : List Bool) → IsFresh toy_strategy toy_kv_laws id (toy_world kv vectors meta)
unfolding Dict.get
empty-IsFresh kv vectors meta s = refl

save-AllOrNothing_example :
    AllOrNothing toy_strategy toy_kv_laws id
      (put_steps toy_strategy toy_kv_laws id
        (toy_world [] [] (false ∷ []))
        (outputs_latents toy_strategy toy_kv_laws id one_latent))
      (toy_world [] [] (false ∷ []))
      (save toy_strategy (toy_world [] [] (false ∷ [])) id (codes "p") (codes "t2v") one_latent)
save-AllOrNothing_example =
    save-AllOrNothing toy_strategy toy_kv_laws id (toy_world [] [] (false ∷ [])) (codes "p")
      (codes "t2v") one_latent (empty-IsFresh [] [] (false ∷ []))

load_payload-save_example :
    load_payload toy_strategy.serialize toy_strategy.deserialize
      (toy_kv_laws.kv_at
        (save toy_strategy (toy_world [] [] []) id (codes "p") (codes "t2v") one_latent).0.kv)
      id
      (single (pos 5))
    ≡ some (record { cache_id = id; step_to_latents = (pos 5, raw (128 ∷ 1 ∷ [])) ∷ [] })
unfolding blob_of
load_payload-save_example =
    load_payload-save toy_strategy toy_kv_laws id (toy_world [] [] []) (codes "p") (codes "t2v")
      one_latent (pos 5) (tensor (1 ∷ [])) (Memᴰ.head refl) five_there done

-- The request's candidate is found again.
abbrev filled :
    World
      (Scheduled (Dict Text Bytes))
      (Scheduled Vectors)
      (Scheduled (Dict Text Registration))
      (List AuditEvent)
filled = record {
  kv = ((codes "a_step5", 128 ∷ 1 ∷ []) ∷ [], []);
  vectors = (
    (
      codes "video" ∷ id ∷ [],
      (
        8 ∷ 9 ∷ [],
        record { prompt = codes "p"; saved_steps = pos 5 ∷ []; task_type = codes "t2v" },
      ),
    )
        ∷ [],
    [],
  );
  meta = ([], []);
  audit = [];
}
