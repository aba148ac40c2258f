-- ===== src/Approx/Payload.antt =====
-- reuse/approximate/payload.py: `VideoApproxPayload`. `T` is a tensor of torch; its serialization by
-- `torch.save` and `torch.load` and its size are arguments.
pub mod StepKey
pub mod RoundTrip
use cache_seek.Prelude.{
  ℕ, zero, suc, ◌+◌, ◌/◌, ◌%◌, Option, none, some, List, [], ◌∷◌, ◌++◌, Bytes, Text, codes, ltb,
  length, if◌then◌else◌,
}
use cache_seek.Prelude.Int.{ℤ, pos, negsuc, int_eq}
use cache_seek.Dict
use cache_seek.Dict.{Dict}

pub data Latent (T : Type 0) : Type 0 where
  tensor : T → Latent T
  raw : Bytes → Latent T

pub record VideoApproxPayload (T : Type 0) : Type 0 where
  pub cache_id : Text
  pub step_to_latents : Dict ℤ (Latent T)

-- The digits of a number; `fuel` is at least the number.
unfoldable pub decimal_on : ℕ → ℕ → Text
decimal_on zero n = (48 + n % 10) ∷ []
decimal_on (suc fuel) n =
    let front = decimal_on fuel (n / 10) in
    if ltb n 10 then (48 + n) ∷ [] else front ++ (48 + n % 10) ∷ []

-- `f"{n}"`
unfoldable pub int_text : ℤ → Text
int_text (pos n) = decimal_on n n
int_text (negsuc n) = 45 ∷ decimal_on (suc n) (suc n)

-- `f"{cache_id}_step{int(step)}"`
unfoldable pub step_key : Text → ℤ → Text
step_key cache_id step = cache_id ++ (codes "_step" ++ int_text step)

-- `VideoApproxPartialSpec.single`
abbrev pub single : ℤ → List ℤ
single step = step ∷ []

module _ {T : Type 0} (serialize : T → Bytes) (deserialize : Bytes → T) where
  unfoldable pub blob_of : Latent T → Bytes
  blob_of (tensor t) = serialize t
  blob_of (raw b) = b

  unfoldable pub entries : Text → Dict ℤ (Latent T) → List (Text × Bytes)
  entries cache_id [] = []
  entries cache_id ((step, value) ∷ rest) =
      (step_key cache_id step, blob_of value) ∷ entries cache_id rest

  unfoldable pub to_kv_entries : VideoApproxPayload T → List (Text × Bytes)
  to_kv_entries p = entries p.cache_id p.step_to_latents

  unfoldable pub load_steps :
      Text → (Text → Option Bytes) → List ℤ → Dict ℤ (Latent T) → Dict ℤ (Latent T)
  load_steps cache_id kv_loader [] loaded = loaded
  load_steps cache_id kv_loader (step ∷ steps) loaded = elim (kv_loader (step_key cache_id step)) [
    | none ↦ load_steps cache_id kv_loader steps loaded
    | some b ↦ load_steps cache_id kv_loader steps (Dict.put loaded step (raw b))
  ]

  unfoldable pub from_kv_loader : Text → (Text → Option Bytes) → List ℤ → VideoApproxPayload T
  from_kv_loader cache_id kv_loader steps = record {
    cache_id = cache_id;
    step_to_latents = load_steps cache_id kv_loader steps [];
  }

  -- `none` is the `KeyError`.
  unfoldable pub get_latent_at_step : VideoApproxPayload T → ℤ → Option T
  get_latent_at_step p step = elim (Dict.get p.step_to_latents step) [
    | none ↦ none
    | some value ↦ elim value [ tensor t ↦ some t | raw b ↦ some (deserialize b) ]
  ]

-- `_load_payload` of reuse/approximate/strategy.py: `none` when no step was there.
unfoldable pub load_payload :
    {T : Type 0} (serialize : T → Bytes) (deserialize : Bytes → T)
    → (Text → Option Bytes)
    → Text
    → List ℤ
    → Option (VideoApproxPayload T)
load_payload serialize deserialize kv_get cache_id steps =
    let p = from_kv_loader serialize deserialize cache_id kv_get steps in
    elim p.step_to_latents [ [] ↦ none | entry ∷ rest ↦ some p ]

unfoldable pub estimated_size_bytes : {T : Type 0} → (T → ℕ) → Dict ℤ (Latent T) → ℕ
estimated_size_bytes tensor_bytes [] = 0
estimated_size_bytes tensor_bytes ((step, tensor t) ∷ rest) =
    tensor_bytes t + estimated_size_bytes tensor_bytes rest
estimated_size_bytes tensor_bytes ((step, raw b) ∷ rest) =
    length b + estimated_size_bytes tensor_bytes rest
