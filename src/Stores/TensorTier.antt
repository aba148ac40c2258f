-- ===== src/Stores/TensorTier.antt =====
-- `TensorStoreTierStore` of stores/tier.py. The tensor store that it adapts and the JSON of a view
-- spec are arguments; `T` is a tensor.
pub mod LayerKey
pub mod Layers
pub mod Entries
pub mod Published
pub mod Mode
pub mod Eventual
use cache_seek.Prelude.{
  ℕ, suc, ◌+◌, Bool, true, false, Option, none, some, List, [], ◌∷◌, ◌++◌, Text, Bytes, bytes_eq,
  codes, length, ltb, nat_eq, if◌then◌else◌,
}
use cache_seek.Dict
use cache_seek.Dict.{Dict}
use cache_seek.Exact.Types.{BlobHandle, BlobRef}
use cache_seek.Approx.Payload.{decimal_on}

-- The backend. A `Bool` is false, and an `Option` around a result `none`, where the call raises;
-- `has_bytes` says that it has `put` and `get` of bytes.
pub record TensorStore (B T Spec : Type 0) : Type 0 where
  pub put_tensor : B → Text → T → B × Bool
  pub get_tensor : B → Text → Spec → Option (Option T)
  pub has_bytes : Bool
  pub put_bytes : B → Text → Bytes → B × Bool
  pub get_bytes : B → Text → Option (Option Bytes)
  pub spec_of : T → Spec
  pub dumps : Spec → Bytes
  pub loads : Bytes → Option Spec

-- The payload of a layer.
pub data Item (T : Type 0) : Type 0 where
  single : T → Item T
  pair : T → T → Item T

-- What `get_layer` returns.
pub data Layer (T : Type 0) : Type 0 where
  layer : Option T → Layer T
  layer_pair : T → Option T → Layer T

-- An element of the queue; the callback is the handle that it publishes.
pub record Job (T : Type 0) : Type 0 where
  pub locator : Text
  pub payload : List (Item T)
  pub on_ready : BlobRef

-- A queue of a size of 0 has no bound.
pub record TensorTier (B T Spec : Type 0) : Type 0 where
  pub tensors : B
  pub specs : Dict Text Spec
  pub async_put : Bool
  pub max_pending : ℕ
  pub queue : List (Job T)

-- `f"{locator}:L{layer}"`
unfoldable pub layer_key : Text → ℕ → Text
layer_key locator l = locator ++ (codes ":L" ++ decimal_on l l)

-- The keys and tensors of a payload, from the layer `l` on.
unfoldable pub item_entries : {T : Type 0} → Text → ℕ → Item T → List (Text × T)
item_entries locator l (single t) = (layer_key locator l, t) ∷ []
item_entries locator l (pair k v) =
    (layer_key locator l ++ codes ":k", k) ∷ (layer_key locator l ++ codes ":v", v) ∷ []

unfoldable pub payload_entries : {T : Type 0} → Text → ℕ → List (Item T) → List (Text × T)
payload_entries locator l [] = []
payload_entries locator l (item ∷ items) =
    item_entries locator l item ++ payload_entries locator (suc l) items

module _ {B T Spec : Type 0} (store : TensorStore B T Spec) where
  -- The sidecar, whose errors are suppressed.
  unfoldable pub put_sidecar : Bool → B → Text → Spec → B
  put_sidecar false b key spec = b
  put_sidecar true b key spec = (store.put_bytes b (key ++ codes ":spec") (store.dumps spec)).0

  unfoldable pub put_one : TensorTier B T Spec → Text → T → TensorTier B T Spec × Bool
  put_one s key t =
      let spec = store.spec_of t in
      let (b, ok) = store.put_tensor s.tensors key t in
      (
        record s {
          specs = Dict.put s.specs key spec;
          tensors = if ok then put_sidecar store.has_bytes b key spec else b;
        },
        ok,
      )

  -- The loop of `_do_put_payload`, up to the first call that raises.
  unfoldable pub put_entries : TensorTier B T Spec → List (Text × T) → TensorTier B T Spec × Bool
  put_entries s [] = (s, true)
  put_entries s ((key, t) ∷ entries) =
      let (s', ok) = put_one s key t in
      let rest = put_entries s' entries in if ok then rest else (s', false)

  unfoldable pub do_put_payload :
      TensorTier B T Spec → Text → List (Item T) → TensorTier B T Spec × Bool
  do_put_payload s locator payload = put_entries s (payload_entries locator 0 payload)

  -- The spec that a sidecar has; `none` where its read or its JSON raises.
  unfoldable pub parse_sidecar : Option (Option Bytes) → Option (Option Spec)
  parse_sidecar none = none
  parse_sidecar (some none) = some none
  parse_sidecar (some (some raw)) = elim (store.loads raw) [
    | none ↦ none
    | some spec ↦ some (some spec)
  ]

  unfoldable pub read_sidecar : Bool → B → Text → Option (Option Spec)
  read_sidecar false b key = some none
  read_sidecar true b key = parse_sidecar (store.get_bytes b (key ++ codes ":spec"))

  -- `_get_one` behind the spec.
  unfoldable pub get_with :
      Option (Option Spec) → TensorTier B T Spec → Text → TensorTier B T Spec × Option (Option T)
  get_with none s key = (s, none)
  get_with (some none) s key = (s, some none)
  get_with (some (some spec)) s key =
      (record s { specs = Dict.put s.specs key spec }, store.get_tensor s.tensors key spec)

  unfoldable pub get_known :
      Option Spec → TensorTier B T Spec → Text → TensorTier B T Spec × Option (Option T)
  get_known (some spec) s key = (s, store.get_tensor s.tensors key spec)
  get_known none s key = get_with (read_sidecar store.has_bytes s.tensors key) s key

  unfoldable pub get_one : TensorTier B T Spec → Text → TensorTier B T Spec × Option (Option T)
  get_one s key = get_known (Dict.get s.specs key) s key

  -- Behind the read of the key `:k`.
  unfoldable pub get_rest :
      TensorTier B T Spec × Option (Option T) → Text → TensorTier B T Spec × Option (Layer T)
  get_rest (s, none) key = (s, none)
  get_rest (s, some (some k)) key =
      let (s', v) = get_one s (key ++ codes ":v") in
      (s', elim v [ none ↦ none | some o ↦ some (layer_pair k o) ])
  get_rest (s, some none) key =
      let (s', t) = get_one s key in (s', elim t [ none ↦ none | some o ↦ some (layer o) ])

  unfoldable pub get_layer :
      TensorTier B T Spec → BlobHandle → ℕ → TensorTier B T Spec × Option (Layer T)
  get_layer s handle l =
      let key = layer_key handle.locator l in get_rest (get_one s (key ++ codes ":k")) key

  unfoldable pub put_skeleton : TensorTier B T Spec → Text → T → TensorTier B T Spec × Bool
  put_skeleton s locator latent = put_one s locator latent

  unfoldable pub get_skeleton : TensorTier B T Spec → Text → TensorTier B T Spec × Option (Option T)
  get_skeleton s locator = get_one s locator

  -- A no-op: reclamation is not implemented.
  unfoldable pub free : TensorTier B T Spec → BlobHandle → TensorTier B T Spec
  free s handle = s

  -- The writes of a job and the callbacks that it runs.
  unfoldable pub run_job : TensorTier B T Spec → Job T → TensorTier B T Spec × List BlobRef
  run_job s job =
      let (s', ok) = do_put_payload s job.locator job.payload in
      (s', if ok then job.on_ready ∷ [] else [])

  -- The rounds of `_drain` on these jobs, which have left the queue.
  unfoldable pub drain : TensorTier B T Spec → List (Job T) → TensorTier B T Spec × List BlobRef
  drain s [] = (s, [])
  drain s (job ∷ jobs) =
      let (s1, now) = run_job s job in let (s2, later) = drain s1 jobs in (s2, now ++ later)

  -- `self._q.join()` waits for the worker to empty the queue.
  unfoldable pub join_queue : TensorTier B T Spec → TensorTier B T Spec × List BlobRef
  join_queue s = drain (record s { queue = [] }) s.queue

  unfoldable pub flush : TensorTier B T Spec → TensorTier B T Spec × List BlobRef
  flush s = let joined = join_queue s in if s.async_put then joined else (s, [])

  -- The rounds of the worker while the queue is full.
  unfoldable pub wait_room :
      ℕ → TensorTier B T Spec → List (Job T) → TensorTier B T Spec × List BlobRef
  wait_room max s [] = (record s { queue = [] }, [])
  wait_room max s (job ∷ jobs) =
      let (s1, now) = run_job s job in
      let (s2, later) = wait_room max s1 jobs in
      if ltb (length (job ∷ jobs)) max
      then (record s { queue = job ∷ jobs }, [])
      else (s2, now ++ later)

  unfoldable pub enqueue : ℕ → TensorTier B T Spec → Job T → TensorTier B T Spec × List BlobRef
  enqueue max s job =
      let (s', refs) = if nat_eq max 0 then (s, []) else wait_room max s s.queue in
      (record s' { queue = s'.queue ++ job ∷ [] }, refs)

  -- `put_async`; the `Bool` is false where an inline write raises.
  unfoldable pub put_async :
      TensorTier B T Spec
      → Text
      → List (Item T)
      → BlobRef
      → TensorTier B T Spec × (List BlobRef × Bool)
  put_async s locator payload on_ready =
      let job : Job T = record { locator = locator; payload = payload; on_ready = on_ready } in
      let (queued, refs) = enqueue s.max_pending s job in
      let (written, ok) = do_put_payload s locator payload in
      if s.async_put
      then (queued, (refs, true))
      else (written, (if ok then on_ready ∷ [] else [], ok))
