-- ===== src/Approx/Backends.antt =====
-- What reuse/approximate/strategy.py is constructed with: the protocols of service/interfaces/, the
-- encoders and the reranker. An operation's `Bool` is false, and an `Option` around a result `none`,
-- where the call raises. Scores are whole numbers of a millionth.
pub mod Laws
pub mod Memory
use cache_seek.Prelude.{ℕ, Bool, Option, List, Text, Bytes}
use cache_seek.Prelude.Int.{ℤ}
use cache_seek.Approx.SkipStep.{SkipConfig}

-- The payload of a vector.
pub record Donor : Type 0 where
  pub prompt : Text
  pub saved_steps : List ℤ
  pub task_type : Text

-- `VectorSearchResult` of service/cache_types.py; `payload` is the prompt that its dict has, if any.
pub record VectorSearchResult : Type 0 where
  pub cache_id : Text
  pub similarity : ℤ
  pub prompt : Text
  pub saved_steps : List ℤ
  pub payload : Option Text

pub record KvStore (K : Type 0) : Type 0 where
  pub kv_get : K → Text → Option (Option Bytes)
  pub kv_put : K → Text → Bytes → K × Bool
  pub kv_remove : K → Text → K × Bool

-- `E` is a component of a vector.
pub record VectorStore (V E : Type 0) : Type 0 where
  pub search : V → Text → List E → ℕ → V × Option (List VectorSearchResult)
  pub ensure_collection : V → Text → ℕ → V × Bool
  pub upsert : V → Text → Text → List E → Donor → V × Bool
  pub delete : V → Text → List Text → V × Bool

-- The arguments of `register_cache` behind the id; a size in MB is held as its number of bytes.
pub record Registration : Type 0 where
  pub prompt : Text
  pub saved_steps : List ℤ
  pub size_bytes : ℕ
  pub num_frames : ℤ
  pub cache_type : Text

-- An element of `candidates=`; `rerank_score` is absent in the stage of the vector search.
pub record Candidate : Type 0 where
  pub cache_id : Text
  pub similarity : ℤ
  pub rerank_score : Option ℤ
  pub prompt : Text
  pub saved_steps : List ℤ

-- The arguments of `record_hit_pair`.
pub record HitPair : Type 0 where
  pub request_prompt : Text
  pub cache_id : Text
  pub cached_prompt : Text
  pub similarity : ℤ
  pub task_type : Text
  pub cache_type : Text
  pub skip_step : ℤ

pub record MetadataStore (M : Type 0) : Type 0 where
  pub register_cache : M → Text → Registration → M × Bool
  pub remove_cache : M → Text → M × Bool
  pub record_access : M → Text → M × Bool
  pub record_similarity_scores : M → Text → Text → Text → Text → List Candidate → M × Bool
  pub record_hit_pair : M → HitPair → M × Bool

-- What `_audit_emit` passes to the log.
pub data AuditEvent : Type 0 where
  kv_missing_after_vector_hit : Text → ℤ → ℤ → ℤ → AuditEvent
  lookup_hit : Text → Text → ℤ → ℤ → ℤ → AuditEvent
  save_stored : Text → Text → List ℤ → ℕ → ℤ → AuditEvent

-- A document is its text, if it has one; a score is `none` where `float` fails on it.
pub data Reranker : Type 0 where
  unavailable : Reranker
  without_score_mm : Reranker
  scorer : (Text → List (Option Text) → Option (List (Option ℤ))) → Reranker

-- The fields of `CacheConfig` that the strategy reads.
pub record ApproxConfig : Type 0 where
  pub skip : SkipConfig
  pub rerank_enabled : Bool
  pub rerank_top_k : ℤ
  pub video_similarity_threshold : Option ℤ
  pub rerank_score_threshold : ℤ
  pub video_vector_collection : Text

-- The stores' states.
pub record World (K V M A : Type 0) : Type 0 where
  pub kv : K
  pub vectors : V
  pub meta : M
  pub audit : A

-- The attributes of the strategy. `T` is a tensor, `Frame` a frame of a video.
pub record Strategy (K V M A E T Frame : Type 0) : Type 0 where
  pub config : ApproxConfig
  pub kv_store : KvStore K
  pub vector_store : Option (VectorStore V E)
  pub metadata_manager : MetadataStore M
  pub prompt_encoder : Option (Text → Option (List E))
  pub video_encoder : Option (List Frame → Text → Option (List E))
  pub reranker : Reranker
  pub audit_record : A → AuditEvent → A
  pub serialize : T → Bytes
  pub deserialize : Bytes → T
  pub tensor_bytes : T → ℕ
