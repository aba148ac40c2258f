-- ===== src/Tests/Backends.antt =====
-- Stores for the tests of the approximate strategy: dicts, with a schedule of the calls that raise.
use cache_seek.Prelude.{
  ◌≡◌, refl, ℕ, Bool, true, false, ◌&&◌, Option, none, some, List, [], ◌∷◌, ◌++◌, Text, Bytes,
  bytes_eq, list_eq, codes, ◌==◌, arith, if◌then◌else◌,
}
use cache_seek.Prelude.Int.{ℤ, pos}
use cache_seek.Dict
use cache_seek.Dict.{Dict, get-put, get-pop, get-put_self}
use cache_seek.Approx.Backends.{
  KvStore, VectorStore, MetadataStore, Donor, Registration, VectorSearchResult, ApproxConfig, World,
  Strategy, AuditEvent, scorer,
}
use cache_seek.Approx.Backends.Laws.{KvLaws}

-- A state, and whether the next calls succeed; behind the end all do.
abbrev pub Scheduled : Type 0 → Type 0
Scheduled S = S × List Bool

abbrev pub act : {S : Type 0} → (S → S) → Scheduled S → Scheduled S × Bool
act f (s, []) = ((f s, []), true)
act f (s, true ∷ rest) = ((f s, rest), true)
act f (s, false ∷ rest) = ((s, rest), false)

abbrev pub toy_kv : KvStore (Scheduled (Dict Text Bytes))
toy_kv = record {
  kv_get = λ s k. some (Dict.get s.0 k);
  kv_put = λ s k b. act (λ d. Dict.put d k b) s;
  kv_remove = λ s k. act (λ d. Dict.pop d k) s;
}

pub toy_at_put :
    (s : Scheduled (Dict Text Bytes)) (k : Text) (b : Bytes) (j : Text)
    → Dict.get (toy_kv.kv_put s k b).0.0 j
      ≡ (if (toy_kv.kv_put s k b).1 && (k == j) then some b else Dict.get s.0 j)
toy_at_put (d, []) k b j = get-put d k j b
toy_at_put (d, true ∷ rest) k b j = get-put d k j b
toy_at_put (d, false ∷ rest) k b j = refl

pub toy_at_remove :
    (s : Scheduled (Dict Text Bytes)) (k j : Text)
    → Dict.get (toy_kv.kv_remove s k).0.0 j
      ≡ (if (toy_kv.kv_remove s k).1 && (k == j) then none else Dict.get s.0 j)
toy_at_remove (d, []) k j = get-pop d k j
toy_at_remove (d, true ∷ rest) k j = get-pop d k j
toy_at_remove (d, false ∷ rest) k j = refl

pub some_injective : {A : Type 0} {x y : A} → some x ≡ some y → x ≡ y
some_injective h = ground (arith, h)

abbrev pub toy_kv_laws : KvLaws toy_kv
toy_kv_laws = record {
  kv_at = λ s k. Dict.get s.0 k;
  at_put = toy_at_put;
  at_remove = toy_at_remove;
  at_get = λ s k o h. some_injective h;
}

-- Vectors by collection and id; a search finds all of a collection, with one similarity.
abbrev pub Vectors : Type 0
Vectors = Dict (List Text) (List ℕ × Donor)

abbrev pub found_in : Text → Vectors → List VectorSearchResult
found_in c [] = []
found_in c (([], v) ∷ rest) = found_in c rest
found_in c ((x ∷ [], v) ∷ rest) = found_in c rest
found_in c ((x ∷ y ∷ z ∷ zs, v) ∷ rest) = found_in c rest
found_in c ((x ∷ id ∷ [], v) ∷ rest) =
    let later = found_in c rest in
    if x == c
    then (record {
      cache_id = id;
      similarity = pos 900_000;
      prompt = v.1.prompt;
      saved_steps = v.1.saved_steps;
      payload = some v.1.prompt;
    })
      ∷ later
    else later

abbrev pub delete_all : Vectors → Text → List Text → Vectors
delete_all d c [] = d
delete_all d c (id ∷ ids) = delete_all (Dict.pop d (c ∷ id ∷ [])) c ids

abbrev pub toy_vectors : VectorStore (Scheduled Vectors) ℕ
toy_vectors = record {
  search = λ s c vec n. (s, some (found_in c s.0));
  ensure_collection = λ s c dim. act (λ d. d) s;
  upsert = λ s c id vec donor. act (λ d. Dict.put d (c ∷ id ∷ []) (vec, donor)) s;
  delete = λ s c ids. act (λ d. delete_all d c ids) s;
}

abbrev pub toy_metadata : MetadataStore (Scheduled (Dict Text Registration))
toy_metadata = record {
  register_cache = λ s id r. act (λ d. Dict.put d id r) s;
  remove_cache = λ s id. act (λ d. Dict.pop d id) s;
  record_access = λ s id. (s, true);
  record_similarity_scores = λ s prompt task_type cache_type stage candidates. (s, false);
  record_hit_pair = λ s pair. (s, false);
}

abbrev pub toy_config : ApproxConfig
toy_config = record {
  skip = record {
    max_skip_step = pos 5;
    staircase_skip_enabled = true;
    skip_step_tau_table = (pos 5, pos 700_000) ∷ [];
  };
  rerank_enabled = true;
  rerank_top_k = pos 2;
  video_similarity_threshold = some (pos 100_000);
  rerank_score_threshold = pos 0;
  video_vector_collection = codes "video";
}

-- Tensors are byte strings and frames numbers; the reranker likes every candidate.
abbrev pub high_scores : List (Option Text) → List (Option ℤ)
high_scores [] = []
high_scores (doc ∷ docs) = some (pos 950_000) ∷ high_scores docs

abbrev pub toy_strategy :
    Strategy
      (Scheduled (Dict Text Bytes))
      (Scheduled Vectors)
      (Scheduled (Dict Text Registration))
      (List AuditEvent)
      ℕ
      Bytes
      ℕ
toy_strategy = record {
  config = toy_config;
  kv_store = toy_kv;
  vector_store = some toy_vectors;
  metadata_manager = toy_metadata;
  prompt_encoder = some (λ prompt. some prompt);
  video_encoder = some (λ frames prompt. some frames);
  reranker = scorer (λ query docs. some (high_scores docs));
  audit_record = λ events event. events ++ event ∷ [];
  serialize = λ t. 128 ∷ t;
  deserialize = λ b. b;
  tensor_bytes = λ t. 4;
}

-- All stores empty, with the schedules of the KV store, the vectors and the metadata.
abbrev pub toy_world :
    List Bool
    → List Bool
    → List Bool
    → World
        (Scheduled (Dict Text Bytes))
        (Scheduled Vectors)
        (Scheduled (Dict Text Registration))
        (List AuditEvent)
toy_world kv vectors meta = record {
  kv = ([], kv);
  vectors = ([], vectors);
  meta = ([], meta);
  audit = [];
}
