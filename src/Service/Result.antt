-- ===== src/Service/Result.antt =====
-- service/result.py: what a lookup returns. `Payload` is the strategy's payload, `Score` its floats,
-- `Node` and `Space` the trie handles of `FastForward`.
use cache_seek.Prelude.{ℕ, Bool, true, false, Option, none, some, List, [], ◌∷◌, Text}

pub data ResumeHint (Node Space : Type 0) : Type 0 where
  skip_step : ℕ → ResumeHint Node Space
  load_state_snapshot : Text → Option ℕ → ResumeHint Node Space
  return_cached_output : Text → Text → ResumeHint Node Space
  resume_kv_chain : Text → ℕ → ℕ → Option Text → Option (List Text) → ResumeHint Node Space
  reuse_cross_attn_kv : Text → List Text → ResumeHint Node Space
  reuse_embedding : Text → List Text → List ℕ → ResumeHint Node Space
  fast_forward : ℕ → Option Node → Option Space → ResumeHint Node Space
  no_op : Text → ResumeHint Node Space

pub record LookupResult (Payload Score Node Space : Type 0) : Type 0 where
  pub hit : Bool
  pub payload : Option Payload
  pub resume_hint : Option (ResumeHint Node Space)
  pub matched_cache_id : Option Text
  pub matched_score : Option Score
  pub matched_similarity : Option Score
  pub cached_prompt : Option Text
  pub miss_reason : Option Text

-- `reason or None`
abbrev pub or_none : Text → Option Text
or_none [] = none
or_none (c ∷ cs) = some (c ∷ cs)

module _ {Payload Score Node Space : Type 0} where
  abbrev pub miss : Text → LookupResult Payload Score Node Space
  miss reason = record {
    hit = false;
    payload = none;
    resume_hint = none;
    matched_cache_id = none;
    matched_score = none;
    matched_similarity = none;
    cached_prompt = none;
    miss_reason = or_none reason;
  }

  abbrev pub hit_skip_step :
      Payload → ℕ → Text → Score → Score → Text → LookupResult Payload Score Node Space
  hit_skip_step payload k cache_id score similarity cached_prompt = record {
    hit = true;
    payload = some payload;
    resume_hint = some (skip_step k);
    matched_cache_id = some cache_id;
    matched_score = some score;
    matched_similarity = some similarity;
    cached_prompt = some cached_prompt;
    miss_reason = none;
  }

  abbrev pub hit_fast_forward :
      ℕ → Option Node → Option Space → LookupResult Payload Score Node Space
  hit_fast_forward k node namespace = record {
    hit = true;
    payload = none;
    resume_hint = some (fast_forward k node namespace);
    matched_cache_id = none;
    matched_score = none;
    matched_similarity = none;
    cached_prompt = none;
    miss_reason = none;
  }
