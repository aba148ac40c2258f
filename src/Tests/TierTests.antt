-- ===== src/Tests/TierTests.antt =====
-- The theorems on the adapter of tensor stores, applied to a store of two dicts.
use cache_seek.Prelude.{
  ◌≡◌, ◌≤◌, refl, ap, ◌∙◌, ℕ, true, false, none, some, List, [], ◌∷◌, ◌++◌, ◌==◌, false, Text,
  Bytes, bytes_eq, codes, arith, length,
}
use cache_seek.Dict
use cache_seek.Dict.{Dict, get-put, get-put_self}
use cache_seek.Exact.Types.{BlobHandle, Tier}
use cache_seek.Stores.TensorTier.{
  TensorStore, Item, single, pair, layer, Job, TensorTier, item_entries, payload_entries,
  put_sidecar, put_one, put_entries, do_put_payload, get_layer, run_job, flush, wait_room, enqueue,
  put_async,
}
use cache_seek.Stores.TensorTier.Layers.{TensorLaws}
use cache_seek.Stores.TensorTier.Published.{get_layer-run_job}
use cache_seek.Stores.TensorTier.Eventual.{all_of, job_of, put_async-eventual, put_async-bounded}

abbrev Backend : Type 0
Backend = Dict Text ℕ × Dict Text Bytes

abbrev two_dicts : TensorStore Backend ℕ ℕ
two_dicts = record {
  put_tensor = λ b name t. ((Dict.put b.0 name t, b.1), true);
  get_tensor = λ b name spec. some (Dict.get b.0 name);
  has_bytes = true;
  put_bytes = λ b name x. ((b.0, Dict.put b.1 name x), true);
  get_bytes = λ b name. some (Dict.get b.1 name);
  spec_of = λ t. t;
  dumps = λ spec. spec ∷ [];
  loads = λ raw. none;
}

get-put_other :
    {V : Type 0} (d : Dict Text V) (name other : Text) (x : V)
    → (name == other) ≡ false
    → Dict.get (Dict.put d name x) other ≡ Dict.get d other
get-put_other d name other x apart = ground (arith, get-put d name other x, apart)

abbrev two_dict_laws : TensorLaws two_dicts
two_dict_laws = record {
  Holds = λ b name t. Dict.get b.0 name ≡ some t;
  put_holds = λ b name t ok. get-put_self b.0 name t;
  put_keeps = λ b name t other u apart there. get-put_other b.0 name other t apart ∙ there;
  bytes_keep = λ b name x other u apart there. there;
  bytes_at = λ b name. Dict.get b.1 name;
  bytes_put = λ b name t other apart. refl;
  bytes_bytes = λ b name x other apart. get-put_other b.1 name other x apart;
  gets = λ b name. refl;
  reads = λ b name t there. ap (λ o. some o) there;
}

abbrev waiting : Job ℕ
waiting = record { locator = codes "a"; payload = single 3 ∷ []; on_ready = 0 }

-- A queue of one place, which is taken.
abbrev full : TensorTier Backend ℕ ℕ
full = record {
  tensors = ([], []);
  specs = [];
  async_put = true;
  max_pending = 1;
  queue = waiting ∷ [];
}

abbrev chunk : List (Item ℕ)
chunk = pair 5 6 ∷ single 7 ∷ []

-- The waiting payload is written before the new one finds room.
put_async_test : (put_async two_dicts full (codes "b") chunk 1).1 ≡ (0 ∷ [], true)
unfolding put_async enqueue wait_room run_job do_put_payload put_entries put_one put_sidecar
    payload_entries item_entries
put_async_test = refl

put_async-eventual_example :
    all_of two_dicts (
      (put_async two_dicts full (codes "b") chunk 1).0,
      (put_async two_dicts full (codes "b") chunk 1).1.0,
    )
    ≡ (
      (run_job two_dicts (flush two_dicts full).0 (job_of two_dicts (codes "b") chunk 1)).0,
      (flush two_dicts full).1
          ++ (run_job two_dicts (flush two_dicts full).0 (job_of two_dicts (codes "b") chunk 1)).1,
    )
put_async-eventual_example = put_async-eventual two_dicts full (codes "b") chunk 1 refl

put_async-bounded_example : length (put_async two_dicts full (codes "b") chunk 1).0.queue ≤ 1
put_async-bounded_example = put_async-bounded two_dicts full (codes "b") chunk 1 refl (omega arith)

abbrev handle : BlobHandle
handle = record { locator = codes "b"; tier = Tier.cpu; ready = true; nbytes = 0; n_layers = 2 }

abbrev written : TensorTier Backend ℕ ℕ
written = (run_job two_dicts full (record { locator = codes "b"; payload = chunk; on_ready = 1 })).0

get_layer-run_job_example : get_layer two_dicts written handle 1 ≡ (written, some (layer (some 7)))
unfolding run_job do_put_payload put_entries put_one put_sidecar payload_entries item_entries
    Dict.get
get_layer-run_job_example =
    get_layer-run_job two_dicts two_dict_laws (codes "b") full chunk 1 handle 1 (single 7) refl refl
      (λ t e. (refl, refl)) refl
