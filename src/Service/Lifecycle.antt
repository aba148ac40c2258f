-- ===== src/Service/Lifecycle.antt =====
-- service/lifecycle.py: `CacheService`, one caller and the save worker taking turns.
pub mod Settings
pub mod Eventual
pub mod Barrier
pub mod Wait
pub mod FirstHit
use cache_seek.Prelude.{
  ℕ, zero, suc, ◌+◌, ◌-◌, Bool, true, false, not, ◌&&◌, ◌||◌, Option, none, some, List, [], ◌∷◌,
  ◌++◌, Text, length, ltb, nat_eq, if◌then◌else◌,
}
use cache_seek.Service.Lifecycle.Settings.{
  CacheMode, read_write, read_only, write_only, OnFull, drop, downgrade, block, sync,
}

-- What a call of a strategy gives: a value, or an exception.
pub data Call (A : Type 0) : Type 0 where
  value : A → Call A
  raised : Call A

-- The strategies are not under the service: `World` is their state and that of the backends,
-- `Job` a pair of a query and outputs.
pub record Strategy (World Query Job Answer : Type 0) : Type 0 where
  pub lookup : World → Query → World × Call (Option Answer)
  pub save : World → Job → World × Call (Unit {0})

pub record ServiceConfig : Type 0 where
  pub cache_mode : CacheMode
  pub async_save : Bool
  pub on_full : OnFull
  pub max_queue_size : ℕ
  pub flush_on_shutdown : Bool

-- The mutable state of the service: the save queue, the counter of saves in flight with its event,
-- and the event that stops the worker.
pub record CacheService (World Job : Type 0) : Type 0 where
  pub world : World
  pub save_queue : List Job
  pub pending_vector_updates : ℕ
  pub vector_update_idle : Bool
  pub stop_event : Bool

-- Whether `Queue(maxsize)` with that many items takes one more: 0 is no bound.
unfoldable pub has_room : ℕ → ℕ → Bool
has_room maxsize items = nat_eq maxsize 0 || ltb items maxsize

module _ {World Job : Type 0} where
  unfoldable pub reserve_vector_update : CacheService World Job → CacheService World Job
  reserve_vector_update s = record s {
    pending_vector_updates = s.pending_vector_updates + 1;
    vector_update_idle = false;
  }

  unfoldable pub release_vector_update : CacheService World Job → CacheService World Job
  release_vector_update s =
      let pending = s.pending_vector_updates - 1 in
      record s {
        pending_vector_updates = pending;
        vector_update_idle = if nat_eq pending 0 then true else s.vector_update_idle;
      }

  unfoldable pub append_job : CacheService World Job → Job → CacheService World Job
  append_job s job = record s { save_queue = s.save_queue ++ job ∷ [] }

module _ {World Query Job Answer : Type 0} where
  -- `_safe_strategy_save`: an exception is logged, what was written before it stays.
  unfoldable pub safe_strategy_save : Strategy World Query Job Answer → World → Job → World
  safe_strategy_save strat w job = (strat.save w job).0

  -- `_run_save_inline`
  unfoldable pub run_save_inline :
      Strategy World Query Job Answer → CacheService World Job → Job → CacheService World Job
  run_save_inline strat s job =
      release_vector_update (record s { world = safe_strategy_save strat s.world job })

  -- The rounds of the worker until `Queue.put` finds room, over the items of the queue.
  unfoldable pub wait_room :
      ℕ
      → Strategy World Query Job Answer
      → CacheService World Job
      → List Job
      → CacheService World Job
  wait_room maxsize primary s [] = s
  wait_room maxsize primary s (job ∷ rest) =
      let later =
        wait_room maxsize primary (run_save_inline primary (record s { save_queue = rest }) job)
          rest in
      if has_room maxsize (length (job ∷ rest)) then s else later

  -- A full queue. With `block`, `Queue.put` waits for the worker, and for ever when that has stopped,
  -- which is `none`; else the `except Full` branch.
  unfoldable pub queue_full :
      OnFull
      → ℕ
      → Strategy World Query Job Answer
      → CacheService World Job
      → Job
      → Option (CacheService World Job)
  queue_full sync maxsize primary s job = some (run_save_inline primary s job)
  queue_full drop maxsize primary s job = some (release_vector_update s)
  queue_full downgrade maxsize primary s job = some (release_vector_update s)
  queue_full block maxsize primary s job =
      let waited = wait_room maxsize primary s s.save_queue in
      if s.stop_event then none else some (append_job waited job)

  unfoldable pub put_job :
      ServiceConfig
      → Strategy World Query Job Answer
      → CacheService World Job
      → Job
      → Option (CacheService World Job)
  put_job cfg primary s job =
      let full = queue_full cfg.on_full cfg.max_queue_size primary s job in
      if has_room cfg.max_queue_size (length s.save_queue) then some (append_job s job) else full

  -- With the async queue or without it.
  unfoldable pub save_write :
      Bool
      → ServiceConfig
      → Strategy World Query Job Answer
      → CacheService World Job
      → Job
      → Option (CacheService World Job)
  save_write true cfg primary s job = put_job cfg primary (reserve_vector_update s) job
  save_write false cfg primary s job = some (run_save_inline primary (reserve_vector_update s) job)

  unfoldable pub save_as :
      CacheMode
      → ServiceConfig
      → Strategy World Query Job Answer
      → CacheService World Job
      → Job
      → Option (CacheService World Job)
  save_as read_only cfg primary s job = some s
  save_as read_write cfg primary s job = save_write cfg.async_save cfg primary s job
  save_as write_only cfg primary s job = save_write cfg.async_save cfg primary s job

  -- `primary` is the first strategy.
  unfoldable pub save :
      ServiceConfig
      → Strategy World Query Job Answer
      → CacheService World Job
      → Job
      → Option (CacheService World Job)
  save cfg primary s job = save_as cfg.cache_mode cfg primary s job

  -- One round of `_save_worker_loop`; a `Queue.get` that times out changes nothing.
  unfoldable pub worker_round :
      Strategy World Query Job Answer → CacheService World Job → CacheService World Job
  worker_round primary s = if s.stop_event then s else elim s.save_queue [
    | [] ↦ s
    | job ∷ rest ↦ run_save_inline primary (record s { save_queue = rest }) job
  ]

  -- The loop of `shutdown` that empties the queue, over the items of the queue.
  unfoldable pub flush_queue :
      Strategy World Query Job Answer → List Job → CacheService World Job → CacheService World Job
  flush_queue primary [] s = s
  flush_queue primary (job ∷ rest) s =
      flush_queue primary rest (run_save_inline primary (record s { save_queue = rest }) job)

  -- `shutdown`, once the worker has left its loop, up to the calls of the strategies' own
  -- `shutdown`.
  unfoldable pub shutdown :
      ServiceConfig
      → Strategy World Query Job Answer
      → CacheService World Job
      → CacheService World Job
  shutdown cfg primary s =
      let stopped = if cfg.async_save then record s { stop_event = true } else s in
      if cfg.async_save && cfg.flush_on_shutdown
      then flush_queue primary stopped.save_queue stopped
      else stopped

  module _ (hit : Answer → Bool) (no_hit : Answer) where
    -- The loop of `lookup` over the strategies: an exception or `None` goes on to the next one.
    unfoldable pub lookup_strategies :
        List (Strategy World Query Job Answer) → World → Query → World × Answer
    lookup_strategies [] w q = (w, no_hit)
    lookup_strategies (strat ∷ rest) w q =
        let (w', result) = strat.lookup w q in
        let others = lookup_strategies rest w' q in
        elim result [
          | raised ↦ others
          | value none ↦ others
          | value (some answer) ↦ if hit answer then (w', answer) else others
        ]

    -- `lookup`, from the state that it finds when its wait is over.
    unfoldable pub lookup :
        ServiceConfig
        → List (Strategy World Query Job Answer)
        → CacheService World Job
        → Query
        → CacheService World Job × Answer
    lookup cfg strategies s q = elim cfg.cache_mode [
      | write_only ↦ (s, no_hit)
      | _ ↦
          let (w, answer) = lookup_strategies strategies s.world q in
          (record s { world = w }, answer)
    ]
