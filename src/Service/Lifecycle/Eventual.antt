-- ===== src/Service/Lifecycle/Eventual.antt =====
-- The save queue of service/lifecycle.py against saves that run at once: the world that the queue
-- will make, once it is emptied.
use mathlib.Core.List.{Memᴰ}
use cache_seek.Prelude.{
  ◌<◌, ◌≤◌, ◌⊎◌, false, Option, none, some, ◌≡◌, ◌≢◌, refl, ◌∙◌, true, List, [], ◌∷◌, length,
  nat_eq, arith,
}
use cache_seek.Service.Lifecycle.Settings.{read_only, OnFull, drop, downgrade, block, sync}
use cache_seek.Service.Lifecycle.{
  Strategy, ServiceConfig, CacheService, release_vector_update, safe_strategy_save, run_save_inline,
  worker_round, flush_queue, shutdown,
}

module _ {World Query Job Answer : Type 0} (primary : Strategy World Query Job Answer) where
  -- The saves of a list of jobs, one after the other.
  abbrev pub save_all : World → List Job → World
  save_all w [] = w
  save_all w (job ∷ jobs) = save_all (safe_strategy_save primary w job) jobs

  abbrev pub eventual : CacheService World Job → World
  eventual s = save_all s.world s.save_queue

  -- Between calls of the service the counter is the length of the queue, and the event is set
  -- exactly when it is 0.
  pub record IsConsistent (s : CacheService World Job) : Type 0 where
    pub counted : s.pending_vector_updates ≡ length s.save_queue
    pub idle : s.vector_update_idle ≡ nat_eq (length s.save_queue) 0

  -- The queue takes one more item.
  abbrev pub HasRoom : ServiceConfig → CacheService World Job → Type 0
  HasRoom cfg s = (cfg.max_queue_size ≡ 0) ⊎ (length s.save_queue < cfg.max_queue_size)

  abbrev pub IsFull : ServiceConfig → CacheService World Job → Type 0
  IsFull cfg s = (cfg.max_queue_size ≢ 0) × (cfg.max_queue_size ≤ length s.save_queue)

  -- The job is saved at once, before all that is queued.
  abbrev pub First : CacheService World Job → Job → Option (CacheService World Job) → Type 0
  First s job r =
      (s' : CacheService World Job) × (r ≡ some s')
      × (s'.world ≡ safe_strategy_save primary s.world job)
      × (s'.save_queue ≡ s.save_queue)

  -- The job will be saved after all that is queued, and stands in the queue.
  abbrev pub Last : CacheService World Job → Job → Option (CacheService World Job) → Type 0
  Last s job r =
      (s' : CacheService World Job) × (r ≡ some s')
      × (eventual s' ≡ safe_strategy_save primary (eventual s) job)
      × Memᴰ job s'.save_queue

  -- The job is given up.
  abbrev pub Dropped : CacheService World Job → Option (CacheService World Job) → Type 0
  Dropped s r =
      (s' : CacheService World Job) × (r ≡ some s')
      × (s'.world ≡ s.world)
      × (s'.save_queue ≡ s.save_queue)

  abbrev pub Overflows :
      OnFull → CacheService World Job → Job → Option (CacheService World Job) → Type 0
  Overflows sync s job r = First s job r
  Overflows drop s job r = Dropped s r
  Overflows downgrade s job r = Dropped s r
  Overflows block s job r =
      ((s.stop_event ≡ true) × (r ≡ none)) ⊎ ((s.stop_event ≡ false) × Last s job r)

  -- A save with the queue: at the end of the queue where there is room, and by `on_full` where there is
  -- none.
  abbrev pub Queues :
      ServiceConfig → CacheService World Job → Job → Option (CacheService World Job) → Type 0
  Queues cfg s job r =
      (HasRoom cfg s × Last s job r) ⊎ (IsFull cfg s × Overflows cfg.on_full s job r)

  -- What a save does, by the configuration and the queue.
  abbrev pub Saves :
      ServiceConfig → CacheService World Job → Job → Option (CacheService World Job) → Type 0
  Saves cfg s job r =
      ((cfg.cache_mode ≡ read_only) × (r ≡ some s))
      ⊎ ((cfg.cache_mode ≢ read_only)
          × (((cfg.async_save ≡ false) × First s job r)
              ⊎ ((cfg.async_save ≡ true) × Queues cfg s job r)))

  -- From a consistent state a round of the worker leaves a consistent state, and the world that the
  -- emptied queue will make is the same.
  pub worker_round_lem :
      (s : CacheService World Job)
      → IsConsistent s
      → IsConsistent (worker_round primary s) × (eventual (worker_round primary s) ≡ eventual s)
  unfolding worker_round run_save_inline release_vector_update
  worker_round_lem s c = ground arith

  run_queued :
      (job : Job) (jobs : List Job) (s : CacheService World Job)
      → s.save_queue ≡ job ∷ jobs
      → IsConsistent s
      → IsConsistent (run_save_inline primary (record s { save_queue = jobs }) job)
        × ((run_save_inline primary (record s { save_queue = jobs }) job).save_queue ≡ jobs)
        × (eventual (run_save_inline primary (record s { save_queue = jobs }) job) ≡ eventual s)
  unfolding run_save_inline release_vector_update
  run_queued job jobs s e c = ground arith

  flush_queue_lem :
      (jobs : List Job) (s : CacheService World Job)
      → s.save_queue ≡ jobs
      → IsConsistent s
      → ((flush_queue primary jobs s).save_queue ≡ [])
        × IsConsistent (flush_queue primary jobs s)
        × ((flush_queue primary jobs s).world ≡ eventual s)
  unfolding flush_queue
  flush_queue_lem [] s e c = (e, c, ground arith)
  flush_queue_lem (job ∷ jobs) s e c =
      let (c', q, v) = run_queued job jobs s e c in
      let (done, c'', w) =
        flush_queue_lem jobs (run_save_inline primary (record s { save_queue = jobs }) job) q c' in
      (done, c'', w ∙ v)

  -- With the async worker and `flush_on_shutdown`, once the worker has left its loop in a
  -- consistent state, a shutdown runs every queued save in the order of the queue: the queue is
  -- empty, nothing is pending, the event is set, and the world is the one that the queued saves
  -- make, one after the other.
  pub shutdown-eventual :
      (cfg : ServiceConfig) (s : CacheService World Job)
      → cfg.async_save ≡ true
      → cfg.flush_on_shutdown ≡ true
      → IsConsistent s
      → ((shutdown cfg primary s).save_queue ≡ [])
        × ((shutdown cfg primary s).pending_vector_updates ≡ 0)
        × ((shutdown cfg primary s).vector_update_idle ≡ true)
        × ((shutdown cfg primary s).world ≡ eventual s)
  unfolding shutdown
  shutdown-eventual cfg s a fl c =
      let (done, c', w) =
        flush_queue_lem s.save_queue (record s { stop_event = true }) refl
          (record { counted = c.counted; idle = c.idle }) in
      ground (arith, done, c'.counted, c'.idle, w)
