-- ===== src/Tests/ServiceTests.antt =====
-- The theorems on the service, its stores and its policies, applied to small states.
use cache_seek.Prelude.{
  ltb, ◌*◌, ◌⊎◌, ℕ, ◌≡◌, refl, false, true, some, none, List, [], ◌∷◌, bytes_eq, codes, arith,
}
use cache_seek.Prelude.Int.{ℤ, pos, int_leb}
use cache_seek.Approx.SkipStep.{SkipConfig, qualifying, select_k_by_score, determine_skip_step}
use cache_seek.Approx.SkipStep.Cap.{IsCap, DeepestSaved, determine_skip_step-DeepestSaved}
use cache_seek.Approx.SkipStep.Staircase.{determine_skip_step-below_tiers}
use cache_seek.Service.Lifecycle.Settings.{CacheMode, OnFull}
use cache_seek.Service.Lifecycle.{
  lookup_strategies, value, Strategy, ServiceConfig, CacheService, reserve_vector_update,
  release_vector_update, save, shutdown,
}
use cache_seek.Service.Lifecycle.Eventual.{IsConsistent, eventual, shutdown-eventual}
use cache_seek.Service.Lifecycle.Barrier.{Threads, Step, Reach, Reach-barrier}
use cache_seek.Service.Lifecycle.FirstHit.{FirstHit, AllPass, lookup_strategies-FirstHit}
use cache_seek.Service.Lifecycle.Wait.{Ended, wait_loop, wait_loop-Ended}
use cache_seek.Service.Eviction.{Candidate, lru_select_victims, fifo_select_victims}
use cache_seek.Service.Eviction.Victims.{Parted, select_victims-Parted}

-- A strategy whose world is the list of the jobs that were saved, the latest first.
abbrev logging : Strategy (List ℕ) ℕ ℕ ℕ
logging = record { lookup = λ w q. (w, value none); save = λ w job. (job ∷ w, value tt) }

abbrev settings : ServiceConfig
settings = record {
  cache_mode = CacheMode.read_write;
  async_save = true;
  on_full = OnFull.drop;
  max_queue_size = 2;
  flush_on_shutdown = true;
}

abbrev one_queued : CacheService (List ℕ) ℕ
one_queued = record {
  world = 3 ∷ [];
  save_queue = 4 ∷ [];
  pending_vector_updates = 1;
  vector_update_idle = false;
  stop_event = false;
}

one_queued-IsConsistent : IsConsistent logging one_queued
one_queued-IsConsistent = record { counted = refl; idle = refl }

-- A full queue whose `put` waits for the worker.
abbrev blocking : ServiceConfig
blocking = record settings { on_full = OnFull.block; max_queue_size = 1 }

shutdown-eventual_example :
    ((shutdown settings logging one_queued).save_queue ≡ [])
    × ((shutdown settings logging one_queued).pending_vector_updates ≡ 0)
    × ((shutdown settings logging one_queued).vector_update_idle ≡ true)
    × ((shutdown settings logging one_queued).world ≡ eventual logging one_queued)
shutdown-eventual_example =
    shutdown-eventual logging settings one_queued refl refl one_queued-IsConsistent

-- One caller reserves, finds the queue full and gives up.
abbrev quiet : Threads (List ℕ) ℕ
quiet = record {
  service = record {
    world = [];
    save_queue = [];
    pending_vector_updates = 0;
    vector_update_idle = true;
    stop_event = false;
  };
  entering = [];
  in_hand = [];
}

abbrev reserved : Threads (List ℕ) ℕ
reserved = record { service = reserve_vector_update quiet.service; entering = 8 ∷ []; in_hand = [] }

abbrev gave_up : Threads (List ℕ) ℕ
gave_up = record { service = release_vector_update reserved.service; entering = []; in_hand = [] }

Reach-barrier_example :
    (gave_up.entering ≡ []) × (gave_up.service.save_queue ≡ []) × (gave_up.in_hand ≡ [])
unfolding reserve_vector_update release_vector_update
Reach-barrier_example =
    Reach-barrier logging 2 (record { counted = refl; idle = refl })
      (Reach.next {v = gave_up} (Reach.next {v = reserved} Reach.here (Step.reserve 8 refl))
        (Step.give_up [] [] 8 refl refl))
      refl

wait_loop-Ended_example :
    Ended 10
      (record { idle = false; elapsed = 0 }
        ∷ record { idle = false; elapsed = 5 }
        ∷ record { idle = false; elapsed = 11 }
        ∷ [])
      (wait_loop 10 (
        record { idle = false; elapsed = 0 }
        ∷ record { idle = false; elapsed = 5 }
        ∷ record { idle = false; elapsed = 11 }
        ∷ []))
wait_loop-Ended_example =
    wait_loop-Ended 10 5 (record { idle = false; elapsed = 0 })
      (record { idle = false; elapsed = 5 } ∷ record { idle = false; elapsed = 11 } ∷ [])
      (omega arith) (omega arith, (omega arith, (omega arith, tt))) (omega arith)

abbrev old_small : Candidate
old_small = record { cache_id = codes "a"; size_bytes = 10; last_access_time = 1; created_at = 9 }

abbrev new_big : Candidate
new_big = record { cache_id = codes "b"; size_bytes = 90; last_access_time = 2; created_at = 3 }

select_victims-Parted_example :
    Parted
      (λ c. c.last_access_time)
      50
      (new_big ∷ old_small ∷ [])
      (lru_select_victims (new_big ∷ old_small ∷ []) (pos 50))
    × Parted
        (λ c. c.created_at)
        50
        (new_big ∷ old_small ∷ [])
        (fifo_select_victims (new_big ∷ old_small ∷ []) (pos 50))
select_victims-Parted_example = select_victims-Parted (new_big ∷ old_small ∷ []) 50

abbrev staircase : SkipConfig
staircase = record {
  max_skip_step = pos 10;
  staircase_skip_enabled = true;
  skip_step_tau_table = (pos 3, pos 63) ∷ (pos 7, pos 85) ∷ [];
}

abbrev snapshots : List ℤ
snapshots = pos 2 ∷ pos 6 ∷ pos 9 ∷ []

determine_skip_step-DeepestSaved_example :
    (cap : ℤ) × IsCap staircase (some (pos 70)) cap
    × DeepestSaved cap snapshots (determine_skip_step staircase snapshots (some (pos 70)))
determine_skip_step-DeepestSaved_example =
    determine_skip_step-DeepestSaved staircase snapshots (some (pos 70))

determine_skip_step-below_tiers_example :
    int_leb
      (determine_skip_step staircase snapshots (some (pos 90)))
      (determine_skip_step staircase snapshots (some (pos 50)))
    ≡ true
unfolding select_k_by_score qualifying
determine_skip_step-below_tiers_example =
    determine_skip_step-below_tiers staircase snapshots (pos 50) (pos 90) refl

-- Answers above 5 are hits; the second strategy doubles the query.
abbrev doubling : Strategy (List ℕ) ℕ ℕ ℕ
doubling = record { lookup = λ w q. (q ∷ w, value (some (q * 2))); save = λ w job. (w, value tt) }

lookup_strategies-FirstHit_example :
    FirstHit
      (ltb 5)
      0
      4
      (logging ∷ doubling ∷ [])
      []
      (lookup_strategies (ltb 5) 0 (logging ∷ doubling ∷ []) [] 4)
    ⊎ (AllPass
          (ltb 5)
          0
          4
          []
          (logging ∷ doubling ∷ [])
          (lookup_strategies (ltb 5) 0 (logging ∷ doubling ∷ []) [] 4).0
        × ((lookup_strategies (ltb 5) 0 (logging ∷ doubling ∷ []) [] 4).1 ≡ 0))
lookup_strategies-FirstHit_example =
    lookup_strategies-FirstHit (ltb 5) 0 4 (logging ∷ doubling ∷ []) []
