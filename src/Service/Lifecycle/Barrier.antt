-- ===== src/Service/Lifecycle/Barrier.antt =====
-- Callers of `save` and the save worker of service/lifecycle.py, interleaved at every point where
-- another thread can run, and the event that `lookup` waits for.
use cache_seek.Prelude.{
  ℕ, ◌+◌, ◌≡◌, refl, true, List, [], ◌∷◌, ◌++◌, length, nat_eq, nat_eq_iff, arith, length-append,
}
use cache_seek.Service.Lifecycle.{
  Strategy, CacheService, reserve_vector_update, release_vector_update, safe_strategy_save,
  has_room,
}

-- The service, with the callers that have reserved and not yet put their job in the queue or given
-- it up, and the jobs that a thread (the worker or a caller) has in hand to save.
pub record Threads (World Job : Type 0) : Type 0 where
  pub service : CacheService World Job
  pub entering : List Job
  pub in_hand : List Job

module _ {World Query Job Answer : Type 0} (primary : Strategy World Query Job Answer)
    (max_queue_size : ℕ) where
  pub data Step (t u : Threads World Job) : Type 0 where
    -- `_reserve_vector_update` of a call of `save`
    reserve :
        (job : Job)
        → u ≡ record {
          service = reserve_vector_update t.service;
          entering = job ∷ t.entering;
          in_hand = t.in_hand;
        }
        → Step t u
    -- `put` or `put_nowait` finds room
    enqueue :
        (before after : List Job) (job : Job)
        → t.entering ≡ before ++ job ∷ after
        → has_room max_queue_size (length t.service.save_queue) ≡ true
        → u ≡ record {
          service = record t.service { save_queue = t.service.save_queue ++ job ∷ [] };
          entering = before ++ after;
          in_hand = t.in_hand;
        }
        → Step t u
    -- a full queue: the job is dropped
    give_up :
        (before after : List Job) (job : Job)
        → t.entering ≡ before ++ job ∷ after
        → u ≡ record {
          service = release_vector_update t.service;
          entering = before ++ after;
          in_hand = t.in_hand;
        }
        → Step t u
    -- a full queue with `sync`, or no queue at all: the caller saves inline
    inline :
        (before after : List Job) (job : Job)
        → t.entering ≡ before ++ job ∷ after
        → u ≡ record { service = t.service; entering = before ++ after; in_hand = job ∷ t.in_hand }
        → Step t u
    -- the worker, or `shutdown`, takes a job
    take_job :
        (job : Job) (rest : List Job)
        → t.service.save_queue ≡ job ∷ rest
        → u ≡ record {
          service = record t.service { save_queue = rest };
          entering = t.entering;
          in_hand = job ∷ t.in_hand;
        }
        → Step t u
    -- a save ends, with or without an exception, and its slot is released
    finish :
        (before after : List Job) (job : Job)
        → t.in_hand ≡ before ++ job ∷ after
        → u ≡ record {
          service =
              release_vector_update
                (record t.service { world = safe_strategy_save primary t.service.world job });
          entering = t.entering;
          in_hand = before ++ after;
        }
        → Step t u

  pub data Reach (t : Threads World Job) : Threads World Job → Type 0 where
    here : Reach t t
    next : {u v : Threads World Job} → Reach t u → Step u v → Reach t v

  abbrev pub unfinished : Threads World Job → ℕ
  unfinished t = length t.service.save_queue + length t.entering + length t.in_hand

  -- The counter counts the unfinished saves, and the event is set exactly when there is none.
  pub record IsCounted (t : Threads World Job) : Type 0 where
    pub counted : t.service.pending_vector_updates ≡ unfinished t
    pub idle : t.service.vector_update_idle ≡ nat_eq (unfinished t) 0

  length-middle :
      (before after : List Job) (job : Job)
      → length (before ++ job ∷ after) ≡ length (before ++ after) + 1
  length-middle [] after job = omega arith
  length-middle (b ∷ bs) after job = omega (arith, length-middle bs after job)

  Step-IsCounted : (t u : Threads World Job) → Step t u → IsCounted t → IsCounted u
  unfolding reserve_vector_update release_vector_update
  Step-IsCounted t u (reserve job e) c = ground arith
  Step-IsCounted t u (enqueue before after job h room e) c =
      ground (arith, length-middle before after job, length-append t.service.save_queue (job ∷ []))
  Step-IsCounted t u (give_up before after job h e) c =
      ground (arith, length-middle before after job)
  Step-IsCounted t u (inline before after job h e) c =
      ground (arith, length-middle before after job)
  Step-IsCounted t u (take_job job rest h e) c = ground arith
  Step-IsCounted t u (finish before after job h e) c =
      ground (arith, length-middle before after job)

  Reach-IsCounted : {t u : Threads World Job} → IsCounted t → Reach t u → IsCounted u
  Reach-IsCounted c here = c
  Reach-IsCounted c (next {u} {v} r st) = Step-IsCounted u v st (Reach-IsCounted c r)

  length-zero : (xs : List Job) → length xs ≡ 0 → xs ≡ []
  length-zero [] h = refl
  length-zero (x ∷ xs) h = ground arith

  idle_barrier :
      (u : Threads World Job)
      → IsCounted u
      → u.service.vector_update_idle ≡ true
      → (u.entering ≡ []) × (u.service.save_queue ≡ []) × (u.in_hand ≡ [])
  idle_barrier u k idle =
      let none_left : unfinished u ≡ 0 = ground (arith, k.idle, nat_eq_iff (unfinished u) 0) in
      (
        length-zero u.entering (omega arith),
        length-zero u.service.save_queue (omega arith),
        length-zero u.in_hand (omega arith),
      )

  -- From a state whose counter counts the unfinished saves, in whatever order callers and the
  -- worker take their steps, when the event is set no save is unfinished: no caller has reserved
  -- without queueing or giving up, nothing is queued, and no save is running.
  pub Reach-barrier :
      {t u : Threads World Job}
      → IsCounted t
      → Reach t u
      → u.service.vector_update_idle ≡ true
      → (u.entering ≡ []) × (u.service.save_queue ≡ []) × (u.in_hand ≡ [])
  Reach-barrier {u = u} c r idle = idle_barrier u (Reach-IsCounted c r) idle
