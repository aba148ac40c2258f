-- ===== src/Stores/TensorTier/Mode.antt =====
-- No operation of `TensorStoreTierStore` of stores/tier.py changes its mode.
use cache_seek.Prelude.{
  ◌≡◌, refl, ◌∙◌, ℕ, Bool, true, false, List, [], ◌∷◌, Text, inl, inr, Bool-cases, length, ltb,
  nat_eq, if◌then◌else◌,
}
use cache_seek.Exact.Types.{BlobRef}
use cache_seek.Stores.TensorTier.{
  TensorStore, Item, Job, TensorTier, payload_entries, put_one, put_entries, do_put_payload,
  run_job, join_queue, flush, wait_room, enqueue, put_async,
}

module _ {B T Spec : Type 0} (store : TensorStore B T Spec) where
  abbrev S : Type 0
  S = TensorTier B T Spec

  async_put-put_one :
      (s : S) (key : Text) (t : T) → (put_one store s key t).0.async_put ≡ s.async_put
  unfolding put_one
  async_put-put_one s key t = refl

  async_put-put_entries :
      (s : S) (entries : List (Text × T)) → (put_entries store s entries).0.async_put ≡ s.async_put
  unfolding put_entries
  async_put-put_entries s [] = refl
  async_put-put_entries s ((key, t) ∷ entries) = elim (Bool-cases (put_one store s key t).1) [
    | inl e ↦
        rw e (async_put-put_entries (put_one store s key t).0 entries ∙ async_put-put_one s key t)
    | inr e ↦ rw e (async_put-put_one s key t)
  ]

  async_put-run_job : (s : S) (job : Job T) → (run_job store s job).0.async_put ≡ s.async_put
  unfolding run_job do_put_payload
  async_put-run_job s job = async_put-put_entries s (payload_entries job.locator 0 job.payload)

  async_put-wait_room :
      (max : ℕ) (s : S) (jobs : List (Job T))
      → (wait_room store max s jobs).0.async_put ≡ s.async_put
  unfolding wait_room
  async_put-wait_room max s [] = refl
  async_put-wait_room max s (job ∷ jobs) = elim (Bool-cases (ltb (length (job ∷ jobs)) max)) [
    | inl e ↦ rw e refl
    | inr e ↦ rw e (async_put-wait_room max (run_job store s job).0 jobs ∙ async_put-run_job s job)
  ]

  async_put-enqueue :
      (max : ℕ) (s : S) (job : Job T) → (enqueue store max s job).0.async_put ≡ s.async_put
  unfolding enqueue
  async_put-enqueue max s job = elim (Bool-cases (nat_eq max 0)) [
    | inl e ↦ rw e refl
    | inr e ↦ rw e (async_put-wait_room max s s.queue)
  ]

  mode_of :
      (b m : Bool) (queued : S × List BlobRef) (other : S × (List BlobRef × Bool))
      → queued.0.async_put ≡ m
      → other.0.async_put ≡ m
      → (if b then (queued.0, (queued.1, true)) else other).0.async_put ≡ m
  mode_of true m queued other e h = e
  mode_of false m queued other e h = h

  pub async_put-put_async :
      (s : S) (locator : Text) (payload : List (Item T)) (on_ready : BlobRef)
      → (put_async store s locator payload on_ready).0.async_put ≡ s.async_put
  unfolding put_async do_put_payload
  async_put-put_async s locator payload on_ready =
      mode_of s.async_put s.async_put _ _ (async_put-enqueue s.max_pending s _)
        (async_put-put_entries s (payload_entries locator 0 payload))

  pub flush_async : (s : S) → s.async_put ≡ true → flush store s ≡ join_queue store s
  unfolding flush
  flush_async s e = rw e refl
