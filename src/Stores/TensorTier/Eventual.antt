-- ===== src/Stores/TensorTier/Eventual.antt =====
-- The queue of `TensorStoreTierStore` of stores/tier.py against inline writes.
use cache_seek.Prelude.{
  ◌≡◌, refl, sym, ap, ◌∙◌, ℕ, ◌≤◌, ◌+◌, length-append, Bool, true, false, List, [], ◌∷◌, ◌++◌, Text,
  arith, inl, inr, length, ltb, nat_eq, Bool-cases, if◌then◌else◌,
}
use cache_seek.Exact.Types.{BlobRef}
use cache_seek.Stores.TensorTier.Mode.{async_put-put_async, flush_async}
use cache_seek.Stores.TensorTier.{
  TensorStore, Item, Job, TensorTier, payload_entries, put_one, put_entries, do_put_payload,
  run_job, drain, flush, join_queue, wait_room, enqueue, put_async,
}

append_assoc : {A : Type 0} (xs ys zs : List A) → (xs ++ ys) ++ zs ≡ xs ++ (ys ++ zs)
append_assoc [] ys zs = refl
append_assoc (x ∷ xs) ys zs = ap (λ l. x ∷ l) (append_assoc xs ys zs)

append_nil : {A : Type 0} (xs : List A) → xs ++ [] ≡ xs
append_nil [] = refl
append_nil (x ∷ xs) = ap (λ l. x ∷ l) (append_nil xs)

module _ {B T Spec : Type 0} (store : TensorStore B T Spec) where
  abbrev S : Type 0
  S = TensorTier B T Spec

  abbrev with_queue : List (Job T) → S → S
  with_queue q s = record s { queue = q }

  abbrev requeued : {A : Type 0} → List (Job T) → S × A → S × A
  requeued q (s, a) = (with_queue q s, a)

  choose :
      (q : List (Job T)) (ok : Bool) (r : S × Bool) (s : S)
      → (if ok then requeued q r else requeued q (s, false))
        ≡ requeued q (if ok then r else (s, false))
  choose q true r s = refl
  choose q false r s = refl

  -- The writes do not look at the queue.
  put_entries-with_queue :
      (q : List (Job T)) (s : S) (entries : List (Text × T))
      → put_entries store (with_queue q s) entries ≡ requeued q (put_entries store s entries)
  unfolding put_entries put_one
  put_entries-with_queue q s [] = refl
  put_entries-with_queue q s ((key, t) ∷ entries) =
      let (s', ok) = put_one store s key t in
      ap (λ r. if ok then r else (with_queue q s', false)) (put_entries-with_queue q s' entries)
      ∙ choose q ok (put_entries store s' entries) s'

  run_job-with_queue :
      (q : List (Job T)) (s : S) (job : Job T)
      → run_job store (with_queue q s) job ≡ requeued q (run_job store s job)
  unfolding run_job do_put_payload
  run_job-with_queue q s job =
      ap (λ r. (r.0, if r.1 then job.on_ready ∷ [] else []))
        (put_entries-with_queue q s (payload_entries job.locator 0 job.payload))

  drain-append :
      (s : S) (xs ys : List (Job T))
      → drain store s (xs ++ ys) ≡ (
        (drain store (drain store s xs).0 ys).0,
        (drain store s xs).1 ++ (drain store (drain store s xs).0 ys).1,
      )
  unfolding drain
  drain-append s [] ys = refl
  drain-append s (x ∷ xs) ys =
      let (s1, now) = run_job store s x in
      ap (λ r. (r.0, now ++ r.1)) (drain-append s1 xs ys)
      ∙ ap (λ l. ((drain store (drain store s1 xs).0 ys).0, l))
          (sym (append_assoc now (drain store s1 xs).1 (drain store (drain store s1 xs).0 ys).1))

  -- What is written in the end, and what is published, in order.
  abbrev joined_of : S × List BlobRef → S × List BlobRef
  joined_of (s, refs) = let (s', later) = join_queue store s in (s', refs ++ later)

  wait_room-joined_of :
      (max : ℕ) (s : S) (jobs : List (Job T))
      → joined_of (wait_room store max s jobs) ≡ drain store (with_queue [] s) jobs
  unfolding wait_room join_queue drain
  wait_room-joined_of max s [] = refl
  wait_room-joined_of max s (job ∷ jobs) =
      let (s1, now) = run_job store s job in
      let (s2, later) = wait_room store max s1 jobs in
      let (s3, rest) = join_queue store s2 in
      let step : drain store (with_queue [] s) (job ∷ jobs) ≡ (
        (drain store (with_queue [] s1) jobs).0,
        now ++ (drain store (with_queue [] s1) jobs).1,
      ) =
        ap (λ r. ((drain store r.0 jobs).0, r.1 ++ (drain store r.0 jobs).1))
          (run_job-with_queue [] s job) in
      elim (Bool-cases (ltb (length (job ∷ jobs)) max)) [
        | inl e ↦ rw e refl
        | inr e ↦ rw e (
            ap (λ l. (s3, l)) (append_assoc now later rest)
            ∙ ap (λ r. (r.0, now ++ r.1)) (wait_room-joined_of max s1 jobs)
            ∙ sym step)
      ]

  added-joined_of :
      (s : S) (refs : List BlobRef) (job : Job T)
      → joined_of (with_queue (s.queue ++ job ∷ []) s, refs) ≡ (
          let (s1, now) = joined_of (s, refs) in
          let (s2, own) = run_job store s1 job in (s2, now ++ own))
  unfolding join_queue drain
  added-joined_of s refs job =
      let (s1, now) = drain store (with_queue [] s) s.queue in
      let (s2, own) = run_job store s1 job in
      ap (λ r. (r.0, refs ++ r.1)) (drain-append (with_queue [] s) s.queue (job ∷ []))
      ∙ ap (λ l. (s2, refs ++ (now ++ l))) (append_nil own)
      ∙ ap (λ l. (s2, l)) (sym (append_assoc refs now own))

  chosen :
      (b : Bool) (queued : S × List BlobRef) (other : S × (List BlobRef × Bool))
      → b ≡ true
      → let (s', (refs, ok)) = if b then (queued.0, (queued.1, true)) else other in
        joined_of (s', refs) ≡ joined_of queued
  chosen true queued other e = refl
  chosen false queued other e = ground (arith, e)

  enqueue-joined_of :
      (max : ℕ) (s : S) (job : Job T)
      → joined_of (enqueue store max s job) ≡ (
          let (s1, now) = join_queue store s in
          let (s2, own) = run_job store s1 job in (s2, now ++ own))
  unfolding enqueue join_queue drain
  enqueue-joined_of max s job = elim (Bool-cases (nat_eq max 0)) [
    | inl e ↦ rw e (added-joined_of s [] job)
    | inr e ↦ rw e (
        added-joined_of (wait_room store max s s.queue).0 (wait_room store max s s.queue).1 job
        ∙ ap (λ r. ((run_job store r.0 job).0, r.1 ++ (run_job store r.0 job).1))
            (wait_room-joined_of max s s.queue))
  ]

  abbrev pub job_of : Text → List (Item T) → BlobRef → Job T
  job_of locator payload on_ready = record {
    locator = locator;
    payload = payload;
    on_ready = on_ready;
  }

  abbrev pub all_of : S × List BlobRef → S × List BlobRef
  all_of (s, refs) = let (s', later) = flush store s in (s', refs ++ later)

  -- In async mode, the state and the published handles once a flush has emptied the queue are those of
  -- writing the payload inline behind a flush of what was pending before the call, in the same order
  -- and also where the queue was full.
  pub put_async-eventual :
      (s : S) (locator : Text) (payload : List (Item T)) (on_ready : BlobRef)
      → s.async_put ≡ true
      → let (s', (refs, ok)) = put_async store s locator payload on_ready in
        all_of (s', refs) ≡ (
          let (s1, now) = flush store s in
          let (s2, own) = run_job store s1 (job_of locator payload on_ready) in (s2, now ++ own))
  unfolding put_async
  put_async-eventual s locator payload on_ready e =
      let job = job_of locator payload on_ready in
      let queued = put_async store s locator payload on_ready in
      ap (λ r. (r.0, queued.1.0 ++ r.1))
        (flush_async store queued.0 (async_put-put_async store s locator payload on_ready ∙ e))
      ∙ chosen s.async_put (enqueue store s.max_pending s job) _ e
      ∙ enqueue-joined_of s.max_pending s job
      ∙ ap (λ r. ((run_job store r.0 job).0, r.1 ++ (run_job store r.0 job).1))
          (sym (flush_async store s e))

  wait_room-bounded :
      (max : ℕ) (s : S) (jobs : List (Job T))
      → 1 ≤ max
      → length (wait_room store max s jobs).0.queue + 1 ≤ max
  unfolding wait_room
  wait_room-bounded max s [] h = h
  wait_room-bounded max s (job ∷ jobs) h =
      let ih = wait_room-bounded max (run_job store s job).0 jobs h in
      elim (Bool-cases (ltb (length (job ∷ jobs)) max)) [
        | inl e ↦ rw e (ground (arith, e))
        | inr e ↦ rw e ih
      ]

  -- In async mode a queue with a bound never holds more than that many payloads.
  pub put_async-bounded :
      (s : S) (locator : Text) (payload : List (Item T)) (on_ready : BlobRef)
      → s.async_put ≡ true
      → 1 ≤ s.max_pending
      → length (put_async store s locator payload on_ready).0.queue ≤ s.max_pending
  unfolding put_async enqueue
  put_async-bounded s locator payload on_ready e bound =
      let (s', refs) = wait_room store s.max_pending s s.queue in
      let test : nat_eq s.max_pending 0 ≡ false = ground (arith, bound) in
      ground (
        arith,
        e,
        test,
        wait_room-bounded s.max_pending s s.queue bound,
        length-append s'.queue (job_of locator payload on_ready ∷ []),
      )
