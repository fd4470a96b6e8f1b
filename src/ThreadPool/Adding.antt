-- ===== src/ThreadPool/Adding.antt =====
-- `AddTask`, whatever the mutexes of the queues.
use native.Mathlib.Decide.{ℕ_discrete}
use cmcs624_fall.Common.{
  ℕ, zero, suc, ◌+◌, ◌%◌, ◌<◌, ◌≡◌, ◌≢◌, refl, sym, subst, ap, ◌∙◌, arith, true, false, not, [],
  ◌∷◌, ◌++◌, inl, inr, beq_refl, beq_of_ne, Bool-cases,
}
use cmcs624_fall.Mutex.{
  free, held, try_lock, unlock, Mutex-cases, Attempt, returned, failed, waiting, assert, ◌>>◌,
}
use cmcs624_fall.Atomic.Queues.{AtomicQueue, push_non_blocking}
use cmcs624_fall.ThreadPool.{StaticThreadPool, set_queue, add_loop, add_task}

-- The task stands at the end of one queue, and nothing else has changed.
pub record IsAdded (task : ℕ) (tp tp' : StaticThreadPool) : Type 0 where
  pub index : ℕ
  pub below : index < tp.thread_count
  pub pushed :
      tp'.queues index ≡ record { queue = (tp.queues index).queue ++ task ∷ []; mutex = free }
  pub others : (j : ℕ) → j ≢ index → tp'.queues j ≡ tp.queues j
  pub kept : (tp'.thread_count ≡ tp.thread_count) × (tp'.stopped ≡ tp.stopped)

push-free :
    (q : AtomicQueue ℕ) (task : ℕ)
    → q.mutex ≡ free
    → push_non_blocking q task ≡ (record { queue = q.queue ++ task ∷ []; mutex = free }, true)
unfolding push_non_blocking try_lock unlock
push-free q task e = rw e refl

push-held : (q : AtomicQueue ℕ) (task : ℕ) → q.mutex ≡ held → push_non_blocking q task ≡ (q, false)
unfolding push_non_blocking try_lock
push-held q task e = rw e refl

-- Putting a queue back where it was.
set_queue-same :
    (tp : StaticThreadPool) (i j : ℕ) → (set_queue tp i (tp.queues i)).queues j ≡ tp.queues j
set_queue-same tp i j = elim (ℕ_discrete j i) [
  | yes e ↦ rw (e, beq_refl i) refl
  | no ne ↦ rw (beq_of_ne j i ne) refl
]

IsAdded-same :
    (task i : ℕ) (tp tp' : StaticThreadPool)
    → IsAdded task (set_queue tp i (tp.queues i)) tp'
    → IsAdded task tp tp'
IsAdded-same task i tp tp' a = record {
  index = a.index;
  below = a.below;
  pushed =
      a.pushed
      ∙ ap (λ (q : AtomicQueue ℕ). record { queue = q.queue ++ task ∷ []; mutex = free })
          (set_queue-same tp i a.index);
  others = λ j ne. a.others j ne ∙ set_queue-same tp i j;
  kept = a.kept;
}

module _ (rand : ℕ → ℕ) (task : ℕ) where
  IsAdded-set_queue :
      (tp : StaticThreadPool) (i : ℕ)
      → i < tp.thread_count
      → IsAdded task tp
          (set_queue tp i (record { queue = (tp.queues i).queue ++ task ∷ []; mutex = free }))
  IsAdded-set_queue tp i lt = record {
    index = i;
    below = lt;
    pushed = rw (beq_refl i) refl;
    others = λ j ne. rw (beq_of_ne j i ne) refl;
    kept = (refl, refl);
  }

  -- One try: it adds the task, or leaves the pool as it was and the loop goes on.
  try-free :
      (fuel pos : ℕ) (tp : StaticThreadPool)
      → (tp.queues (rand pos % tp.thread_count)).mutex ≡ free
      → add_loop rand (suc fuel) pos tp task
        ≡ returned (
            set_queue tp (rand pos % tp.thread_count) (record {
              queue = (tp.queues (rand pos % tp.thread_count)).queue ++ task ∷ [];
              mutex = free;
            }))
  unfolding add_loop
  try-free fuel pos tp e = rw (push-free (tp.queues (rand pos % tp.thread_count)) task e) refl

  try-held :
      (fuel pos : ℕ) (tp : StaticThreadPool)
      → (tp.queues (rand pos % tp.thread_count)).mutex ≡ held
      → add_loop rand (suc fuel) pos tp task
        ≡ add_loop rand fuel
            (suc pos)
            (set_queue tp (rand pos % tp.thread_count) (tp.queues (rand pos % tp.thread_count)))
            task
  unfolding add_loop
  try-held fuel pos tp e = rw (push-held (tp.queues (rand pos % tp.thread_count)) task e) refl

  -- A loop that finds a free queue within its tries returns.
  add_loop-returns :
      (fuel d pos : ℕ) (tp : StaticThreadPool)
      → d < fuel
      → (tp.queues (rand (pos + d) % tp.thread_count)).mutex ≡ free
      → (tp' : StaticThreadPool) × (add_loop rand fuel pos tp task ≡ returned tp')
  add_loop-returns zero d pos tp h fr = absurd (omega arith)
  add_loop-returns (suc fuel) zero pos tp h fr = (
    _,
    try-free fuel pos tp
        (ap (λ p. (tp.queues (rand p % tp.thread_count)).mutex) (omega arith) ∙ fr),
  )
  add_loop-returns (suc fuel) (suc d) pos tp h fr =
      elim (Mutex-cases (tp.queues (rand pos % tp.thread_count)).mutex) [
        | inl e ↦ (_, try-free fuel pos tp e)
        | inr e ↦
            let i : ℕ = rand pos % tp.thread_count in
            let (tp', run) =
              add_loop-returns fuel d (suc pos) (set_queue tp i (tp.queues i)) (omega arith) (
                ap (λ q. q.mutex) (set_queue-same tp i (rand (suc pos + d) % tp.thread_count))
                ∙ ap (λ p. (tp.queues (rand p % tp.thread_count)).mutex) (omega arith)
                ∙ fr) in
            (tp', try-held fuel pos tp e ∙ run)
      ]

  from_returned : StaticThreadPool → Attempt StaticThreadPool → StaticThreadPool
  from_returned tp (returned tp') = tp'
  from_returned tp _ = tp

  waiting≢returned : {tp : StaticThreadPool} → waiting ≡ returned tp → ⊥
  waiting≢returned e = cc

  -- A loop that has returned has added the task.
  add_loop-IsAdded :
      (fuel pos : ℕ) (tp tp' : StaticThreadPool)
      → 0 < tp.thread_count
      → add_loop rand fuel pos tp task ≡ returned tp'
      → IsAdded task tp tp'
  unfolding add_loop from_returned
  add_loop-IsAdded zero pos tp tp' z run = absurd (waiting≢returned run)
  add_loop-IsAdded (suc fuel) pos tp tp' z run =
      let i : ℕ = rand pos % tp.thread_count in
      elim (Mutex-cases (tp.queues i).mutex) [
        | inl e ↦
            subst (IsAdded task tp) (ap (from_returned tp) (sym (try-free fuel pos tp e) ∙ run))
              (IsAdded-set_queue tp i (omega arith))
        | inr e ↦ IsAdded-same task i tp tp' (
            add_loop-IsAdded fuel (suc pos) (set_queue tp i (tp.queues i)) tp' z
              (sym (try-held fuel pos tp e) ∙ run))
      ]

-- `AddTask` on a pool that is not stopped: if one of the first `fuel` queues that it picks is not
-- locked, it returns; and when it has returned, the task stands at the end of one of the queues, and
-- every other queue is as it was.
pub add_task_lem :
    (rand : ℕ → ℕ) (fuel d pos : ℕ) (tp : StaticThreadPool) (task : ℕ)
    → tp.stopped ≡ false
    → 0 < tp.thread_count
    → d < fuel
    → (tp.queues (rand (pos + d) % tp.thread_count)).mutex ≡ free
    → (tp' : StaticThreadPool) × (add_task rand fuel pos tp task ≡ returned tp')
      × IsAdded task tp tp'
unfolding add_task
add_task_lem rand fuel d pos tp task active z lt fr =
    let (tp', run) = add_loop-returns rand task fuel d pos tp lt fr in
    (
      tp',
      ap (λ b. assert (not b) >> add_loop rand fuel pos tp task) active ∙ run,
      add_loop-IsAdded rand task fuel pos tp tp' z run,
    )

failed≢returned : {tp : StaticThreadPool} → failed ≡ returned tp → ⊥
failed≢returned e = cc

-- A call that returned found the pool active.
pub add_task-IsAdded :
    (rand : ℕ → ℕ) (fuel pos : ℕ) (tp tp' : StaticThreadPool) (task : ℕ)
    → 0 < tp.thread_count
    → add_task rand fuel pos tp task ≡ returned tp'
    → (tp.stopped ≡ false) × IsAdded task tp tp'
unfolding add_task
add_task-IsAdded rand fuel pos tp tp' task z run = elim (Bool-cases tp.stopped) [
  | inl e ↦ absurd (failed≢returned (sym (rw e refl) ∙ run))
  | inr e ↦ (e, add_loop-IsAdded rand task fuel pos tp tp' z (sym (rw e refl) ∙ run))
]
