-- ===== src/ThreadPool/Pool/Tasks.antt =====
-- The pool at work: where its tasks are.
use native.Mathlib.Decide.{ℕ_discrete}
use cmcs624_fall.Common.{
  ℕ, zero, suc, ◌+◌, ◌<◌, ◌≡◌, refl, sym, subst, ap, ◌∙◌, arith, true, false, [], ◌∷◌,
  if◌then◌else◌, ◌==◌, beq_refl, beq_of_ne, count, count-append,
}
use cmcs624_fall.Common.Sums.{total, total-same, total-change, total-zero}
use cmcs624_fall.Mutex.{free}
use cmcs624_fall.Atomic.Queues.{AtomicQueue}
use cmcs624_fall.Database.{update}
use cmcs624_fall.ThreadPool.{StaticThreadPool, new_pool, set_queue, Thread, after_pop, round}
use cmcs624_fall.ThreadPool.Adding.{IsAdded, add_task-IsAdded}
use cmcs624_fall.ThreadPool.Pool.{
  System, step_thread, Step, adds, works, misses, stops, runs_left, ends, init, Reach, start, later,
}
use cmcs624_fall.ThreadPool.Pool.Turns.{
  share, IsBackoff, Inv, Works, after_pop-Works, round-Works, run_left-Works,
}

true≢false : true ≡ false → ⊥
true≢false e = cc

-- A property of what stands at every index, after a change at one.
at_update :
    {A : Type 0} (P : ℕ → A → Type 0) (f : ℕ → A) (i : ℕ) (a : A)
    → P i a
    → ((j : ℕ) → P j (f j))
    → (j : ℕ) → P j (update f i a j)
at_update P f i a here rest j = elim (ℕ_discrete j i) [
  | yes e ↦
      subst (λ b. P j (if b then a else f j)) (sym (ap (λ k. j == k) (sym e) ∙ beq_refl j))
        (subst (λ k. P k a) (sym e) here)
  | no ne ↦ subst (λ b. P j (if b then a else f j)) (sym (beq_of_ne j i ne)) (rest j)
]

module _ (n : ℕ) (s : System) (inv : Inv n s) (i : ℕ) (lt : i < n) (active : s.done i ≡ false) where
  -- What stands in the place of thread `i` after the step, and in any other.
  share-update :
      (q : AtomicQueue ℕ) (t : Thread)
      → ((x : ℕ) → count x q.queue + count x t.ran ≡ share s x i)
      → (x j : ℕ) → share s x j ≡ share (step_thread s i (set_queue s.pool i q, t)) x j
  share-update q t same x j = elim (ℕ_discrete j i) [
    | yes e ↦ rw (e, beq_refl i) (sym (same x))
    | no ne ↦ rw (beq_of_ne j i ne) refl
  ]

  -- A step of one thread moves tasks inside that thread's share.
  set_queue-Inv :
      (q : AtomicQueue ℕ) (t : Thread)
      → q.mutex ≡ free
      → t.queue_id ≡ i
      → IsBackoff t.sleep_duration
      → ((x : ℕ) → count x q.queue + count x t.ran ≡ share s x i)
      → Inv n (step_thread s i (set_queue s.pool i q, t))
  set_queue-Inv q t unlocked own backoff same = record {
    size = inv.size;
    unlocked = at_update (λ _ a. a.mutex ≡ free) s.pool.queues i q unlocked inv.unlocked;
    own = at_update (λ j a. a.queue_id ≡ j) s.thread i t own inv.own;
    backoff = at_update (λ _ a. IsBackoff a.sleep_duration) s.thread i t backoff inv.backoff;
    tasks = λ x.
        inv.tasks x
        ∙ total-same n (share s x) (share (step_thread s i (set_queue s.pool i q, t)) x)
            (λ j _. share-update q t same x j);
    ended =
        at_update (λ j a. s.done j ≡ true → (s.pool.stopped ≡ true) × (a.queue ≡ [])) s.pool.queues
          i q (λ d. absurd (true≢false (sym d ∙ active))) inv.ended;
  }

  thread-Inv : (r : StaticThreadPool × Thread) → Works s i r → Inv n (step_thread s i r)
  thread-Inv (pool, t) w =
      subst (λ p. Inv n (step_thread s i (p, t))) (sym w.pool)
        (set_queue-Inv w.queue t w.unlocked w.own w.backoff w.share)

-- A task that is added joins the share of one thread.
module _ (n : ℕ) (s : System) (inv : Inv n s) (task : ℕ) (pool : StaticThreadPool) where
  added-tasks :
      (x : ℕ)
      → IsAdded task s.pool pool
      → count x (task ∷ s.added)
        ≡ total n (share (record s { pool = pool; added = task ∷ s.added }) x)
  added-tasks x a =
      let s' : System = record s { pool = pool; added = task ∷ s.added } in
      let here : share s' x a.index ≡ share s x a.index + (if x == task then 1 else 0) =
        ap (λ q. count x q.queue + count x (s.thread a.index).ran) a.pushed
        ∙ ap (λ c. c + count x (s.thread a.index).ran)
            (count-append x (s.pool.queues a.index).queue (task ∷ []))
        ∙ omega arith in
      omega (
        arith,
        inv.tasks x,
        here,
        total-change n (share s x) (share s' x) a.index (subst (λ m. a.index < m) inv.size a.below)
            (λ j ne. ap (λ q. count x q.queue + count x (s.thread j).ran) (sym (a.others j ne))),
      )

  adds-Inv :
      s.pool.stopped ≡ false
      → IsAdded task s.pool pool
      → Inv n (record s { pool = pool; added = task ∷ s.added })
  adds-Inv active a = record {
    size = a.kept.0 ∙ inv.size;
    unlocked = λ j. elim (ℕ_discrete j a.index) [
      | yes e ↦ ap (λ k. (pool.queues k).mutex) e ∙ ap (λ q. q.mutex) a.pushed
      | no ne ↦ ap (λ q. q.mutex) (a.others j ne) ∙ inv.unlocked j
    ];
    own = inv.own;
    backoff = inv.backoff;
    tasks = λ x. added-tasks x a;
    ended = λ j d. absurd (true≢false (sym (inv.ended j d).0 ∙ active));
  }

Step-Inv : {n : ℕ} {s s' : System} → 0 < n → Inv n s → Step s s' → Inv n s'
Step-Inv {n} {s} z inv (adds rand fuel pos task {pool} run) =
    let (active, a) =
      add_task-IsAdded rand fuel pos s.pool pool task (subst (λ m. 0 < m) (sym inv.size) z) run in
    adds-Inv n s inv task pool active a
Step-Inv {n} {s} z inv (works i lt active) =
    thread-Inv n s inv i (subst (λ m. i < m) inv.size lt) active (round s.pool (s.thread i))
      (round-Works inv i)
Step-Inv {n} {s} z inv (misses i lt active) =
    thread-Inv n s inv i (subst (λ m. i < m) inv.size lt) active
      (after_pop s.pool (s.thread i) (s.pool.queues i, (s.thread i).task, false))
      (after_pop-Works inv i)
Step-Inv z inv stops = record {
  size = inv.size;
  unlocked = inv.unlocked;
  own = inv.own;
  backoff = inv.backoff;
  tasks = inv.tasks;
  ended = λ i d. (refl, (inv.ended i d).1);
}
Step-Inv {n} {s} z inv (runs_left i task rest lt stopped active e) =
    thread-Inv n s inv i (subst (λ m. i < m) inv.size lt) active (_, _)
      (run_left-Works inv i task rest e)
Step-Inv {n} {s} z inv (ends i lt stopped active e) = record {
  size = inv.size;
  unlocked = inv.unlocked;
  own = inv.own;
  backoff = inv.backoff;
  tasks = inv.tasks;
  ended =
      at_update (λ j d. d ≡ true → (s.pool.stopped ≡ true) × ((s.pool.queues j).queue ≡ [])) s.done
        i true (λ _. (stopped, e)) inv.ended;
}

init-Inv : (n : ℕ) → Inv n (init n)
unfolding init new_pool
init-Inv n = record {
  size = refl;
  unlocked = λ i. refl;
  own = λ i. refl;
  backoff = λ i. (0, omega arith, refl);
  tasks = λ x. sym (total-zero n (share (init n) x) (λ j lt. refl));
  ended = λ i d. absurd (true≢false (sym d));
}

Reach-Inv : {n : ℕ} {s : System} → 0 < n → Reach n s → Inv n s
Reach-Inv {n} z start = init-Inv n
Reach-Inv z (later r step) = Step-Inv z (Reach-Inv z r) step

-- How often the threads together have run `x`.
pub times_run : ℕ → System → ℕ → ℕ
times_run n s x = total n (λ i. count x (s.thread i).ran)

-- The tasks still on a queue.
pub times_queued : ℕ → System → ℕ → ℕ
times_queued n s x = total n (λ i. count x (s.pool.queues i).queue)

total-add : (n : ℕ) (f g : ℕ → ℕ) → total n (λ i. f i + g i) ≡ total n f + total n g
unfolding total
total-add zero f g = refl
total-add (suc n) f g = omega (arith, total-add n f g)

-- A pool of at least one thread, with the adding of tasks, the rounds of its threads, the stop and the
-- runs of what is left in any order: at every moment each task has been run, by all threads together,
-- and stands on their queues, exactly as often as it was added, and every thread's sleep is a power of
-- 2 of at most 32; and once every thread has ended, each task has been run exactly as often as it was
-- added.
pub tasks-Reach :
    {n : ℕ} {s : System}
    → 0 < n
    → Reach n s
    → ((x : ℕ) → count x s.added ≡ times_queued n s x + times_run n s x)
      × ((i : ℕ) → IsBackoff (s.thread i).sleep_duration)
      × (((i : ℕ) → i < n → s.done i ≡ true) → (x : ℕ) → count x s.added ≡ times_run n s x)
unfolding times_run times_queued
tasks-Reach {n} {s} z r =
    let inv = Reach-Inv z r in
    let split : (x : ℕ) → count x s.added ≡ times_queued n s x + times_run n s x = λ x.
      inv.tasks x
      ∙ total-add n (λ i. count x (s.pool.queues i).queue) (λ i. count x (s.thread i).ran) in
    (
      split,
      inv.backoff,
      λ all x. omega (
        arith,
        split x,
        total-zero n (λ i. count x (s.pool.queues i).queue)
            (λ i lt. ap (count x) (inv.ended i (all i lt)).1),
      ),
    )
