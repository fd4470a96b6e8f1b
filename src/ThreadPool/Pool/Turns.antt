-- ===== src/ThreadPool/Pool/Turns.antt =====
-- A step of one thread of the pool, with its own queue.
use cmcs624_fall.Common.{
  ℕ, zero, suc, ◌+◌, ◌*◌, ◌^◌, ◌≤◌, ◌≡◌, refl, sym, subst, ap, ◌∙◌, arith, true, false, List, [],
  ◌∷◌, ◌++◌, if◌then◌else◌, ltb, count, count-append,
}
use cmcs624_fall.Common.Sums.{total}
use cmcs624_fall.Mutex.{Mutex, free, try_lock, unlock}
use cmcs624_fall.Atomic.Queues.{AtomicQueue, pop_non_blocking}
use cmcs624_fall.ThreadPool.{StaticThreadPool, set_queue, Thread, after_pop, round}
use cmcs624_fall.ThreadPool.Pool.{System}

-- A thread's share of the tasks `x`: in its queue, or run.
abbrev pub share : System → ℕ → ℕ → ℕ
share s x i = count x (s.pool.queues i).queue + count x (s.thread i).ran

-- A sleep of the back-off.
abbrev pub IsBackoff : ℕ → Type 0
IsBackoff d = (k : ℕ) × (k ≤ 5) × (d ≡ 2 ^ k)

pub record Inv (n : ℕ) (s : System) : Type 0 where
  pub size : s.pool.thread_count ≡ n
  pub unlocked : (i : ℕ) → (s.pool.queues i).mutex ≡ free
  pub own : (i : ℕ) → (s.thread i).queue_id ≡ i
  pub backoff : (i : ℕ) → IsBackoff (s.thread i).sleep_duration
  pub tasks : (x : ℕ) → count x s.added ≡ total n (share s x)
  pub ended : (i : ℕ) → s.done i ≡ true → (s.pool.stopped ≡ true) × ((s.pool.queues i).queue ≡ [])

doubled : (k d : ℕ) → k ≤ 5 → d ≡ 2 ^ k → IsBackoff (if ltb d 32 then d * 2 else d)
doubled zero d le e = (1, omega arith, ground arith)
doubled (suc zero) d le e = (2, omega arith, ground arith)
doubled (suc (suc zero)) d le e = (3, omega arith, ground arith)
doubled (suc (suc (suc zero))) d le e = (4, omega arith, ground arith)
doubled (suc (suc (suc (suc zero)))) d le e = (5, omega arith, ground arith)
doubled (suc (suc (suc (suc (suc zero))))) d le e = (5, omega arith, ground arith)
doubled (suc (suc (suc (suc (suc (suc k)))))) d le e = absurd (omega arith)

-- A task that leaves the queue and runs.
moved :
    (x y : ℕ) (ys ran : List ℕ)
    → count x ys + count x (ran ++ y ∷ []) ≡ count x (y ∷ ys) + count x ran
moved x y ys ran = rw (count-append x ran (y ∷ [])) (ground arith)

cons≢nil : {y : ℕ} {ys : List ℕ} → y ∷ ys ≡ [] → ⊥
cons≢nil e = cc

-- What one step of thread `i` does with its own queue and its own state.
pub record Works (s : System) (i : ℕ) (r : StaticThreadPool × Thread) : Type 0 where
  pub queue : AtomicQueue ℕ
  pub pool : r.0 ≡ set_queue s.pool i queue
  pub unlocked : queue.mutex ≡ free
  pub own : r.1.queue_id ≡ i
  pub backoff : IsBackoff r.1.sleep_duration
  pub share :
      (x : ℕ)
      → count x queue.queue + count x r.1.ran
        ≡ count x (s.pool.queues i).queue + count x (s.thread i).ran
  pub empty : (s.pool.queues i).queue ≡ [] → queue.queue ≡ []

module _ {n : ℕ} {s : System} (inv : Inv n s) (i : ℕ) where
  pub after_pop-Works :
      Works s i (after_pop s.pool (s.thread i) (s.pool.queues i, (s.thread i).task, false))
  after_pop-Works = record {
    queue = s.pool.queues i;
    pool = ap (λ j. set_queue s.pool j (s.pool.queues i)) (inv.own i);
    unlocked = inv.unlocked i;
    own = inv.own i;
    backoff =
        doubled (inv.backoff i).0 (s.thread i).sleep_duration (inv.backoff i).1 (inv.backoff i).2;
    share = λ x. refl;
    empty = λ e. e;
  }

  pop-Works :
      (xs : List ℕ)
      → (s.pool.queues i).queue ≡ xs
      → Works s i (
          after_pop s.pool
            (s.thread i)
            (pop_non_blocking (record { queue = xs; mutex = free }) (s.thread i).task))
  unfolding pop_non_blocking try_lock unlock
  pop-Works [] e = record {
    queue = record { queue = []; mutex = free };
    pool = ap (λ j. set_queue s.pool j (record { queue = []; mutex = free })) (inv.own i);
    unlocked = refl;
    own = inv.own i;
    backoff =
        doubled (inv.backoff i).0 (s.thread i).sleep_duration (inv.backoff i).1 (inv.backoff i).2;
    share = λ x. ap (λ q. count x q + count x (s.thread i).ran) (sym e);
    empty = λ _. refl;
  }
  pop-Works (y ∷ ys) e = record {
    queue = record { queue = ys; mutex = free };
    pool = ap (λ j. set_queue s.pool j (record { queue = ys; mutex = free })) (inv.own i);
    unlocked = refl;
    own = inv.own i;
    backoff = (0, omega arith, refl);
    share =
        λ x. moved x y ys (s.thread i).ran ∙ ap (λ q. count x q + count x (s.thread i).ran) (sym e);
    empty = λ none. absurd (cons≢nil (sym e ∙ none));
  }

  pub round-Works : Works s i (round s.pool (s.thread i))
  unfolding round
  round-Works =
      subst (λ q. Works s i (after_pop s.pool (s.thread i) (pop_non_blocking q (s.thread i).task)))
        (ap (λ (m : Mutex). record { queue = (s.pool.queues i).queue; mutex = m })
            (sym (inv.unlocked i))
          ∙ ap s.pool.queues (sym (inv.own i))
          ∙ refl)
        (pop-Works (s.pool.queues i).queue refl)

  pub run_left-Works :
      (task : ℕ) (rest : List ℕ)
      → (s.pool.queues i).queue ≡ task ∷ rest
      → Works s i (
        set_queue s.pool i (record { queue = rest; mutex = free }),
        record (s.thread i) { ran = (s.thread i).ran ++ task ∷ []; task = task },
      )
  run_left-Works task rest e = record {
    queue = record { queue = rest; mutex = free };
    pool = refl;
    unlocked = refl;
    own = inv.own i;
    backoff = inv.backoff i;
    share = λ x.
        moved x task rest (s.thread i).ran ∙ ap (λ q. count x q + count x (s.thread i).ran) (sym e);
    empty = λ none. absurd (cons≢nil (sym e ∙ none));
  }
