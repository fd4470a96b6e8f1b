-- ===== src/Tests/Pools.antt =====
-- The thread pool at concrete inputs.
use cmcs624_fall.Common.{
  ℕ, ◌+◌, ◌<◌, ◌≡◌, refl, arith, true, false, [], ◌∷◌, if◌then◌else◌, ◌==◌, count,
}
use cmcs624_fall.Mutex.{free, held, returned, try_lock, unlock}
use cmcs624_fall.Atomic.Queues.{push_non_blocking, pop_non_blocking}
use cmcs624_fall.ThreadPool.{StaticThreadPool, new_pool, stop, set_queue, round, add_loop, add_task}
use cmcs624_fall.Database.{update}
use cmcs624_fall.ThreadPool.Adding.{IsAdded, add_task_lem}
use cmcs624_fall.ThreadPool.Pool.{
  System, Reach, start, later, init, step_thread, adds, works, stops, ends,
}
use cmcs624_fall.ThreadPool.Pool.Turns.{IsBackoff}
use cmcs624_fall.ThreadPool.Pool.Tasks.{times_queued, times_run, tasks-Reach}

-- Two queues, and the first is locked.
abbrev two_queues : StaticThreadPool
two_queues = record {
  thread_count = 2;
  queues = λ i. record { queue = i ∷ []; mutex = if i == 0 then held else free };
  stopped = false;
}

-- The third queue that is picked is the second one.
add_task_lem_example :
    (tp' : StaticThreadPool) × (add_task (λ p. if p == 6 then 1 else 4) 3 4 two_queues 9
      ≡ returned tp')
    × IsAdded 9 two_queues tp'
add_task_lem_example =
    add_task_lem (λ p. if p == 6 then 1 else 4) 3 2 4 two_queues 9 refl (omega arith) (omega arith)
      refl

-- Two threads: task 7 goes to the second queue, the second thread runs it, and the pool is destroyed.
abbrev with_task : System
with_task = record (init 2) {
  pool = set_queue (new_pool 2) 1 (record { queue = 7 ∷ []; mutex = free });
  added = 7 ∷ [];
}

abbrev finished : System
finished = record (step_thread with_task 1 (round with_task.pool (with_task.thread 1))) {
  pool = stop (round with_task.pool (with_task.thread 1)).0;
  done = update (update (init 2).done 0 true) 1 true;
}

finished-Reach : Reach 2 finished
unfolding init new_pool round add_task add_loop push_non_blocking pop_non_blocking try_lock unlock
finished-Reach =
    later
      (later
        (later (later (later start (adds (λ _. 1) 1 0 7 refl)) (works 1 (omega arith) refl)) stops)
        (ends 0 (omega arith) refl refl refl))
      (ends 1 (omega arith) refl refl refl)

tasks-Reach_example :
    ((x : ℕ) → count x finished.added ≡ times_queued 2 finished x + times_run 2 finished x)
    × ((i : ℕ) → IsBackoff (finished.thread i).sleep_duration)
    × (((i : ℕ) → i < 2 → finished.done i ≡ true)
        → (x : ℕ) → count x finished.added ≡ times_run 2 finished x)
tasks-Reach_example = tasks-Reach (omega arith) finished-Reach
