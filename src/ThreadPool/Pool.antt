-- ===== src/ThreadPool/Pool.antt =====
-- The pool at work: a client that adds tasks and then destroys the pool, and its threads, in any order.
pub mod Turns
pub mod Tasks
use cmcs624_fall.Common.{
  ℕ, suc, ◌+◌, ◌<◌, ◌≡◌, Bool, true, false, List, [], ◌∷◌, ◌++◌, if◌then◌else◌, ◌==◌,
}
use cmcs624_fall.Mutex.{Mutex, free, held, Attempt, returned}
use cmcs624_fall.Atomic.Queues.{AtomicQueue}
use cmcs624_fall.Database.{update}
use cmcs624_fall.ThreadPool.{
  StaticThreadPool, new_pool, stop, set_queue, add_task, Thread, new_thread, after_pop, round,
}

-- `added` are the tasks of the calls of `AddTask` that have returned, the last one first. Thread `i`
-- is done when it has left its loop.
pub record System : Type 0 where
  pub pool : StaticThreadPool
  pub thread : ℕ → Thread
  pub done : ℕ → Bool
  pub added : List ℕ

abbrev pub step_thread : System → ℕ → StaticThreadPool × Thread → System
step_thread s i (pool, t) = record s { pool = pool; thread = update s.thread i t }

-- What `Pop` gives thread `i` from its own queue in the loop after the stop: a task, which runs, or
-- nothing, and the thread ends.
abbrev pub run_left : System → ℕ → ℕ → List ℕ → System
run_left s i task rest = step_thread s i (
  set_queue s.pool i (record { queue = rest; mutex = free }),
  record (s.thread i) { ran = (s.thread i).ran ++ task ∷ []; task = task },
)

-- Between two steps no mutex is held: each call on a queue is one step, but for `TryLock` in a round
-- of a thread, which may find the mutex held by the client.
pub data Step (s : System) : System → Type 0 where
  adds :
      (rand : ℕ → ℕ) (fuel pos task : ℕ) {pool : StaticThreadPool}
      → add_task rand fuel pos s.pool task ≡ returned pool
      → Step s (record s { pool = pool; added = task ∷ s.added })
  works :
      (i : ℕ)
      → i < s.pool.thread_count
      → s.done i ≡ false
      → Step s (step_thread s i (round s.pool (s.thread i)))
  misses :
      (i : ℕ)
      → i < s.pool.thread_count
      → s.done i ≡ false
      → Step s (
          step_thread s i
            (after_pop s.pool (s.thread i) (s.pool.queues i, (s.thread i).task, false)))
  stops : Step s (record s { pool = stop s.pool })
  runs_left :
      (i task : ℕ) (rest : List ℕ)
      → i < s.pool.thread_count
      → s.pool.stopped ≡ true
      → s.done i ≡ false
      → (s.pool.queues i).queue ≡ task ∷ rest
      → Step s (run_left s i task rest)
  ends :
      (i : ℕ)
      → i < s.pool.thread_count
      → s.pool.stopped ≡ true
      → s.done i ≡ false
      → (s.pool.queues i).queue ≡ []
      → Step s (record s { done = update s.done i true })

unfoldable pub init : ℕ → System
init n = record { pool = new_pool n; thread = new_thread; done = λ _. false; added = [] }

pub data Reach (n : ℕ) : System → Type 0 where
  start : Reach n (init n)
  later : {s t : System} → Reach n s → Step s t → Reach n t
