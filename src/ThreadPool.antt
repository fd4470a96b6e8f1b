-- ===== src/ThreadPool.antt =====
-- a2/utils/static_thread_pool.h: adding a task, and the loop of a thread.
pub mod Threads
pub mod Adding
pub mod Pool
use native.Mathlib.Decide.{ℕ_discrete}
use cmcs624_fall.Common.{
  ℕ, zero, suc, ◌+◌, ◌*◌, ◌%◌, ◌≤◌, ◌<◌, ◌≡◌, ◌≢◌, refl, sym, ap, ◌∙◌, arith, Bool, true, false,
  not, Option, none, some, List, [], ◌∷◌, ◌++◌, if◌then◌else◌, ◌==◌, ltb, length, Bool-cases, inl,
  inr, beq_refl, beq_of_ne,
}
use cmcs624_fall.Mutex.{
  Mutex, free, held, Mutex-cases, Attempt, returned, failed, waiting, assert, ◌>>=◌, ◌>>◌,
}
use cmcs624_fall.Atomic.Queues.{AtomicQueue, push_non_blocking, pop, pop_non_blocking}

-- A task is named by a number.
pub record StaticThreadPool : Type 0 where
  pub thread_count : ℕ
  pub queues : ℕ → AtomicQueue ℕ
  pub stopped : Bool

-- `Start`: a queue for each thread, all empty.
unfoldable pub new_pool : ℕ → StaticThreadPool
new_pool nthreads = record {
  thread_count = nthreads;
  queues = λ _. record { queue = []; mutex = free };
  stopped = false;
}

-- The first thing that the destructor does.
abbrev pub stop : StaticThreadPool → StaticThreadPool
stop tp = record tp { stopped = true }

abbrev pub set_queue : StaticThreadPool → ℕ → AtomicQueue ℕ → StaticThreadPool
set_queue tp i q = record tp { queues = λ j. if j == i then q else tp.queues j }

-- The loop of `AddTask`, for at most `fuel` tries: each picks a queue by the next number of `rand`.
-- `waiting` is a call that has not returned yet.
unfoldable pub add_loop : (ℕ → ℕ) → ℕ → ℕ → StaticThreadPool → ℕ → Attempt StaticThreadPool
unfolding push_non_blocking
add_loop rand zero pos tp task = waiting
add_loop rand (suc fuel) pos tp task =
    let i : ℕ = rand pos % tp.thread_count in
    let (q, done) = push_non_blocking (tp.queues i) task in
    let again = add_loop rand fuel (suc pos) (set_queue tp i q) task in
    if done then returned (set_queue tp i q) else again

unfoldable pub add_task : (ℕ → ℕ) → ℕ → ℕ → StaticThreadPool → ℕ → Attempt StaticThreadPool
unfolding add_loop
add_task rand fuel pos tp task = do assert (not tp.stopped); add_loop rand fuel pos tp task

-- A thread of the pool: the queue that is its own, how long it sleeps next, in microseconds, the
-- tasks that it has run, oldest first, and its variable `task`.
pub record Thread : Type 0 where
  pub queue_id : ℕ
  pub sleep_duration : ℕ
  pub ran : List ℕ
  pub task : ℕ

abbrev pub after_pop :
    StaticThreadPool → Thread → AtomicQueue ℕ × ℕ × Bool → StaticThreadPool × Thread
after_pop tp t (q, task, true) = (
  set_queue tp t.queue_id q,
  record t { sleep_duration = 1; ran = t.ran ++ task ∷ []; task = task },
)
after_pop tp t (q, task, false) = (
  set_queue tp t.queue_id q,
  record t {
    sleep_duration = if ltb t.sleep_duration 32 then t.sleep_duration * 2 else t.sleep_duration;
    task = task;
  },
)

-- A thread as it starts.
abbrev pub new_thread : ℕ → Thread
new_thread i = record { queue_id = i; sleep_duration = 1; ran = []; task = 0 }

-- The first part of a round of `RunThread`: a task that is there runs, otherwise the thread sleeps
-- and backs off.
unfoldable pub round : StaticThreadPool → Thread → StaticThreadPool × Thread
unfolding pop_non_blocking
round tp t = after_pop tp t (pop_non_blocking (tp.queues t.queue_id) t.task)

drained :
    AtomicQueue ℕ
    → Thread
    → AtomicQueue ℕ × ℕ × Bool
    → (AtomicQueue ℕ → Thread → Attempt (AtomicQueue ℕ × Thread))
    → Attempt (AtomicQueue ℕ × Thread)
drained q t (q', task, true) next = next q' (record t { ran = t.ran ++ task ∷ []; task = task })
drained q t (q', task, false) next = returned (q', record t { task = task })

-- The loop once `stopped_` is set, for at most `fuel` pops of the thread's own queue.
pub drain : ℕ → AtomicQueue ℕ → Thread → Attempt (AtomicQueue ℕ × Thread)
unfolding pop drained
drain zero q t = waiting
drain (suc fuel) q t = do popped ← pop q t.task; drained q t popped (λ q' t'. drain fuel q' t')
