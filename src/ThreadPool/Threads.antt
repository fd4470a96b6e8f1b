-- ===== src/ThreadPool/Threads.antt =====
-- A thread of a pool that is stopped.
use mathlib.Core.List.{append-nil, append_assoc}
use cmcs624_fall.Common.{ℕ, zero, suc, ◌<◌, ◌≡◌, refl, sym, ◌∙◌, arith, List, [], ◌∷◌, ◌++◌, length}
use cmcs624_fall.Mutex.{free, lock, unlock, returned}
use cmcs624_fall.Atomic.Queues.{pop}
use cmcs624_fall.ThreadPool.{Thread, drained, drain}

-- Once the pool is stopped, a thread whose queue nobody has locked runs every task that is left on its
-- queue, in the order in which they were added, and leaves the queue empty; one pop more than there
-- are tasks is enough.
pub drain-run :
    (fuel : ℕ) (xs : List ℕ) (t : Thread)
    → length xs < fuel
    → (t' : Thread) × (drain fuel (record { queue = xs; mutex = free }) t
        ≡ returned (record { queue = []; mutex = free }, t'))
      × (t'.ran ≡ t.ran ++ xs)
unfolding drain drained pop lock unlock
drain-run zero xs t h = absurd (omega arith)
drain-run (suc fuel) [] t h = (record t { task = t.task }, refl, sym (append-nil t.ran))
drain-run (suc fuel) (x ∷ xs) t h =
    let (t', run, ran) =
      drain-run fuel xs (record t { ran = t.ran ++ x ∷ []; task = x }) (omega arith) in
    (t', run, ran ∙ append_assoc t.ran (x ∷ []) xs)
