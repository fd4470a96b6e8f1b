-- ===== src/Processor/Interleaved/Refinement.antt =====
-- The machine with single reads and writes takes no step that the one of `Processor/Locking` does not
-- follow, with one step or none.
use cmcs624_fall.Common.{ℕ, ◌≡◌, refl, ap, subst, arith, List, []}
use cmcs624_fall.LockManager.{LockManager}
use cmcs624_fall.Storage.{Storage}
use cmcs624_fall.Processor.{Processor}
use cmcs624_fall.Processor.Locking.{
  Phase, admitting, completing, launching, admit_from, admit, request_locks, launch,
}
use cmcs624_fall.Processor.Locking
use cmcs624_fall.Processor.Locking.Contract.{Contract}
use cmcs624_fall.Processor.Locking.Isolation.{Isolation}
use cmcs624_fall.Processor.Locking.Invariant.{Inv}
use cmcs624_fall.Processor.Locking.Known.{IsStart, IsHanded, IsHanded-before, start-Inv}
use cmcs624_fall.Processor.Interleaved.{
  started, takes, Machine, Point, at, Run, start, schedules, works, requests, handed,
}
use cmcs624_fall.Processor.Locking.Requesting.{SameButIds-refl}
use cmcs624_fall.Processor.Interleaved.Scheduling.{Follows}
use cmcs624_fall.Processor.Interleaved.Beside.{Beside, SchedulerStep-Beside, ThreadStep-Beside}
use cmcs624_fall.Processor.Interleaved.Clients.{requests-Beside, takes-Beside}

module _ {L : Type 0} (lm : LockManager L) (contract : Contract L lm) (iso : Isolation lm)
    (s₀ : Processor L) (st₀ : Storage) (initial : IsStart contract iso s₀ st₀) (phase : Phase) where
  abbrev Goes : Point → Machine L → List ℕ → Type 0
  Goes = Beside lm contract iso s₀ st₀ phase

  pub Run-Beside :
      {point : Point} {m : Machine L} (run : Run lm (at phase) (started s₀) point m)
      → IsHanded contract s₀ (handed lm run)
      → Goes point m (handed lm run)
  Run-Beside start all =
      let e = ap (λ st. record s₀ { storage = st }) initial.stored in
      record {
        g = record { heap = s₀.heap; tasks = s₀.tasks; completed = s₀.completed_txns; store = st₀ };
        known = record {
          heap = s₀.heap;
          same = SameButIds-refl s₀.heap;
          inv = subst (Inv lm contract iso s₀ st₀) e (start-Inv lm contract iso s₀ st₀ initial);
        };
        sim = record {
          tasks = λ q. omega arith;
          heaps = λ q h. refl;
          jobs = tt;
          storing = (initial.stored, refl);
        };
        coarse = (coarse_start e).0;
        same = (coarse_start e).1;
      }
    where
      coarse_start :
          {s : Processor L}
          → s₀ ≡ s
          → (run : Locking.Run lm phase s₀ phase s) × (Locking.handed lm run ≡ [])
      coarse_start e =
          subst (λ s. (run : Locking.Run lm phase s₀ phase s) × (Locking.handed lm run ≡ [])) e
            (Locking.start, refl)
  Run-Beside (schedules run step) all =
      SchedulerStep-Beside lm contract iso s₀ st₀ initial phase step all (Run-Beside run all)
  Run-Beside (works run step) all =
      ThreadStep-Beside lm contract iso s₀ st₀ initial phase step all (Run-Beside run all)
  Run-Beside (requests {s = s} p run e) all =
      requests-Beside lm contract iso s₀ st₀ initial phase s p e all
        (Run-Beside run (IsHanded-before contract s₀ (handed lm run) p all))
  Run-Beside (takes {s = s} p run e) all =
      takes-Beside lm contract iso s₀ st₀ initial phase s p e (Run-Beside run all)

  -- However the threads of the pool take turns at their reads with each other, with the scheduler at
  -- its writes and with the clients: a run in which `ExecuteTxn` and the commit of a transaction are one
  -- step each, with the same transactions handed in, comes to the same locks and the same queues of
  -- requests and ready transactions, and to the same results, those that clients have taken first. The
  -- two differ only in what is under way: where the other has a transaction among its tasks, a thread
  -- has read some of its keys, and has found what the other's storage holds. This is for any lock
  -- manager that loses nobody who waits (`Contract`), where either it also keeps the locks exclusive
  -- (`Exclusion`), which the two of the repository do not, or no transaction writes a key that another
  -- declares, as it must be with those two. At the start the storage is of the single-version kind,
  -- nobody has asked for a lock, and nothing but requests and results is in the processor; each
  -- transaction is queued or handed in once, fresh, with the keys of its sets in order and none in both.
  pub Run-Follows :
      {point : Point} {m : Machine L} (run : Run lm (at phase) (started s₀) point m)
      → IsHanded contract s₀ (handed lm run)
      → Follows lm phase s₀ point m (handed lm run)
  Run-Follows run all =
      let b = Run-Beside run all in (b.g, b.known.heap, b.known.same, b.sim, b.coarse, b.same)
