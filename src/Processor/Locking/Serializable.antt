-- ===== src/Processor/Locking/Serializable.antt =====
-- The locking scheduler against the specification of the processor.
use cmcs624_fall.Common.{ℕ, ◌+◌, ◌≡◌, ap, ◌∙◌, arith, List, ◌++◌, count, count-append}
use cmcs624_fall.LockManager.{LockManager}
use cmcs624_fall.Storage.{Storage}
use cmcs624_fall.Processor.{Processor, single}
use cmcs624_fall.Processor.Locking.Requesting.{after_all-same, Decided-ids}
use cmcs624_fall.Processor.Execution.{view}
use cmcs624_fall.Processor.History.{after_all, Decided}
use cmcs624_fall.Processor.Locking.{Phase, Run, handed}
use cmcs624_fall.Processor.Locking.Contract.{Contract}
use cmcs624_fall.Processor.Locking.Conservation.{Run-places}
use cmcs624_fall.Processor.Locking.Isolation.{Isolation}
use cmcs624_fall.Processor.Locking.Known.{IsStart, IsHanded, Run-Known}

-- What the client sees of a run.
pub record IsSerial {L : Type 0} (s₀ s : Processor L) (st₀ st : Storage) (done : List ℕ)
    : Type 0 where
  pub stored : s.storage ≡ single st
  pub results : s.txn_results ≡ s₀.txn_results ++ done
  pub database : view st ≡ after_all s₀.heap done (view st₀)
  pub decided : Decided s.heap s₀.heap done (view st₀)

-- With a lock manager that keeps the contract, and transactions that its locks or their keys keep apart,
-- however the scheduler, the threads of the pool and the
-- clients interleave: at every moment the database is the one that the specification gives for the
-- transactions that have a result, one after the other in the order of their results, and each of them
-- has committed or aborted as the specification says on the database of its turn. Each request has a
-- result or is on its way.
pub Run-IsSerial :
    {L : Type 0} (lm : LockManager L) (contract : Contract L lm) (iso : Isolation lm)
    {phase phase' : Phase} {s₀ s : Processor L} (st₀ : Storage)
    → IsStart contract iso s₀ st₀
    → (run : Run lm phase s₀ phase' s) → IsHanded contract s₀ (handed lm run)
    → (st : Storage) × (done : List ℕ) × IsSerial s₀ s st₀ st done
      × ((p : ℕ)
          → contract.waits s.locks p
              + count p s.txn_requests
              + count p s.ready_txns
              + count p s.tasks
              + count p s.completed_txns
              + count p done
            ≡ count p s₀.txn_requests + count p (handed lm run))
Run-IsSerial lm contract iso {s₀ = s₀} {s = s} st₀ initial run all =
    let known = Run-Known lm contract iso s₀ st₀ initial run all in
    let inv = known.inv in
    (
      inv.store,
      inv.done,
      record {
        stored = inv.stored;
        results = inv.results;
        database = inv.database ∙ after_all-same s₀.heap known.heap known.same inv.done (view st₀);
        decided = Decided-ids s.heap s₀.heap known.heap known.same inv.done (view st₀) inv.decided;
      },
      λ p. omega (
        arith,
        Run-places lm contract run all.once p,
        initial.nobody_waits p,
        ap (count p) initial.idle.0,
        ap (count p) initial.idle.1,
        ap (count p) initial.idle.2,
        ap (count p) inv.results,
        count-append p s₀.txn_results inv.done,
      ),
    )
