-- ===== src/Processor/Interleaved/Serializable.antt =====
-- The locking scheduler with single reads and writes, against the specification of the processor.
use cmcs624_fall.Common.{ℕ, ◌+◌, ◌<◌, ◌≡◌, sym, ap, ◌∙◌, arith, List, [], ◌∷◌, ◌++◌, count}
use cmcs624_fall.LockManager.{LockManager}
use cmcs624_fall.Txn.Programs.{Object}
use cmcs624_fall.Storage.{Storage}
use cmcs624_fall.Processor.{Processor}
use cmcs624_fall.Processor.Spec.{Database}
use cmcs624_fall.Processor.History.{Decided}
use cmcs624_fall.Processor.Locking
use cmcs624_fall.Processor.Locking.{Phase}
use cmcs624_fall.Processor.Locking.Places.{beq-count}
use cmcs624_fall.Processor.Locking.Contract.{Contract}
use cmcs624_fall.Processor.Locking.Isolation.{Isolation}
use cmcs624_fall.Processor.Locking.Serializable.{IsSerial, Run-IsSerial}
use cmcs624_fall.Processor.Locking.Known.{IsStart, IsHanded}
use cmcs624_fall.Processor.Interleaved.{started, Machine, at, Run, handed}
use cmcs624_fall.Processor.Interleaved.Simulation.{job_txns}
use cmcs624_fall.Processor.Interleaved.Refinement.{Run-Beside}
use cmcs624_fall.Processor.Interleaved.Beside.{handed_in}

-- The processor with the results that clients have taken put back.
abbrev pub observed : {L : Type 0} → Machine L → Processor L
observed m = record (m.processor) { txn_results = m.taken ++ m.processor.txn_results }

-- The decisions stand in the transactions of the list, whatever the others hold.
Decided-same :
    (heap heap' h₀ : ℕ → Object) (ps : List ℕ) (db : Database)
    → ((q : ℕ) → 0 < count q ps → heap' q ≡ heap q)
    → Decided heap h₀ ps db
    → Decided heap' h₀ ps db
Decided-same heap heap' h₀ [] db same d = tt
Decided-same heap heap' h₀ (p ∷ ps) db same d = (
  ap (λ (o : Object). o.txn.status) (same p (omega (arith, sym (beq-count p)))) ∙ d.0,
  Decided-same heap heap' h₀ ps _ (λ q h. same q (omega (arith, h))) d.1,
)

-- For any lock manager that loses nobody who waits (`Contract`), where either it also keeps the locks
-- exclusive (`Exclusion`), which the two of the repository do not, or no transaction writes a key that
-- another declares, as it must be with those two. However the scheduler, the threads of the pool and
-- the clients interleave, down to the single reads of `ExecuteTxn` and the single writes of
-- `ApplyWrites`: whenever the scheduler is not in the middle of the writes of a transaction, the
-- database is the one that the specification gives for the transactions that have a result, one
-- after the other in the order of their results, first those that clients have taken and then those
-- in the queue, and each of them has committed or aborted as the specification says on the database
-- of its turn. Each transaction that was queued at the start or has been handed in since has a
-- result or is on its way, and no other is, so once none is on its way, the results are those
-- transactions in some order. At the start the
-- storage is of the single-version kind, nobody has asked for a lock, and nothing but requests and
-- results is in the processor; each transaction is queued or handed in once, fresh, with the keys of its
-- sets in order and none in both.
pub Run-IsSerializable :
    {L : Type 0} (lm : LockManager L) (contract : Contract L lm) (iso : Isolation lm)
    {phase phase' : Phase} (s₀ : Processor L) (m : Machine L) (st₀ : Storage)
    → IsStart contract iso s₀ st₀
    → (run : Run lm (at phase) (started s₀) (at phase') m) → IsHanded contract s₀ (handed lm run)
    → (st : Storage) × (done : List ℕ) × IsSerial s₀ (observed m) st₀ st done
      × ((p : ℕ)
          → contract.waits m.processor.locks p
              + count p m.processor.txn_requests
              + count p m.processor.ready_txns
              + count p m.processor.tasks
              + count p (job_txns m.jobs)
              + count p m.processor.completed_txns
              + count p done
            ≡ count p s₀.txn_requests + count p (handed lm run))
Run-IsSerializable lm contract iso {phase = phase} s₀ m st₀ initial run all =
    let b = Run-Beside lm contract iso s₀ st₀ initial phase run all in
    let (st, done, serial, total) =
      Run-IsSerial lm contract iso st₀ initial b.coarse
        (handed_in lm contract iso s₀ st₀ initial phase b all) in
    let same : (p : ℕ) → count p (Locking.handed lm b.coarse) ≡ count p (handed lm run) =
      λ p. ap (count p) b.same in
    let quiet : (q : ℕ) → 0 < count q done → count q (job_txns m.jobs) ≡ 0 =
      λ q h. omega (arith, h, total q, same q, b.sim.tasks q, initial.once q, all.once q) in
    (
      st,
      done,
      record {
        stored = b.sim.storing.0 ∙ serial.stored;
        results = serial.results;
        database = serial.database;
        decided =
            Decided-same b.g.heap m.processor.heap s₀.heap done _ (λ q h. b.sim.heaps q (quiet q h))
              serial.decided;
      },
      λ p. omega (arith, total p, same p, b.sim.tasks p, ap (count p) b.sim.storing.1),
    )
