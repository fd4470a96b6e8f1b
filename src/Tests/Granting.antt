-- ===== src/Tests/Granting.antt =====
-- The locking scheduler with a lock manager of the repository, which grants every lock, and two
-- transactions with different keys.
use native.Mathlib.Decide.{ℕ_discrete}
use cmcs624_fall.Common.{
  ok, true, some, subst, ℕ, ◌+◌, ◌≡◌, refl, sym, arith, List, [], ◌∷◌, ◌++◌, if◌then◌else◌, ◌==◌,
  Bool, false, ◌||◌, count, beq_of_ne, ap,
}
use cmcs624_fall.Common.KeySet
use cmcs624_fall.LockManager.{LockTable, new_lock_table, lock_manager_b}
use cmcs624_fall.Processor.Locking.Contract.{contract_b}
use cmcs624_fall.Processor.Locking.Isolation.{by_keys, Apart}
use cmcs624_fall.Txn.Programs.{Object, new_rmw, new_expect, run}
use cmcs624_fall.Txn.Programs.Constructors.{new-IsRunnable}
use cmcs624_fall.Storage.{Storage, read}
use cmcs624_fall.Processor.{
  get_txn_result, push_result, Processor, single, update, store_read, new_txn_request,
}
use cmcs624_fall.Processor.Locking.{release_locks, admitting, completing, admit, launch}
use cmcs624_fall.Processor.Locking.Invariant.{IsRequestable}
use cmcs624_fall.Processor.Locking.Serializable.{IsSerial}
use cmcs624_fall.Processor.Locking.Known.{IsStart, IsHanded}
use cmcs624_fall.Processor.Locking.Requesting.{requested}
use cmcs624_fall.Processor.Locking.Places.{as_number}
use cmcs624_fall.Processor.Interleaved.{
  started, takes, requests, Machine, at, begin_txn, read_next, end_txn, write_next, settle,
  ThreadStep, admits, starts_commit, writes, ends_commit, all_completed, launches, all_launched,
  begins, reads, ends, Run, start, schedules, works,
}
use cmcs624_fall.Processor.Interleaved.Simulation.{job_txns}
use cmcs624_fall.Processor.Interleaved.Serializable.{Run-IsSerializable, observed}
use cmcs624_fall.Processor.Interleaved.Progress.{Run-Works}
use cmcs624_fall.Tests.Locking.{blank, stored, chance, reader, incremented, IsRequestable-rmw}

-- Transaction 1 increments record 4, and the others expect a value in record 5.
abbrev either_txn : Bool → Object
either_txn first = if first then new_rmw [] (4 ∷ []) 0 blank else new_expect ((5, 10) ∷ []) blank

abbrev heap : ℕ → Object
heap p = either_txn (p == 1)

abbrev processor : Processor LockTable
processor = record {
  heap = heap;
  storage = single stored;
  next_unique_id = 3;
  txn_requests = 1 ∷ [];
  ready_txns = [];
  tasks = [];
  completed_txns = [];
  txn_results = [];
  locks = new_lock_table;
}

IsRequestable-expect : IsRequestable (heap 2)
unfolding new_expect
IsRequestable-expect = record {
  fresh = record {
    runnable = (new-IsRunnable ((5, 10) ∷ []) [] [] 0 blank (tt, tt) tt).1;
    no_reads = refl;
    no_writes = refl;
  };
  readset_ascending = (tt, tt);
  writeset_ascending = tt;
  no_overlap = tt;
}

either_txn-apart :
    (b c : Bool)
    → (b ≡ true → c ≡ true → ⊥)
    → (j : ℕ)
    → (KeySet.contains j (either_txn c).txn.readset
        || KeySet.contains j (either_txn c).txn.writeset)
      ≡ true
    → KeySet.contains j (either_txn b).txn.writeset ≡ false
unfolding new_rmw new_expect
either_txn-apart false c ne j declared = refl
either_txn-apart true true ne j declared = absurd (ne refl refl)
either_txn-apart true false ne j declared = ground arith

heap-Apart : Apart heap
heap-Apart p q ne j declared =
    either_txn-apart (p == 1) (q == 1) (λ x y. ne (ground arith)) j declared

processor-IsStart : IsStart contract_b by_keys processor stored
unfolding contract_b
processor-IsStart = record {
  stored = refl;
  isolated = heap-Apart;
  once = λ p. ground arith;
  nobody_waits = λ p. refl;
  idle = (refl, refl, refl);
  requests = λ p h. elim (ℕ_discrete p 1) [
    | yes e ↦ subst (λ q. IsRequestable (heap q)) (sym e) IsRequestable-rmw
    | no ne ↦
        subst (λ b. IsRequestable (either_txn b)) (sym (beq_of_ne p 1 ne)) IsRequestable-expect
  ];
}

abbrev machine : Machine LockTable
machine = started processor

-- A thread has begun transaction 1, when a client hands in transaction 2.
abbrev one_begun : Machine LockTable
one_begun =
    begin_txn
      (record machine { processor = launch lock_manager_b (admit lock_manager_b processor) 1 [] }) 1
      [] chance

abbrev two_asked : Machine LockTable
two_asked = record one_begun { processor = requested one_begun.processor 2 }

abbrev both_admitted : Machine LockTable
both_admitted = record two_asked { processor = admit lock_manager_b two_asked.processor }

abbrev one_read : Machine LockTable
one_read = read_next both_admitted [] reader 4 [] []

abbrev one_ended : Machine LockTable
one_ended = record one_read {
  processor = record (one_read.processor) {
    heap = update one_read.processor.heap 1 incremented;
    completed_txns = 1 ∷ [];
  };
  jobs = [];
}

abbrev one_written : Machine LockTable
one_written =
    write_next
      (record one_ended { processor = record (one_ended.processor) { completed_txns = [] } }) 1
      chance 0 4 11

abbrev one_committed : Machine LockTable
one_committed = record one_written {
  processor = settle lock_manager_b one_written.processor 1 true;
}

one_begun_run : Run lock_manager_b (at admitting) machine (at admitting) one_begun
unfolding admit launch new_rmw lock_manager_b
one_begun_run =
    works
      (schedules
        (schedules (schedules (schedules start admits) (all_completed refl)) (launches 1 [] refl))
        (all_launched refl))
      (begins 1 [] [] chance refl)

two_asked-returns : new_txn_request one_begun.processor 2 ≡ ok (requested one_begun.processor 2)
unfolding new_txn_request begin_txn admit launch
two_asked-returns = refl

both_admitted_run : Run lock_manager_b (at admitting) machine (at completing) both_admitted
both_admitted_run =
    schedules (requests {s = requested one_begun.processor 2} 2 one_begun_run two_asked-returns)
      admits

one_ended-ends : end_txn one_read (record reader { keys = [] }) [] ≡ ok one_ended
unfolding end_txn begin_txn read_next admit launch new_rmw run store_read read
one_ended-ends = refl

one_committed_run : Run lock_manager_b (at admitting) machine (at completing) one_committed
unfolding begin_txn read_next end_txn write_next admit launch new_rmw run store_read read
one_committed_run =
    schedules
      (schedules
        (schedules
          (works (works both_admitted_run (reads [] reader [] 4 [] refl refl))
            (ends [] (record reader { keys = [] }) [] refl refl one_ended-ends))
          (starts_commit 1 [] chance refl refl))
        writes)
      ends_commit

-- A client takes the result.
abbrev one_taken : Machine LockTable
one_taken = record one_committed {
  processor = record (one_committed.processor) { txn_results = [] };
  taken = one_committed.taken ++ 1 ∷ [];
}

one_taken-returns :
    get_txn_result one_committed.processor
    ≡ some (1, record (one_committed.processor) { txn_results = [] })
unfolding get_txn_result settle push_result release_locks write_next begin_txn admit launch new_rmw
    read_next
one_taken-returns = refl

one_taken_run : Run lock_manager_b (at admitting) machine (at completing) one_taken
one_taken_run = takes 1 one_committed_run one_taken-returns

two-IsHanded : IsHanded contract_b processor (2 ∷ [])
unfolding contract_b
two-IsHanded = record {
  once = λ p. ground arith;
  requestable = λ p h. elim (ℕ_discrete p 2) [
    | yes e ↦ subst (λ q. IsRequestable (heap q)) (sym e) IsRequestable-expect
    | no ne ↦ absurd (omega (arith, h, ap as_number (beq_of_ne p 2 ne)))
  ];
}

Run-IsSerializable_example :
    (st : Storage) × (done : List ℕ) × IsSerial processor (observed one_taken) stored st done
    × ((p : ℕ)
        → 0
            + count p one_taken.processor.txn_requests
            + count p one_taken.processor.ready_txns
            + count p one_taken.processor.tasks
            + count p (job_txns one_taken.jobs)
            + count p one_taken.processor.completed_txns
            + count p done
          ≡ count p (1 ∷ []) + count p (2 ∷ []))
unfolding contract_b one_taken_run one_committed_run both_admitted_run one_begun_run
Run-IsSerializable_example =
    Run-IsSerializable lock_manager_b contract_b by_keys processor one_taken stored
      processor-IsStart one_taken_run two-IsHanded

Run-Works_example : (m : Machine LockTable) × ThreadStep 1 both_admitted m
unfolding begin_txn admit launch both_admitted_run one_begun_run
Run-Works_example =
    Run-Works lock_manager_b contract_b by_keys processor stored processor-IsStart both_admitted_run
      two-IsHanded 1 (ground arith)
