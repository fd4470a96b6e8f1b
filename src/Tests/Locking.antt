-- ===== src/Tests/Locking.antt =====
-- The locking scheduler with a small lock manager.
use native.Mathlib.Decide.{ℕ_discrete}
use cmcs624_fall.Common.{
  ok, true, some, subst, ℕ, ◌≡◌, refl, sym, arith, none, [], ◌∷◌, ◌++◌, if◌then◌else◌, ◌==◌,
  beq_of_ne, ap,
}
use cmcs624_fall.LockManager.{unlocked}
use cmcs624_fall.Processor.Locking.Isolation.{by_locks}
use cmcs624_fall.Txn.{Txn, incomplete, completed_c}
use cmcs624_fall.Txn.Programs.{Object, rmw, new_rmw, new_expect, run}
use cmcs624_fall.Txn.Programs.Constructors.{new-IsRunnable}
use cmcs624_fall.Storage.{Storage, read}
use cmcs624_fall.Processor.{
  get_txn_result, push_result, Processor, Chance, single, update, store_read, new_txn_request,
}
use cmcs624_fall.Processor.Locking.{release_locks, admitting, completing, admit, launch}
use cmcs624_fall.Processor.Locking.Invariant.{IsRequestable}
use cmcs624_fall.Processor.Locking.Known.{IsStart, IsHanded}
use cmcs624_fall.Processor.Locking.Requesting.{requested}
use cmcs624_fall.Processor.Locking.Places.{as_number}
use cmcs624_fall.Processor.Interleaved.{
  started, takes, requests, Job, Machine, Point, at, begin_txn, read_next, end_txn, write_next,
  settle, SchedulerStep, admits, starts_commit, writes, ends_commit, all_completed, launches,
  all_launched, begins, reads, ends, Run, start, schedules, works,
}
use cmcs624_fall.Processor.Interleaved.Refinement.{Run-Follows}
use cmcs624_fall.Processor.Interleaved.Scheduling.{Follows}
use cmcs624_fall.Processor.Interleaved.Progress.{Run-Schedules}
use cmcs624_fall.Tests.Owners.{Owners, owners, owners-Contract, owners-Exclusion}

abbrev pub blank : Txn
blank = record {
  readset = [];
  writeset = [];
  reads = [];
  writes = [];
  status = incomplete;
  unique_id = 0;
  occ_start_time = 0;
}

abbrev pub stored : Storage
stored = record { records = (4, 10) ∷ []; timestamps = [] }

-- Transaction 1 increments record 4, and transaction 2 expects its old value.
abbrev heap : ℕ → Object
heap p = if p == 1 then new_rmw [] (4 ∷ []) 0 blank else new_expect ((4, 10) ∷ []) blank

abbrev no_owners : Owners
no_owners = record { owner = λ _. none; asked = λ _ _. unlocked; waits = λ _. 0 }

abbrev processor : Processor Owners
processor = record {
  heap = heap;
  storage = single stored;
  next_unique_id = 3;
  txn_requests = 1 ∷ [];
  ready_txns = [];
  tasks = [];
  completed_txns = [];
  txn_results = [];
  locks = no_owners;
}

pub IsRequestable-rmw : IsRequestable (heap 1)
unfolding new_rmw
IsRequestable-rmw = record {
  fresh = record {
    runnable = (refl, (tt, (refl, tt), (tt, tt)));
    no_reads = refl;
    no_writes = refl;
  };
  readset_ascending = tt;
  writeset_ascending = (tt, tt);
  no_overlap = (refl, tt);
}

IsRequestable-expect : IsRequestable (heap 2)
unfolding new_expect
IsRequestable-expect = record {
  fresh = record {
    runnable = (new-IsRunnable ((4, 10) ∷ []) [] [] 0 blank (tt, tt) tt).1;
    no_reads = refl;
    no_writes = refl;
  };
  readset_ascending = (tt, tt);
  writeset_ascending = tt;
  no_overlap = tt;
}

processor-IsStart : IsStart owners-Contract (by_locks owners-Exclusion) processor stored
unfolding owners-Contract owners-Exclusion
processor-IsStart = record {
  stored = refl;
  isolated = record { valid = tt; unasked = λ p j. refl };
  once = λ p. ground arith;
  nobody_waits = λ p. refl;
  idle = (refl, refl, refl);
  requests = λ p h. elim (ℕ_discrete p 1) [
    | yes e ↦ subst (λ q. IsRequestable (heap q)) (sym e) IsRequestable-rmw
    | no ne ↦
        subst
          (λ b.
            IsRequestable
              (if b then new_rmw [] (4 ∷ []) 0 blank else new_expect ((4, 10) ∷ []) blank))
          (sym (beq_of_ne p 1 ne)) IsRequestable-expect
  ];
}

abbrev pub chance : Chance
chance = record { start = 5; write_time = λ i. i; junk = 77 }

abbrev machine : Machine Owners
machine = started processor

-- A thread has begun transaction 1, which owns record 4, when a client hands in transaction 2, which asks
-- for the record.
abbrev one_begun : Machine Owners
one_begun =
    begin_txn (record machine { processor = launch owners (admit owners processor) 1 [] }) 1 []
      chance

abbrev two_asked : Machine Owners
two_asked = record one_begun { processor = requested one_begun.processor 2 }

abbrev both_admitted : Machine Owners
both_admitted = record two_asked { processor = admit owners two_asked.processor }

abbrev pub reader : Job
reader = record { txn = 1; chance = chance; keys = 4 ∷ [] }

abbrev one_read : Machine Owners
one_read = read_next both_admitted [] reader 4 [] []

abbrev pub incremented : Object
incremented = record {
  program = rmw 0;
  txn = record {
    readset = [];
    writeset = 4 ∷ [];
    reads = (4, 11) ∷ [];
    writes = (4, 11) ∷ [];
    status = completed_c;
    unique_id = 0;
    occ_start_time = 5;
  };
}

abbrev one_ended : Machine Owners
one_ended = record one_read {
  processor = record (one_read.processor) {
    heap = update one_read.processor.heap 1 incremented;
    completed_txns = 1 ∷ [];
  };
  jobs = [];
}

abbrev one_written : Machine Owners
one_written =
    write_next
      (record one_ended { processor = record (one_ended.processor) { completed_txns = [] } }) 1
      chance 0 4 11

abbrev one_committed : Machine Owners
one_committed = record one_written { processor = settle owners one_written.processor 1 true }

one_begun_run : Run owners (at admitting) machine (at admitting) one_begun
unfolding admit launch new_rmw
one_begun_run =
    works
      (schedules
        (schedules (schedules (schedules start admits) (all_completed refl)) (launches 1 [] refl))
        (all_launched refl))
      (begins 1 [] [] chance refl)

two_asked-returns : new_txn_request one_begun.processor 2 ≡ ok (requested one_begun.processor 2)
unfolding new_txn_request begin_txn admit launch
two_asked-returns = refl

both_admitted_run : Run owners (at admitting) machine (at completing) both_admitted
both_admitted_run =
    schedules (requests {s = requested one_begun.processor 2} 2 one_begun_run two_asked-returns)
      admits

one_ended-ends : end_txn one_read (record reader { keys = [] }) [] ≡ ok one_ended
unfolding end_txn begin_txn read_next admit launch new_rmw run store_read read
one_ended-ends = refl

one_committed_run : Run owners (at admitting) machine (at completing) one_committed
unfolding begin_txn read_next end_txn write_next admit launch new_rmw run store_read read
one_committed_run =
    schedules
      (schedules
        (schedules
          (works (works both_admitted_run (reads [] reader [] 4 [] refl refl))
            (ends [] (record reader { keys = [] }) [] refl refl one_ended-ends))
          (starts_commit 1 [] chance refl refl))
        writes)
      ends_commit

-- A client takes the result.
abbrev one_taken : Machine Owners
one_taken = record one_committed {
  processor = record (one_committed.processor) { txn_results = [] };
  taken = one_committed.taken ++ 1 ∷ [];
}

one_taken-returns :
    get_txn_result one_committed.processor
    ≡ some (1, record (one_committed.processor) { txn_results = [] })
unfolding get_txn_result settle push_result release_locks write_next begin_txn admit launch new_rmw
    read_next
one_taken-returns = refl

one_taken_run : Run owners (at admitting) machine (at completing) one_taken
one_taken_run = takes 1 one_committed_run one_taken-returns

two-IsHanded : IsHanded owners-Contract processor (2 ∷ [])
unfolding owners-Contract
two-IsHanded = record {
  once = λ p. ground arith;
  requestable = λ p h. elim (ℕ_discrete p 2) [
    | yes e ↦ subst (λ q. IsRequestable (heap q)) (sym e) IsRequestable-expect
    | no ne ↦ absurd (omega (arith, h, ap as_number (beq_of_ne p 2 ne)))
  ];
}

Run-Follows_example : Follows owners admitting processor (at completing) one_taken (2 ∷ [])
unfolding one_taken_run one_committed_run both_admitted_run one_begun_run
Run-Follows_example =
    Run-Follows owners owners-Contract (by_locks owners-Exclusion) processor stored
      processor-IsStart admitting one_taken_run two-IsHanded

Run-Schedules_example :
    (point : Point) × (m : Machine Owners) × SchedulerStep owners (at completing) one_taken point m
unfolding one_taken_run one_committed_run both_admitted_run one_begun_run
Run-Schedules_example =
    Run-Schedules owners owners-Contract (by_locks owners-Exclusion) processor stored
      processor-IsStart one_taken_run two-IsHanded
