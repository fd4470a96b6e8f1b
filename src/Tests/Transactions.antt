-- ===== src/Tests/Transactions.antt =====
-- Transactions, storage and the processor of a2 at concrete inputs.
use cmcs624_fall.Common.{
  ℕ, ◌+◌, ◌≤◌, ◌≡◌, ◌↔◌, refl, arith, true, false, some, [], ◌∷◌, if◌then◌else◌, ◌==◌, ltb, ok,
  died, count,
}
use cmcs624_fall.Common.Map
use cmcs624_fall.Common.KeySet
use cmcs624_fall.Common.Map.{Map}
use cmcs624_fall.Mutex.{free}
use cmcs624_fall.Txn.{Txn, incomplete, completed_c, completed_a, read, check_read_write_sets}
use cmcs624_fall.Txn.Access.{Disjoint, check_read_write_sets_lem}
use cmcs624_fall.Txn.Programs.{rmw, Object, new_expect, new_rmw, run}
use cmcs624_fall.Txn.Programs.Runs.{insert_all, written, votes_commit, run_lem}
use cmcs624_fall.Txn.Programs.Constructors.{new-IsRunnable}
use cmcs624_fall.Storage.{
  Storage, empty_storage, init_storage, init_size, MvccStorage, mvcc_init_storage, mvcc_lock,
  mvcc_unlock, locked, waits, null_mutex,
}
use cmcs624_fall.Storage
use cmcs624_fall.Storage.Laws.{init_storage-read, lock-unlock}
use cmcs624_fall.LockManager.{LockTable, new_lock_table, lock_manager_b}
use cmcs624_fall.Processor.Locking.Requesting.{requested}
use cmcs624_fall.Processor.{
  new_txn_request, Processor, single, Chance, run_serial_scheduler, serial_round,
}
use cmcs624_fall.Processor.Execution.{IsFresh}
use cmcs624_fall.Processor.Serial.{Served, serial_round_lem}
use cmcs624_fall.Processor.History.{Finished, run_serial_scheduler_lem}
use cmcs624_fall.Processor.Locking.{admitting, admits, start, later, requests, admit}
use cmcs624_fall.Processor.Locking.Contract.{contract_b}
use cmcs624_fall.Processor.Locking.Places.{places}
use cmcs624_fall.Processor.Locking.Conservation.{Run-places}

abbrev blank : Txn
blank = record {
  readset = 3 ∷ [];
  writeset = 4 ∷ 5 ∷ [];
  reads = [];
  writes = [];
  status = incomplete;
  unique_id = 0;
  occ_start_time = 0;
}

abbrev five : ℕ
five = 5

check_read_write_sets_lem_example :
    ((check_read_write_sets blank ≡ ok tt) ↔ Disjoint blank.readset blank.writeset)
    × ((check_read_write_sets blank ≡ died) ↔ (¬ Disjoint blank.readset blank.writeset))
check_read_write_sets_lem_example = check_read_write_sets_lem blank

run_lem_example :
    run (rmw 0) blank 0
    ≡ ok (record blank {
      writes = insert_all (written (rmw 0) blank) blank.writes;
      reads = insert_all (written (rmw 0) blank) blank.reads;
      status = if votes_commit (rmw 0) blank then completed_c else completed_a;
    })
run_lem_example =
    run_lem (rmw 0) blank 0 refl ((refl, tt), (refl, (refl, tt)), ((omega arith, tt), (tt, tt)))

init_storage-read_example :
    Storage.read (init_storage (λ i. i) empty_storage) 0 42
    ≡ (if ltb 0 init_size then (0, true) else (42, false))
init_storage-read_example = init_storage-read (λ i. i) 0 42

unlocked : MvccStorage
unlocked = record { mvcc_data = []; mutexs = (3, free) ∷ (8, free) ∷ [] }

lock-unlock_example :
    (t u : MvccStorage) × (mvcc_lock unlocked 3 ≡ locked t)
    × (mvcc_lock t 3 ≡ waits)
    × (Map.lookup 8 t.mutexs ≡ Map.lookup 8 unlocked.mutexs)
    × (mvcc_unlock t 3 ≡ locked u)
    × (Map.lookup 3 u.mutexs ≡ some free)
    × (Map.lookup 8 u.mutexs ≡ Map.lookup 8 unlocked.mutexs)
unfolding unlocked
lock-unlock_example = lock-unlock unlocked 3 8 refl (λ e. omega arith)

chance : Chance
chance = record { start = 5; write_time = λ i. i; junk = 77 }

-- A storage with one record, a transaction that increments it, and one that expects the old value.
abbrev stored : Storage
stored = record { records = (4, 10) ∷ []; timestamps = [] }

abbrev heap : ℕ → Object
heap p = if p == 1 then new_rmw [] (4 ∷ []) 0 blank else new_expect ((4, 10) ∷ []) blank

abbrev processor : Processor LockTable
processor = record {
  heap = heap;
  storage = single stored;
  next_unique_id = 3;
  txn_requests = 1 ∷ 2 ∷ [];
  ready_txns = [];
  tasks = [];
  completed_txns = [];
  txn_results = [];
  locks = new_lock_table;
}

IsFresh-rmw : IsFresh (heap 1)
unfolding new_rmw
IsFresh-rmw = record {
  runnable = (refl, (tt, (refl, tt), (tt, tt)));
  no_reads = refl;
  no_writes = refl;
}

IsFresh-expect : IsFresh (heap 2)
unfolding new_expect
IsFresh-expect = record {
  runnable = (new-IsRunnable ((4, 10) ∷ []) [] [] 0 blank (tt, tt) tt).1;
  no_reads = refl;
  no_writes = refl;
}

run_serial_scheduler_lem_example :
    (st' : Storage) × (s' : Processor LockTable) × (run_serial_scheduler processor
        (chance ∷ chance ∷ chance ∷ [])
      ≡ ok s')
    × Finished processor s' stored st' (1 ∷ 2 ∷ [])
run_serial_scheduler_lem_example =
    run_serial_scheduler_lem processor stored (1 ∷ 2 ∷ []) (chance ∷ chance ∷ chance ∷ []) refl refl
      (((λ e. omega arith), tt), (tt, tt)) (IsFresh-rmw, (IsFresh-expect, tt)) (omega arith)

serial_round_lem_example :
    (st' : Storage) × (s' : Processor LockTable) × (serial_round processor chance ≡ ok s')
    × (s'.txn_requests ≡ 2 ∷ [])
    × Served processor s' stored st' 1
serial_round_lem_example = serial_round_lem processor stored 1 (2 ∷ []) chance refl refl IsFresh-rmw

once : (p : ℕ) → places contract_b.waits processor p + count p (3 ∷ []) ≤ 1
unfolding contract_b
once p = ground arith

three_asked :
    new_txn_request (admit lock_manager_b processor) 3
    ≡ ok (requested (admit lock_manager_b processor) 3)
unfolding new_txn_request admit
three_asked = refl

Run-places_example :
    places contract_b.waits (requested (admit lock_manager_b processor) 3) 3
    ≡ places contract_b.waits processor 3 + 1
Run-places_example =
    Run-places lock_manager_b contract_b {phase = admitting}
      (requests 3 (later start admits) three_asked) once 3
