-- ===== src/Processor/Modes.antt =====
-- The modes of a2/txn/txn_processor.h: the constructor of the processor, `RunScheduler`, and
-- `GetTxnResult`.
use cmcs624_fall.Common.{ℕ, ◌≡◌, refl, Option, none, some, []}
use cmcs624_fall.LockManager.{
  LockManager, LockTable, new_lock_table, lock_manager_a, lock_manager_b,
}
use cmcs624_fall.Storage.{empty_storage, init_storage, mvcc_init_storage}
use cmcs624_fall.Txn.Programs.{Object}
use cmcs624_fall.Processor.{Processor, Store, single, multi}
use cmcs624_fall.Processor.Locking.Contract.{Contract, contract_a, contract_b}

pub data CcMode : Type 0 where
  serial locking_exclusive_only locking occ p_occ mvcc : CcMode

-- The two loops that `RunScheduler` ends up in.
pub data Scheduler : Type 0 where
  serial_scheduler locking_scheduler : Scheduler

-- `RunOCCScheduler`, `RunOCCParallelScheduler` and `RunMVCCScheduler` call `RunSerialScheduler`.
unfoldable pub run_scheduler : CcMode → Scheduler
run_scheduler serial = serial_scheduler
run_scheduler locking = locking_scheduler
run_scheduler locking_exclusive_only = locking_scheduler
run_scheduler occ = serial_scheduler
run_scheduler p_occ = serial_scheduler
run_scheduler mvcc = serial_scheduler

-- `lm_`, where the constructor sets it.
unfoldable pub lock_manager_of : CcMode → Option (LockManager LockTable)
lock_manager_of locking_exclusive_only = some lock_manager_a
lock_manager_of locking = some lock_manager_b
lock_manager_of _ = none

unfoldable pub store_of : CcMode → (ℕ → ℕ) → Store
store_of mvcc clock = multi (mvcc_init_storage (record { mvcc_data = []; mutexs = [] }))
store_of _ clock = single (init_storage clock empty_storage)

unfoldable pub new_processor : CcMode → (ℕ → ℕ) → (ℕ → Object) → Processor LockTable
unfolding store_of
new_processor mode clock heap = record {
  heap = heap;
  storage = store_of mode clock;
  next_unique_id = 1;
  txn_requests = [];
  ready_txns = [];
  tasks = [];
  completed_txns = [];
  txn_results = [];
  locks = new_lock_table;
}

-- What `lm_` is for a scheduler: the locking scheduler has one that keeps the contract.
abbrev pub Suits : Scheduler → Option (LockManager LockTable) → Type 0
Suits serial_scheduler lm = lm ≡ none
Suits locking_scheduler none = ⊥
Suits locking_scheduler (some lm) = Contract LockTable lm

-- In every mode the scheduler that runs finds what it needs: the locking scheduler a lock manager
-- that the constructor made and that keeps the contract, and the serial one is used in the modes
-- without a lock manager.
pub run_scheduler-Suits : (mode : CcMode) → Suits (run_scheduler mode) (lock_manager_of mode)
unfolding run_scheduler lock_manager_of
run_scheduler-Suits serial = refl
run_scheduler-Suits locking_exclusive_only = contract_a
run_scheduler-Suits locking = contract_b
run_scheduler-Suits occ = refl
run_scheduler-Suits p_occ = refl
run_scheduler-Suits mvcc = refl
