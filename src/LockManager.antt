-- ===== src/LockManager.antt =====
-- a2/txn/lock_manager.h and lock_manager.cc: the interface, and the two classes as they stand in
-- the repository, with bodies that are left to be written.
use cmcs624_fall.Common.{ℕ, Bool, true, List, []}
use cmcs624_fall.Common.Map.{Map}

pub data LockMode : Type 0 where
  unlocked shared exclusive : LockMode

pub record LockRequest : Type 0 where
  pub txn : ℕ
  pub mode : LockMode

-- The fields of `LockManager`. `ready_txns_` points to the queue of the processor, so it is an
-- argument of the methods.
pub record LockTable : Type 0 where
  pub lock_table : Map (List LockRequest)
  pub txn_waits : Map ℕ

-- The virtual methods, over states `L`. A transaction is the number of its pointer. `release` is
-- given the queue of ready transactions and returns it.
pub record LockManager (L : Type 0) : Type 0 where
  pub read_lock : L → ℕ → ℕ → L × Bool
  pub write_lock : L → ℕ → ℕ → L × Bool
  pub release : L → List ℕ → ℕ → ℕ → L × List ℕ
  pub status : L → ℕ → List ℕ → LockMode × List ℕ

pub new_lock_table : LockTable
new_lock_table = record { lock_table = []; txn_waits = [] }

unfoldable pub write_lock_a : LockTable → ℕ → ℕ → LockTable × Bool
write_lock_a l txn key = (l, true)

unfoldable pub read_lock_a : LockTable → ℕ → ℕ → LockTable × Bool
unfolding write_lock_a
read_lock_a l txn key = write_lock_a l txn key

unfoldable pub release_a : LockTable → List ℕ → ℕ → ℕ → LockTable × List ℕ
release_a l ready txn key = (l, ready)

unfoldable pub status_a : LockTable → ℕ → List ℕ → LockMode × List ℕ
status_a l key owners = (unlocked, owners)

unfoldable pub write_lock_b : LockTable → ℕ → ℕ → LockTable × Bool
write_lock_b l txn key = (l, true)

unfoldable pub read_lock_b : LockTable → ℕ → ℕ → LockTable × Bool
read_lock_b l txn key = (l, true)

unfoldable pub release_b : LockTable → List ℕ → ℕ → ℕ → LockTable × List ℕ
release_b l ready txn key = (l, ready)

unfoldable pub status_b : LockTable → ℕ → List ℕ → LockMode × List ℕ
status_b l key owners = (unlocked, owners)

unfoldable pub lock_manager_a : LockManager LockTable
unfolding write_lock_a read_lock_a release_a status_a
lock_manager_a = record {
  read_lock = read_lock_a;
  write_lock = write_lock_a;
  release = release_a;
  status = status_a;
}

unfoldable pub lock_manager_b : LockManager LockTable
unfolding write_lock_b read_lock_b release_b status_b
lock_manager_b = record {
  read_lock = read_lock_b;
  write_lock = write_lock_b;
  release = release_b;
  status = status_b;
}
