-- ===== src/Storage.antt =====
-- a2/txn/storage.h and storage.cc, a2/txn/mvcc_storage.h and mvcc_storage.cc.
pub mod Laws
use cmcs624_fall.Common.{
  ℕ, zero, suc, ◌+◌, Bool, true, false, Option, none, some, List, [], Outcome, ok, died, ◌>>=◌,
}
use cmcs624_fall.Common.Map
use cmcs624_fall.Common.Map.{Map}
use cmcs624_fall.Mutex.{Mutex, free, lock, unlock}

-- Times are numbers of microseconds.
pub record Storage : Type 0 where
  pub records : Map ℕ
  pub timestamps : Map ℕ

abbrev pub empty_storage : Storage
empty_storage = record { records = []; timestamps = [] }

abbrev found_or : Option ℕ → ℕ → ℕ × Bool
found_or (some v) result = (v, true)
found_or none result = (result, false)

-- `result` is what `*result` holds before the call; the pair is `*result` after it and what the
-- method returns.
unfoldable pub read : Storage → ℕ → ℕ → ℕ × Bool
read s key result = found_or (Map.lookup key s.records) result

-- `now` is the time that `GetTime` gives.
unfoldable pub write : Storage → ℕ → ℕ → ℕ → Storage
write s key value now = record {
  records = Map.insert key value s.records;
  timestamps = Map.insert key now s.timestamps;
}

abbrev zero_or : Option ℕ → ℕ
zero_or none = 0
zero_or (some time) = time

pub timestamp : Storage → ℕ → ℕ
timestamp s key = zero_or (Map.lookup key s.timestamps)

-- The loop of `InitStorage`, with `n` rounds to go from `i` on. `clock i` is the time in round `i`.
init_loop : (ℕ → ℕ) → ℕ → ℕ → Storage → Storage
init_loop clock zero i s = s
init_loop clock (suc n) i s = init_loop clock n (suc i) (write s i 0 (clock i))

pub init_size : ℕ
init_size = 1000000

pub init_storage : (ℕ → ℕ) → Storage → Storage
unfolding init_loop
init_storage clock s = init_loop clock init_size 0 s

pub record Version : Type 0 where
  pub value : ℕ
  pub max_read_id : ℕ
  pub version_id : ℕ

pub record MvccStorage : Type 0 where
  pub mvcc_data : Map (List Version)
  pub mutexs : Map Mutex

-- The three methods that the repository leaves to be written, as they stand.
unfoldable pub mvcc_read : MvccStorage → ℕ → ℕ → ℕ → ℕ × Bool
mvcc_read s key result txn_unique_id = (result, true)

unfoldable pub mvcc_check_write : MvccStorage → ℕ → ℕ → Bool
mvcc_check_write s key txn_unique_id = true

unfoldable pub mvcc_write : MvccStorage → ℕ → ℕ → ℕ → MvccStorage
mvcc_write s key value txn_unique_id = s

mvcc_init_loop : ℕ → ℕ → MvccStorage → MvccStorage
unfolding mvcc_write
mvcc_init_loop zero i s = s
mvcc_init_loop (suc n) i s =
    let written = mvcc_write s i 0 0 in
    mvcc_init_loop n (suc i) (record written { mutexs = Map.insert i free written.mutexs })

pub mvcc_init_storage : MvccStorage → MvccStorage
unfolding mvcc_init_loop
mvcc_init_storage s = mvcc_init_loop init_size 0 s

-- `Lock(key)` and `Unlock(key)`. A key with no mutex is a call through a null pointer.
pub data Locking : Type 0 where
  locked : MvccStorage → Locking
  waits : Locking
  null_mutex : Locking

lock_at : MvccStorage → ℕ → Option Mutex → Locking
unfolding lock
lock_at s key none = null_mutex
lock_at s key (some m) = elim (lock m) [
  | none ↦ waits
  | some m' ↦ locked (record s { mutexs = Map.insert key m' s.mutexs })
]

pub mvcc_lock : MvccStorage → ℕ → Locking
unfolding lock_at
mvcc_lock s key = lock_at s key (Map.lookup key s.mutexs)

unlock_at : MvccStorage → ℕ → Option Mutex → Locking
unlock_at s key none = null_mutex
unlock_at s key (some m) = locked (record s { mutexs = Map.insert key (unlock m) s.mutexs })

pub mvcc_unlock : MvccStorage → ℕ → Locking
unfolding unlock_at unlock
mvcc_unlock s key = unlock_at s key (Map.lookup key s.mutexs)
