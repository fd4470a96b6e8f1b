-- ===== src/Storage/Laws.antt =====
-- What a2/txn/storage.cc and the locks of a2/txn/mvcc_storage.cc promise.
use cmcs624_fall.Common.{
  ℕ, zero, suc, ◌+◌, ◌≤◌, ◌<◌, ◌≢◌, [], ◌≡◌, arith, true, false, some, if◌then◌else◌, ◌==◌, ltb,
  leb, ◌&&◌,
}
use cmcs624_fall.Common.Map
use cmcs624_fall.Mutex.{free, held}
use cmcs624_fall.Storage.{
  Storage, empty_storage, read, write, timestamp, init_loop, init_size, init_storage, MvccStorage,
  mvcc_init_loop, mvcc_init_storage, mvcc_lock, mvcc_unlock, locked, waits, null_mutex,
}

-- A read gives the last value written under its key and leaves `*result` alone where there is none,
-- and the timestamp of a key is the time of its last write.
pub read-write :
    (s : Storage) (key j value now result : ℕ)
    → (read (write s key value now) j result
        ≡ (if j == key then (value, true) else read s j result))
      × (timestamp (write s key value now) j ≡ (if j == key then now else timestamp s j))
unfolding read write timestamp
read-write s key j value now result = (
  ground (arith, Map.lookup-insert j key value s.records),
  ground (arith, Map.lookup-insert j key now s.timestamps),
)

init_loop-read :
    (clock : ℕ → ℕ) (n i : ℕ) (s : Storage) (j result : ℕ)
    → read (init_loop clock n i s) j result
      ≡ (if leb i j && ltb j (i + n) then (0, true) else read s j result)
unfolding init_loop
init_loop-read clock zero i s j result = ground arith
init_loop-read clock (suc n) i s j result = ground (
  arith,
  init_loop-read clock n (suc i) (write s i 0 (clock i)) j result,
  (read-write s i j 0 (clock i) result).0,
)

-- After `InitStorage` on a new storage every key below `init_size` reads 0, key 0 too, and no other
-- key is there.
pub init_storage-read :
    (clock : ℕ → ℕ) (j result : ℕ)
    → read (init_storage clock empty_storage) j result
      ≡ (if ltb j init_size then (0, true) else (result, false))
unfolding init_storage read
init_storage-read clock j result =
    ground (arith, init_loop-read clock init_size 0 empty_storage j result)

mvcc_init_loop-mutexs :
    (n i : ℕ) (s : MvccStorage) (j : ℕ)
    → Map.lookup j (mvcc_init_loop n i s).mutexs
      ≡ (if leb i j && ltb j (i + n) then some free else Map.lookup j s.mutexs)
unfolding mvcc_init_loop
mvcc_init_loop-mutexs zero i s j = ground arith
mvcc_init_loop-mutexs (suc n) i s j = ground (
  arith,
  mvcc_init_loop-mutexs n (suc i) (record s { mutexs = Map.insert i free s.mutexs }) j,
  Map.lookup-insert j i free s.mutexs,
)

-- After `InitStorage` every key below `init_size` can be locked at once, and a lock on any other
-- key is a call through a null pointer.
pub mvcc_init-lock :
    (j : ℕ)
    → let s = mvcc_init_storage (record { mvcc_data = []; mutexs = [] }) in
      (j < init_size → (t : MvccStorage) × (mvcc_lock s j ≡ locked t))
      × (init_size ≤ j → mvcc_lock s j ≡ null_mutex)
unfolding mvcc_init_storage mvcc_lock
mvcc_init-lock j =
    let s : MvccStorage = mvcc_init_storage (record { mvcc_data = []; mutexs = [] }) in
    let e = mvcc_init_loop-mutexs init_size 0 (record { mvcc_data = []; mutexs = [] }) j in
    (
      λ h. (record s { mutexs = Map.insert j held s.mutexs }, ground (arith, e)),
      λ h. ground (arith, e),
    )

-- A key that is locked makes every other `Lock` of it wait until it is unlocked, and the locks of
-- the other keys do not change.
pub lock-unlock :
    (s : MvccStorage) (key j : ℕ)
    → Map.lookup key s.mutexs ≡ some free
    → j ≢ key
    → (t u : MvccStorage) × (mvcc_lock s key ≡ locked t)
      × (mvcc_lock t key ≡ waits)
      × (Map.lookup j t.mutexs ≡ Map.lookup j s.mutexs)
      × (mvcc_unlock t key ≡ locked u)
      × (Map.lookup key u.mutexs ≡ some free)
      × (Map.lookup j u.mutexs ≡ Map.lookup j s.mutexs)
unfolding mvcc_lock mvcc_unlock
lock-unlock s key j h ne =
    let t : MvccStorage = record s { mutexs = Map.insert key held s.mutexs } in
    let u : MvccStorage = record t { mutexs = Map.insert key free t.mutexs } in
    let same = Map.lookup-insert key key held s.mutexs in
    let other = Map.lookup-insert j key held s.mutexs in
    let same' = Map.lookup-insert key key free t.mutexs in
    let other' = Map.lookup-insert j key free t.mutexs in
    (
      t,
      u,
      ground arith,
      ground (arith, same),
      ground (arith, other),
      ground (arith, same),
      ground (arith, same'),
      ground (arith, other, other'),
    )
