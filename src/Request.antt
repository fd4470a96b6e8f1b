-- ===== src/Request.antt =====
-- a1/include/request.h and a1/src/request.cc.
pub mod Fields
pub mod Sequential
pub mod Order
pub mod Copy
use cmcs624_fall.Common.{
  ℕ, zero, suc, ◌+◌, ◌-◌, ◌*◌, ◌/◌, ◌%◌, ◌^◌, ◌≤◌, Bool, true, false, not, Option, none, some, List,
  [], ◌∷◌, if◌then◌else◌, ◌==◌, ltb, length,
}
use cmcs624_fall.Common.Sort.{sort}
use cmcs624_fall.Mutex.{Attempt, returned, assert, ◌>>=◌, ◌>>◌}
use cmcs624_fall.Words.{Bytes, load64, store64}
use cmcs624_fall.Database.{
  Database, record_size, field_size, nfields, update, get_record, lock_record, unlock_record,
}

-- `writeset` is the array of `num_writes_` keys, and `updates` that of one number for each field.
pub record Request : Type 0 where
  pub writeset : List ℕ
  pub updates : ℕ → ℕ

-- The loop of `DoWrite`, with `n` rounds to go from field `i` on.
do_fields : ℕ → ℕ → Bytes → (ℕ → ℕ) → Bytes
do_fields zero i b updates = b
do_fields (suc n) i b updates =
    do_fields n (suc i)
      (store64 b (i * field_size) ((load64 b (i * field_size) + updates i) % 2 ^ 64)) updates

pub do_write : Bytes → (ℕ → ℕ) → Bytes
unfolding do_fields
do_write b updates = do_fields nfields 0 b updates

-- `if (i > 0) assert(writeset_[i - 1] != writeset_[i]);`
abbrev differs : Option ℕ → ℕ → Bool
differs none key = true
differs (some last) key = not (last == key)

-- The loop of `Txn`; `last` is the key of the round before.
txn_loop : Database → Option ℕ → List ℕ → (ℕ → ℕ) → Attempt Database
unfolding do_write
txn_loop db last [] updates = returned db
txn_loop db last (key ∷ rest) updates = do
  assert (differs last key)
  txn_loop (record db { records = update db.records key (do_write (get_record db key) updates) })
      (some key) rest updates

-- `Txn`
unfoldable pub txn : Database → Request → Attempt Database
unfolding txn_loop
txn db r = do assert (record_size % field_size == 0); txn_loop db none r.writeset r.updates

lock_loop : Database → List ℕ → Attempt Database
unfolding lock_record
lock_loop db [] = returned db
lock_loop db (key ∷ rest) = do db' ← lock_record db key; lock_loop db' rest

-- `LockRecords` leaves the write set sorted.
pub lock_records : Database → Request → Attempt (Database × Request)
unfolding lock_loop sort
lock_records db r = do
  let sorted = record r { writeset = sort r.writeset }
  db' ← lock_loop db sorted.writeset
  returned (db', sorted)

unlock_loop : Database → List ℕ → Attempt Database
unfolding unlock_record
unlock_loop db [] = returned db
unlock_loop db (key ∷ rest) = do db' ← unlock_record db key; unlock_loop db' rest

pub unlock_records : Database → Request → Attempt Database
unfolding unlock_loop
unlock_records db r = unlock_loop db r.writeset

pub execute : Database → Request → Attempt (Database × Request)
unfolding lock_records txn unlock_records
execute db r = do
  (db', sorted) ← lock_records db r
  db'' ← txn db' sorted
  db''' ← unlock_records db'' sorted
  returned (db''', sorted)

-- `ROUNDUP(n, v)`
abbrev pub roundup : ℕ → ℕ → ℕ
roundup n v = n - 1 + v - (n - 1) % v

-- `sizeof(Request)` where a pointer has eight bytes: three pointers, and a count padded to eight.
abbrev pub sizeof_request : ℕ
sizeof_request = 32

abbrev pub copy_size : Request → ℕ
copy_size r = roundup sizeof_request 8 + 8 * ((nfields + length r.writeset) % 2 ^ 32)
