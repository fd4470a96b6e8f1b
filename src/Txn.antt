-- ===== src/Txn.antt =====
-- a2/txn/txn.h and a2/txn/txn.cc: the state of a transaction, and what its program may do with it.
pub mod Programs
pub mod Access
use cmcs624_fall.Common.{
  ℕ, Bool, true, false, Option, none, some, List, [], ◌∷◌, ◌||◌, not, if◌then◌else◌, Outcome, ok,
  died, ◌>>=◌, ◌>>◌, check,
}
use cmcs624_fall.Common.Map
use cmcs624_fall.Common.Map.{Map}
use cmcs624_fall.Common.KeySet

pub data TxnStatus : Type 0 where
  incomplete completed_c completed_a committed aborted : TxnStatus

-- Keys and values are uint64_t. A time is a number of microseconds.
pub record Txn : Type 0 where
  pub readset : List ℕ
  pub writeset : List ℕ
  pub reads : Map ℕ
  pub writes : Map ℕ
  pub status : TxnStatus
  pub unique_id : ℕ
  pub occ_start_time : ℕ

-- `status_ == INCOMPLETE`
abbrev pub is_incomplete : TxnStatus → Bool
is_incomplete incomplete = true
is_incomplete _ = false

-- The reads of an incomplete transaction. `value` is what `*value` holds before the call.
abbrev pub read_result : Option ℕ → ℕ → ℕ × Bool
read_result (some v) value = (v, true)
read_result none value = (value, false)

unfoldable pub read : Txn → ℕ → ℕ → Outcome (ℕ × Bool)
read t key value = do
  check (KeySet.contains key t.readset || KeySet.contains key t.writeset)
  ok (
      if not (is_incomplete t.status)
      then (value, false)
      else read_result (Map.lookup key t.reads) value)

unfoldable pub write : Txn → ℕ → ℕ → Outcome Txn
write t key value = do
  check (KeySet.contains key t.writeset)
  ok (
      if not (is_incomplete t.status) then t else record t {
        writes = Map.insert key value t.writes;
        reads = Map.insert key value t.reads;
      })

-- The loop of `CheckReadWriteSets` over the keys of the write set that are left.
check_overlap : List ℕ → List ℕ → Outcome (Unit {0})
check_overlap readset [] = ok tt
check_overlap readset (key ∷ rest) =
    if KeySet.contains key readset then died else check_overlap readset rest

pub check_read_write_sets : Txn → Outcome (Unit {0})
unfolding check_overlap
check_read_write_sets t = check_overlap t.readset t.writeset

-- `this` is copied into `txn`.
unfoldable pub copy_txn_internals : Txn → Txn → Txn
copy_txn_internals this txn = record txn {
  readset = this.readset;
  writeset = this.writeset;
  reads = this.reads;
  writes = this.writes;
  status = this.status;
  unique_id = this.unique_id;
  occ_start_time = this.occ_start_time;
}
