-- ===== src/Txn/Programs.antt =====
-- a2/txn/txn_types.h: the classes derived from `Txn`, one constructor each, and their `Run`.
pub mod Runs
pub mod Constructors
pub mod Random
use cmcs624_fall.Common.{
  ℕ, ◌+◌, ◌%◌, ◌^◌, Bool, true, false, List, [], ◌∷◌, ◌||◌, not, if◌then◌else◌, ◌==◌, Outcome, ok,
  died, ◌>>=◌, ◌>>◌,
}
use cmcs624_fall.Common.Map
use cmcs624_fall.Common.Map.{Map}
use cmcs624_fall.Common.KeySet
use cmcs624_fall.Txn.{Txn, completed_c, completed_a, incomplete, read, write, copy_txn_internals}

-- What a class adds to `Txn`. The `time_` of `RMW` is how long its `Run` keeps a processor busy.
pub data Program : Type 0 where
  noop : Program
  expect : Map ℕ → Program
  put : Map ℕ → Program
  rmw : ℕ → Program

-- An object of one of the classes.
pub record Object : Type 0 where
  pub program : Program
  pub txn : Txn

-- The base class sets only the status. `unset` holds what memory held: the id and the start time.
abbrev pub new_txn : List ℕ → List ℕ → Txn → Txn
new_txn readset writeset unset = record {
  readset = readset;
  writeset = writeset;
  reads = [];
  writes = [];
  status = incomplete;
  unique_id = unset.unique_id;
  occ_start_time = unset.occ_start_time;
}

-- `for (it = m_.begin(); ...) set.insert(it->first);`
insert_keys : Map ℕ → List ℕ → List ℕ
insert_keys [] set = set
insert_keys ((k, _) ∷ m) set = insert_keys m (KeySet.insert k set)

unfoldable pub new_noop : Txn → Object
new_noop unset = record { program = noop; txn = new_txn [] [] unset }

unfoldable pub new_expect : Map ℕ → Txn → Object
unfolding insert_keys
new_expect m unset = record { program = expect m; txn = new_txn (insert_keys m []) [] unset }

unfoldable pub new_put : Map ℕ → Txn → Object
unfolding insert_keys
new_put m unset = record { program = put m; txn = new_txn [] (insert_keys m []) unset }

unfoldable pub new_rmw : List ℕ → List ℕ → ℕ → Txn → Object
new_rmw readset writeset time unset = record {
  program = rmw time;
  txn = new_txn readset writeset unset;
}

-- A new object of the class, then `CopyTxnInternals`.
clone_program : Program → Txn → Object
unfolding new_noop new_expect new_put new_rmw
clone_program noop unset = new_noop unset
clone_program (expect m) unset = new_expect m unset
clone_program (put m) unset = new_put m unset
clone_program (rmw time) unset = new_rmw [] [] time unset

pub clone : Object → Txn → Object
unfolding clone_program copy_txn_internals
clone o unset =
    let fresh = clone_program o.program unset in
    record fresh { txn = copy_txn_internals o.txn fresh.txn }

-- The macros `COMMIT` and `ABORT`.
abbrev pub commit : Txn → Txn
commit t = record t { status = completed_c }

abbrev pub abort : Txn → Txn
abort t = record t { status = completed_a }

-- The loop of `Expect::Run`. `result` is the local variable.
expect_loop : Txn → Map ℕ → ℕ → Outcome Txn
expect_loop t [] result = ok (commit t)
expect_loop t ((k, v) ∷ m) result = do
  (seen, found) ← read t k result
  let rest = expect_loop t m seen
  if not found || not (seen == v) then ok (abort t) else rest

put_loop : Txn → Map ℕ → Outcome Txn
put_loop t [] = ok t
put_loop t ((k, v) ∷ m) = do t' ← write t k v; put_loop t' m

-- The two loops of `RMW::Run`; the first throws its results away.
read_loop : Txn → List ℕ → ℕ → Outcome (Unit {0})
read_loop t [] result = ok tt
read_loop t (k ∷ ks) result = do (seen, _) ← read t k result; read_loop t ks seen

increment_loop : Txn → List ℕ → Outcome Txn
increment_loop t [] = ok t
increment_loop t (k ∷ ks) = do
  (seen, _) ← read t k 0
  t' ← write t k ((seen + 1) % 2 ^ 64)
  increment_loop t' ks

-- `Run`. `result` is the local variable of that name, which no program initialises.
unfoldable pub run : Program → Txn → ℕ → Outcome Txn
unfolding expect_loop put_loop read_loop increment_loop read write
run noop t result = ok (commit t)
run (expect m) t result = expect_loop t m result
run (put m) t result = do t' ← put_loop t m; ok (commit t')
run (rmw time) t result = do
  read_loop t t.readset result
  t' ← increment_loop t t.writeset
  ok (commit t')
