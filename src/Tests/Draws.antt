-- ===== src/Tests/Draws.antt =====
-- The generation of requests and of transactions with a concrete generator of numbers.
use cmcs624_fall.Common.{
  ◌<◌, ℕ, ◌+◌, ◌-◌, ◌%◌, ◌≡◌, arith, true, false, some, List, [], All, length,
}
use cmcs624_fall.Common.Draws.{Covers}
use cmcs624_fall.Mutex.{returned, free, held}
use cmcs624_fall.Database.{Database}
use cmcs624_fall.Request.Order.{AllBytes}
use cmcs624_fall.TestRun.{IsProper}
use cmcs624_fall.TestRun.SetUp.{test_db_sz, num_requests, set_up, set_up_lem}
use cmcs624_fall.Request.{Request}
use cmcs624_fall.Generate.{generate_requests}
use cmcs624_fall.Generate.Keys.{IsGenerated, generate_requests_lem}
use cmcs624_fall.Config.{ExptConfig, pos, process}
use cmcs624_fall.Txn.{Txn, incomplete}
use cmcs624_fall.Txn.Programs.{Object}
use cmcs624_fall.Txn.Programs.Random.{new_random_rmw}
use cmcs624_fall.Txn.Programs.Random.Draws.{IsRandom, new_random_rmw_lem}

-- A generator that counts draws each of 50 keys in 50 draws.
counting : ℕ → ℕ
counting n = n

counting-Covers : Covers counting 50 50
unfolding counting
counting-Covers at k lt = (d at k, omega arith, omega arith)
  where
    d : ℕ → ℕ → ℕ
    d at k = (k + (50 - at % 50)) % 50

generate_requests_lem_example :
    (rs : List Request) × (pos' : ℕ) × (generate_requests counting 50 50 2 0 ≡ some (rs, pos'))
    × (length rs ≡ 2)
    × All (IsGenerated 50) rs
generate_requests_lem_example =
    generate_requests_lem counting 50 50 2 0 counting-Covers (omega arith)

abbrev blank : Txn
blank = record {
  readset = [];
  writeset = [];
  reads = [];
  writes = [];
  status = incomplete;
  unique_id = 0;
  occ_start_time = 0;
}

-- As many keys as there are records.
new_random_rmw_lem_example :
    (o : Object) × (pos' : ℕ) × (new_random_rmw counting 50 7 50 20 30 0 blank ≡ returned (o, pos'))
    × IsRandom 50 20 30 o
new_random_rmw_lem_example =
    new_random_rmw_lem counting 50 7 50 20 30 0 blank counting-Covers (omega arith)

counting-Covers_500 : Covers counting 500 500
unfolding counting
counting-Covers_500 at k lt = (d at k, omega arith, omega arith)
  where
    d : ℕ → ℕ → ℕ
    d at k = (k + (500 - at % 500)) % 500

set_up_lem_example :
    (db_test : Database) × (db_simple : Database) × (reqs : List Request) × (set_up counting 500
        (λ _. held)
        (λ _. free)
      ≡ returned (db_test, db_simple, reqs))
    × (db_simple.records ≡ db_test.records)
    × AllBytes db_test.records
    × (db_test.num_records ≡ test_db_sz)
    × (db_simple.num_records ≡ test_db_sz)
    × ((k : ℕ) → k < test_db_sz → (db_test.locks k ≡ free) × (db_simple.locks k ≡ free))
    × (length reqs ≡ num_requests)
    × All (IsProper test_db_sz) reqs
set_up_lem_example = set_up_lem counting 500 (λ _. held) (λ _. free) counting-Covers_500

-- `--exp_type 1 --max_outstanding 8 --contention`, with a flag that is set at the fourth read.
abbrev processes : ExptConfig
processes = record {
  max_outstanding_ = pos 8;
  pool_size_ = pos 0;
  type_ = process;
  test_ = false;
  contention_ = true;
}
