-- ===== src/Experiment.antt =====
-- a1/src/start.cc: how `main` puts an experiment together, and the requests that it hands to the launcher.
pub mod Composition
use cmcs624_fall.Common.{
  ℕ, zero, suc, ◌+◌, ◌*◌, ◌%◌, ◌^◌, Bool, true, false, Option, none, some, List, [], ◌∷◌, ◌++◌,
  if◌then◌else◌, ◌&&◌, ltb, leb, length,
}
use cmcs624_fall.Mutex.{Attempt, returned, failed, waiting, assert, ◌>>=◌, ◌>>◌}
use cmcs624_fall.Database.{Random, nfields}
use cmcs624_fall.Request.{Request}
use cmcs624_fall.Launcher.{int_max}
use cmcs624_fall.Generate.{generate_requests}
use cmcs624_fall.Config.{
  ℤ, pos, negsuc, ExecModel, process_pool, process, thread_pool, thread, ExptConfig,
}

-- `LOW_DATABASE_SZ`, `HIGH_DATABASE_SZ`, `DRY_RUN_SZ` and `NUM_REQS`
abbrev pub low_database_sz : ℕ
low_database_sz = 5000000

abbrev pub high_database_sz : ℕ
high_database_sz = 500

abbrev pub dry_run_sz : ℕ
dry_run_sz = 1000

abbrev pub num_reqs : ℕ
num_reqs = 2000000

-- `dbSize` and `multiProcess` of `main`.
abbrev pub database_size : ExptConfig → ℕ
database_size conf = if conf.contention_ then high_database_sz else low_database_sz

abbrev pub multi_process : ExecModel → Bool
multi_process process = true
multi_process process_pool = true
multi_process thread = false
multi_process thread_pool = false

-- The launchers, with the argument of their constructor.
pub data Launcher : Type 0 where
  process_launcher thread_launcher : ℤ → Launcher

-- The constructors of the two pools, up to the assertion that stands for the code to be written.
abbrev process_pool_launcher : ℤ → Attempt Launcher
process_pool_launcher nprocs = failed

abbrev is_positive : ℤ → Bool
is_positive (pos zero) = false
is_positive (pos (suc n)) = true
is_positive (negsuc n) = false

thread_pool_launcher : ℤ → Attempt Launcher
thread_pool_launcher pool_sz = do assert (is_positive pool_sz); failed

abbrev is_below_int_max : ℤ → Bool
is_below_int_max (pos n) = ltb n int_max
is_below_int_max (negsuc n) = true

-- The constructor of `ProcessLauncher`, with its first assertion.
new_process_launcher : ℤ → Attempt Launcher
new_process_launcher max_outstanding = do
  assert (is_below_int_max max_outstanding && is_positive max_outstanding)
  returned (process_launcher max_outstanding)

new_launcher : ExptConfig → ExecModel → Attempt Launcher
unfolding thread_pool_launcher new_process_launcher
new_launcher conf process = new_process_launcher conf.max_outstanding_
new_launcher conf process_pool = process_pool_launcher conf.pool_size_
new_launcher conf thread = returned (thread_launcher conf.max_outstanding_)
new_launcher conf thread_pool = thread_pool_launcher conf.pool_size_

-- An element of an array. A read beyond its end has no meaning in the program: here it fails.
abbrev pub element : {A : Type 0} → List A → ℕ → Attempt A
element [] i = failed
element (x ∷ xs) zero = returned x
element (x ∷ xs) (suc i) = element xs i

-- "Do dry run": `n` requests, from the one at `i` on.
dry_run : List Request → ℕ → ℕ → Attempt (List Request)
dry_run reqs zero i = returned []
dry_run reqs (suc n) i = do r ← element reqs i; rest ← dry_run reqs n (suc i); returned (r ∷ rest)

-- The loop of `run_experiment`: what each read of `done_flag` gives, and the requests that are handed to
-- the launcher. `i` has 32 bits. A list of reads that ends before the flag is set is a part of a run.
experiment_loop : List Request → ℕ → List Bool → Attempt (List Request)
experiment_loop reqs i [] = returned []
experiment_loop reqs i (true ∷ reads) = returned []
experiment_loop reqs i (false ∷ reads) = do
  r ← element reqs (i % num_reqs)
  rest ← experiment_loop reqs ((i + 1) % 2 ^ 32) reads
  returned (r ∷ rest)

pub run_experiment : List Request → List Request → List Bool → Attempt (List Request)
unfolding dry_run experiment_loop
run_experiment dry reqs reads = do
  first ← dry_run dry dry_run_sz 0
  rest ← experiment_loop reqs 0 reads
  returned (first ++ rest)

abbrev from_fuel : {A : Type 0} → Option A → Attempt A
from_fuel none = waiting
from_fuel (some a) = returned a

-- `main` without `--test`: the launcher, and the requests in the order in which it gets them. The
-- database has drawn the first numbers of `rand`.
pub measure : Random → ℕ → ExptConfig → List Bool → Attempt (Launcher × List Request)
measure rand fuel conf reads = do
  let size = database_size conf
  (dry, at) ← from_fuel (generate_requests rand fuel size dry_run_sz (size * nfields))
  (reqs, at') ← from_fuel (generate_requests rand fuel size num_reqs at)
  lnchr ← new_launcher conf conf.type_
  executed ← run_experiment dry reqs reads
  returned (lnchr, executed)
