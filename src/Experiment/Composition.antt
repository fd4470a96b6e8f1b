-- ===== src/Experiment/Composition.antt =====
-- How the parts of an experiment fit together.
use cmcs624_fall.Common.{ℕ, suc, ◌<◌, ◌≡◌, Bool, true, false, List, [], ◌∷◌, length, All}
use cmcs624_fall.Mutex.{Attempt, returned}
use cmcs624_fall.Request.{Request}
use cmcs624_fall.Launcher.{int_max}
use cmcs624_fall.Config.{ExecModel, process_pool, process, thread_pool, thread, ℤ, pos}
use cmcs624_fall.Experiment.{Launcher, process_launcher, thread_launcher}

-- How many reads of the flag find it not set, before the first that finds it set.
abbrev pub rounds : List Bool → ℕ
rounds [] = 0
rounds (true ∷ reads) = 0
rounds (false ∷ reads) = suc (rounds reads)

-- The requests of a part of the run: each has the property, and there are `n` of them.
abbrev Executed : (Request → Type 0) → ℕ → Attempt (List Request) → Type 0
Executed P n run = (rs : List Request) × (run ≡ returned rs) × (length rs ≡ n) × All P rs

-- Whether the launcher starts processes.
pub forks : Launcher → Bool
forks (process_launcher n) = true
forks (thread_launcher n) = false

-- The numbers that the constructor of `ProcessLauncher` takes.
abbrev pub IsMaximum : ℤ → Type 0
IsMaximum max = (n : ℕ) × (0 < n) × (n < int_max) × (max ≡ pos n)

-- What the constructor of the launcher needs of the command line.
abbrev pub IsSuited : ExecModel → ℤ → Type 0
IsSuited process max = IsMaximum max
IsSuited thread max = Unit {0}
IsSuited process_pool max = ⊥
IsSuited thread_pool max = ⊥
