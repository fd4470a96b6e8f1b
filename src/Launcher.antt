-- ===== src/Launcher.antt =====
-- a1/src/launcher.cc, and the launchers that start a process or a thread for each request
-- (a1/src/process_launcher.cc and a1/src/thread_launcher.cc): their shared counters.
pub mod Process
pub mod Thread
use cmcs624_fall.Common.{
  ℕ, zero, suc, ◌+◌, ◌-◌, ◌*◌, ◌/◌, ◌%◌, ◌^◌, ◌≤◌, ◌<◌, ◌≡◌, ◌≢◌, ◌⊎◌, inl, inr, refl, sym, ap, ◌∙◌,
  subst, arith, Bool, true, false, not, ◌&&◌, ◌||◌, Option, none, some, List, [], ◌∷◌, ◌++◌,
  if◌then◌else◌, ◌==◌, ltb, leb, length, All, Bool-cases, Outcome, ok, died, beq_refl, beq_of_ne,
  lt→ltb, ltb→lt,
}

-- Where the launcher stands in `ExecuteRequest`: before it, at the wait for `max_outstanding_`
-- with the request already started, or, for threads, before it takes `targ_list_`, or in the loop that
-- joins a number of threads.
pub data Parent : Type 0 where
  idle waits collects : Parent
  joins : ℕ → Parent

-- `INT_MAX`
abbrev pub int_max : ℕ
int_max = 2 ^ 31 - 1

-- The test of the loop in `WaitOutstanding`.
abbrev pub all_executed : ℕ → ℕ → Bool
all_executed txns_executed num_requests = txns_executed == num_requests
