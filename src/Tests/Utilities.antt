-- ===== src/Tests/Utilities.antt =====
-- The containers, the launchers, the monitor and the configuration at concrete inputs.
use cmcs624_fall.Common.{
  ℕ, Option, ◌++◌, length, ◌+◌, ◌≤◌, ◌≡◌, ◌≢◌, ◌↔◌, refl, arith, true, false, none, some, List, [],
  ◌∷◌,
}
use cmcs624_fall.Common.KeySet
use cmcs624_fall.Common.Map
use cmcs624_fall.Mutex.{free, held, returned, failed, ◌>>=◌}
use cmcs624_fall.Atomic.{MutexRw, idle, Guarded}
use cmcs624_fall.Atomic.Sets.{
  inserts, erases, run_changes, member_after, contains, get_first, run_changes_lem,
}
use cmcs624_fall.Atomic.Queues.{
  AtomicQueue, push_all, pop_all, pop_all-push_all, Call, pushes, pops, run_calls, non_blocking_lem,
}
use cmcs624_fall.Launcher.{idle, int_max, all_executed}
use cmcs624_fall.Launcher.Process
use cmcs624_fall.Launcher.Process.{Processes, outstanding-bounded, overshoot}
use cmcs624_fall.Launcher.Thread
use cmcs624_fall.Launcher.Thread.{Threads, to_join, threads-accounted}
use cmcs624_fall.Monitor.{Sample, nanos, run_loop, executed_in_all, nanos_of_all, run_loop-totals}
use cmcs624_fall.Config.{
  pos, negsuc, exits, aborts, init_config, expt_config, exp_type, max_outstanding, pool_size,
}
use cmcs624_fall.Config.Accepted.{is_parsed, suits, init_config-parsed}
use cmcs624_fall.Config.CommandLine.{find_arg, is_given, is_clean, expt_config_lem}
use cmcs624_fall.ThreadPool.{Thread, drain}
use cmcs624_fall.ThreadPool.Threads.{drain-run}

run_changes_lem_example :
    (g' : Guarded (List ℕ)) × (run_changes
        (record { content = 5 ∷ []; mutex = MutexRw.idle })
        (inserts 3 ∷ erases 5 ∷ [])
      ≡ returned g')
    × ((j : ℕ)
        → contains g' j
          ≡ returned
              (g', member_after (λ i. KeySet.contains i (5 ∷ [])) (inserts 3 ∷ erases 5 ∷ []) j))
    × ((j : ℕ)
        → member_after (λ i. KeySet.contains i (5 ∷ [])) (inserts 3 ∷ erases 5 ∷ []) j ≡ true
        → (first : ℕ) × (get_first g' ≡ returned (g', first))
          × (member_after (λ i. KeySet.contains i (5 ∷ [])) (inserts 3 ∷ erases 5 ∷ []) first
              ≡ true)
          × ((i : ℕ)
              → member_after (λ i. KeySet.contains i (5 ∷ [])) (inserts 3 ∷ erases 5 ∷ []) i ≡ true
              → first ≤ i))
    × (((j : ℕ)
          → member_after (λ i. KeySet.contains i (5 ∷ [])) (inserts 3 ∷ erases 5 ∷ []) j ≡ false)
        → get_first g' ≡ failed)
run_changes_lem_example = run_changes_lem (5 ∷ []) (inserts 3 ∷ erases 5 ∷ []) (tt, tt)

abbrev one_queued : AtomicQueue ℕ
one_queued = record { queue = 1 ∷ []; mutex = free }

pop_all-push_all_example :
    (push_all one_queued (2 ∷ 3 ∷ []) >>= λ q. pop_all 4 q 0)
    ≡ returned (record { queue = []; mutex = free }, 1 ∷ 2 ∷ 3 ∷ [])
pop_all-push_all_example = pop_all-push_all (1 ∷ []) (2 ∷ 3 ∷ []) 4 0 (omega arith)

abbrev calls : List (Call ℕ)
calls = pushes free 2 ∷ pops held 0 ∷ pops free 0 ∷ pushes held 3 ∷ pushes free 4 ∷ []

non_blocking_lem_example :
    ((run_calls (1 ∷ []) calls).popped ++ (run_calls (1 ∷ []) calls).left
      ≡ (1 ∷ []) ++ (run_calls (1 ∷ []) calls).pushed)
    × ((run_calls (1 ∷ []) calls).pushed ≡ 2 ∷ 4 ∷ [])
    × (length (run_calls (1 ∷ []) calls).left ≡ 2)
    × ((run_calls (1 ∷ []) calls).mutexes ≡ free ∷ held ∷ free ∷ held ∷ free ∷ [])
non_blocking_lem_example = non_blocking_lem (1 ∷ []) calls

abbrev one_forked : Processes
one_forked = Process.fork_child (Process.init 2)

one_forked-Reach : Process.Reach 2 one_forked
unfolding Process.init
one_forked-Reach = Process.later Process.start (Process.forks refl)

outstanding-bounded_example :
    (one_forked.running + one_forked.counted ≤ 3)
    × (one_forked.parent ≡ idle → one_forked.running + one_forked.counted ≤ 2)
    × (one_forked.outstanding ≤ int_max)
    × ((all_executed one_forked.txns_executed one_forked.num_requests ≡ true)
        ↔ (one_forked.running ≡ 0))
outstanding-bounded_example = outstanding-bounded (omega arith) one_forked-Reach

overshoot_example : (s : Processes) × Process.Reach 3 s × (s.running ≡ 4)
overshoot_example = overshoot 3

abbrev one_created : Threads
one_created = Thread.create_thread (Thread.init (pos 2))

one_created-Reach : Thread.Reach (pos 2) one_created
unfolding Thread.init
one_created-Reach = Thread.later Thread.start (Thread.creates refl)

threads-accounted_example :
    (one_created.running + one_created.linked ≤ 3)
    × (one_created.running + one_created.listed + to_join one_created.parent + one_created.joined
        ≡ one_created.num_requests)
    × ((all_executed one_created.txns_executed one_created.num_requests ≡ true)
        ↔ (one_created.running + one_created.linked + one_created.given ≡ 0))
threads-accounted_example = threads-accounted one_created-Reach

abbrev before : Sample
before = record { executed = 10; time = record { tv_sec = 5; tv_nsec = 900000000 } }

abbrev now : Sample
now = record { executed = 25; time = record { tv_sec = 7; tv_nsec = 100000000 } }

run_loop-totals_example :
    (before.executed + executed_in_all (run_loop before (now ∷ [])) ≡ now.executed)
    × (nanos before.time + nanos_of_all (run_loop before (now ∷ [])) ≡ nanos now.time)
run_loop-totals_example =
    run_loop-totals before (now ∷ []) (omega arith)
      (omega arith, omega arith, omega arith, omega arith, tt)

abbrev options : Map.Map ℕ
options = (0, 8) ∷ (2, 1) ∷ []

-- `--exp_type 1 --max_outstanding 8`: every argument is the number that `atoi` makes of it.
init_config-parsed_example :
    (init_config pos options ≢ aborts)
    × (Map.lookup exp_type options ≡ none → is_parsed (init_config pos options) ≡ false)
    × ((arg : ℕ)
        → Map.lookup exp_type options ≡ some arg
        → is_parsed (init_config pos options)
          ≡ suits (Map.contains pool_size options) (Map.contains max_outstanding options) (pos arg))
init_config-parsed_example = init_config-parsed pos options

abbrev command_line : List (Option ℕ × ℕ)
command_line = (some 2, 1) ∷ (some 0, 8) ∷ []

expt_config_lem_example :
    (is_clean command_line ≡ false → expt_config pos command_line ≡ exits (negsuc 0))
    × (is_clean command_line ≡ true
        → find_arg exp_type command_line ≡ none
        → expt_config pos command_line ≡ exits (pos 0))
    × (is_clean command_line ≡ true
        → (arg : ℕ) → find_arg exp_type command_line ≡ some arg
        → is_parsed (expt_config pos command_line)
          ≡ suits
              (is_given pool_size command_line)
              (is_given max_outstanding command_line)
              (pos arg))
    × (expt_config pos command_line ≢ aborts)
expt_config_lem_example = expt_config_lem pos command_line

abbrev sleeper : Thread
sleeper = record { queue_id = 0; sleep_duration = 8; ran = 1 ∷ []; task = 1 }

drain-run_example :
    (t' : Thread) × (drain 3 (record { queue = 2 ∷ 3 ∷ []; mutex = free }) sleeper
      ≡ returned (record { queue = []; mutex = free }, t'))
    × (t'.ran ≡ 1 ∷ 2 ∷ 3 ∷ [])
drain-run_example = drain-run 3 (2 ∷ 3 ∷ []) sleeper (omega arith)
