-- ===== src/Monitor.antt =====
-- a1/src/perf_monitor.cc. A time is a number of seconds and a number of nanoseconds.
use cmcs624_fall.Common.{
  ℕ, ◌+◌, ◌-◌, ◌*◌, ◌%◌, ◌^◌, ◌≤◌, ◌<◌, ◌≡◌, inl, inr, arith, List, [], ◌∷◌, if◌then◌else◌, ltb,
  Bool-cases,
}

pub record Timespec : Type 0 where
  pub tv_sec : ℕ
  pub tv_nsec : ℕ

-- `DiffTime`. The seconds are signed in the program: no difference here is below 0 when `end` is
-- not before `start`.
unfoldable pub diff_time : Timespec → Timespec → Timespec
diff_time end start =
    if ltb end.tv_nsec start.tv_nsec
    then record {
      tv_sec = end.tv_sec - start.tv_sec - 1;
      tv_nsec = 1000000000 + end.tv_nsec - start.tv_nsec;
    }
    else record { tv_sec = end.tv_sec - start.tv_sec; tv_nsec = end.tv_nsec - start.tv_nsec }

-- What the monitor reads in a round: the counter of the launcher, and the clock.
pub record Sample : Type 0 where
  pub executed : ℕ
  pub time : Timespec

-- The loop of `Run`, a round for each sample: the transactions of the interval, a difference of
-- unsigned 64-bit numbers, and its length. The quotient of the two is a `double`, and is left out.
pub run_loop : Sample → List Sample → List (ℕ × Timespec)
unfolding diff_time
run_loop prev [] = []
run_loop prev (now ∷ rest) =
    ((now.executed + (2 ^ 64 - prev.executed)) % 2 ^ 64, diff_time now.time prev.time)
    ∷ run_loop now rest

abbrev pub nanos : Timespec → ℕ
nanos t = t.tv_sec * 1000000000 + t.tv_nsec

-- Of two times with proper nanoseconds, the first not before the second, `DiffTime` gives the
-- difference, with proper nanoseconds.
pub diff_time-nanos :
    (end start : Timespec)
    → end.tv_nsec < 1000000000
    → start.tv_nsec < 1000000000
    → nanos start ≤ nanos end
    → (nanos (diff_time end start) ≡ nanos end - nanos start)
      × ((diff_time end start).tv_nsec < 1000000000)
unfolding diff_time
diff_time-nanos end start he hs le = elim (Bool-cases (ltb end.tv_nsec start.tv_nsec)) [
  | inl e ↦ rw e (ground arith, ground arith)
  | inr e ↦ rw e (ground arith, ground arith)
]

-- The samples are in order, from the one before on.
abbrev pub InOrder : Sample → List Sample → Type 0
InOrder prev [] = Unit
InOrder prev (now ∷ rest) =
    (prev.executed ≤ now.executed)
    × (now.executed < 2 ^ 64)
    × (nanos prev.time ≤ nanos now.time)
    × (now.time.tv_nsec < 1000000000)
    × InOrder now rest

abbrev pub last_of : Sample → List Sample → Sample
last_of prev [] = prev
last_of prev (now ∷ rest) = last_of now rest

abbrev pub executed_in_all : List (ℕ × Timespec) → ℕ
executed_in_all [] = 0
executed_in_all ((n, t) ∷ rest) = n + executed_in_all rest

abbrev pub nanos_of_all : List (ℕ × Timespec) → ℕ
nanos_of_all [] = 0
nanos_of_all ((n, t) ∷ rest) = nanos t + nanos_of_all rest

-- When the counter and the clock never go back, the intervals leave out nothing and count nothing
-- twice: their transactions and their lengths add up to those between the first sample and the last.
pub run_loop-totals :
    (prev : Sample) (samples : List Sample)
    → prev.time.tv_nsec < 1000000000
    → InOrder prev samples
    → (prev.executed + executed_in_all (run_loop prev samples) ≡ (last_of prev samples).executed)
      × (nanos prev.time + nanos_of_all (run_loop prev samples) ≡ nanos (last_of prev samples).time)
unfolding run_loop
run_loop-totals prev [] h o = (omega arith, omega arith)
run_loop-totals prev (now ∷ rest) h o =
    let later = run_loop-totals now rest o.3 o.4 in
    let step = diff_time-nanos now.time prev.time o.3 h o.2 in
    (omega (arith, later.0, o.0, o.1), omega (arith, later.1, step.0, o.2))
