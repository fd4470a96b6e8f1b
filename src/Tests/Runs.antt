-- ===== src/Tests/Runs.antt =====
-- Requests that run at once, at concrete inputs.
use cmcs624_fall.Common.{
  ℕ, ◌+◌, ◌-◌, ◌^◌, ◌≤◌, ◌<◌, ◌≡◌, ◌≢◌, inl, refl, subst, arith, true, [], ◌∷◌, if◌then◌else◌, ◌==◌,
  ok, All,
}
use cmcs624_fall.Common.Sort.{sort, Distinct}
use cmcs624_fall.Mutex.{free, held, returned}
use cmcs624_fall.Words.{Bytes}
use cmcs624_fall.Database.{Database}
use cmcs624_fall.Request.{Request}
use cmcs624_fall.Request.Order.{AllBytes, effects}
use cmcs624_fall.Workers.{
  locking, finished, take, all_locked, load, store, next_key, all_written, release, exit, holds,
  System, Step, pick, init, Reach, start, later,
}
use cmcs624_fall.Workers.Safety.{mutual_exclusion}
use cmcs624_fall.Workers.Progress.{no_deadlock, steps, all_left, steps-bounded}
use cmcs624_fall.Workers.Results.{listed, finished-effects}
use cmcs624_fall.TestRun.{check_records, run_test_lem}

abbrev blank : ℕ → Bytes
blank k j = 0

abbrev db : Database
db = record { num_records = 10; records = blank; locks = λ _. free }

-- Every worker adds to record 7.
abbrev requests : ℕ → Request
requests i = record { writeset = 7 ∷ []; updates = λ f. 2 ^ 64 - 1 - f - i }

requests-Distinct : (i : ℕ) → Distinct (requests i).writeset
requests-Distinct i = (tt, tt)

requests-range : (i : ℕ) → All (λ k. k < 10) (requests i).writeset
requests-range i = (omega arith, tt)

blank-AllBytes : AllBytes blank
blank-AllBytes k j = omega arith

-- The first of two workers has the lock, the second waits.
abbrev contended : System
contended = record {
  mem = record { locks = λ j. if j == 7 then held else free; records = blank };
  stage = λ j. if j == 0 then locking [] else locking (7 ∷ []);
}

contended-Reach : Reach 2 requests blank contended
unfolding sort
contended-Reach = later start (pick 0 (omega arith) (take refl))

mutual_exclusion_example :
    ((i j k : ℕ)
      → holds (requests i) (contended.stage i) k ≡ true
      → holds (requests j) (contended.stage j) k ≡ true
      → i ≡ j)
    × ((k : ℕ)
        → (contended.mem.locks k ≡ held
            → (i : ℕ) × (i < 2) × (holds (requests i) (contended.stage i) k ≡ true))
          × ((i : ℕ)
              → holds (requests i) (contended.stage i) k ≡ true
              → contended.mem.locks k ≡ held))
mutual_exclusion_example = mutual_exclusion requests-Distinct blank-AllBytes contended-Reach

waiting-unfinished : contended.stage 1 ≢ finished
waiting-unfinished e = cc

no_deadlock_example : (t : System) × Step 2 requests contended t
no_deadlock_example =
    no_deadlock 10 requests-Distinct requests-range blank-AllBytes contended-Reach 1 (omega arith)
      waiting-unfinished

steps-bounded_example :
    steps contended-Reach + all_left 2 requests contended
    ≤ all_left 2 requests (init requests blank)
steps-bounded_example = steps-bounded requests-Distinct blank-AllBytes contended-Reach

-- One worker, from its start to its end.
one_run : (s : System) × Reach 1 requests blank s × (s.stage 0 ≡ finished)
unfolding sort
one_run = (
  _,
  later
      (later
        (later
          (later
            (later
              (later
                (later
                  (later
                    (later
                      (later
                        (later
                          (later
                            (later
                              (later
                                (later
                                  (later
                                    (later
                                      (later
                                        (later
                                          (later
                                            (later
                                              (later
                                                (later
                                                  (later
                                                    (later
                                                      (later start
                                                        (pick 0 (omega arith) (take refl)))
                                                      (pick 0 (omega arith) (all_locked)))
                                                    (pick 0 (omega arith) (load (omega arith))))
                                                  (pick 0 (omega arith) (store)))
                                                (pick 0 (omega arith) (load (omega arith))))
                                              (pick 0 (omega arith) (store)))
                                            (pick 0 (omega arith) (load (omega arith))))
                                          (pick 0 (omega arith) (store)))
                                        (pick 0 (omega arith) (load (omega arith))))
                                      (pick 0 (omega arith) (store)))
                                    (pick 0 (omega arith) (load (omega arith))))
                                  (pick 0 (omega arith) (store)))
                                (pick 0 (omega arith) (load (omega arith))))
                              (pick 0 (omega arith) (store)))
                            (pick 0 (omega arith) (load (omega arith))))
                          (pick 0 (omega arith) (store)))
                        (pick 0 (omega arith) (load (omega arith))))
                      (pick 0 (omega arith) (store)))
                    (pick 0 (omega arith) (load (omega arith))))
                  (pick 0 (omega arith) (store)))
                (pick 0 (omega arith) (load (omega arith))))
              (pick 0 (omega arith) (store)))
            (pick 0 (omega arith) (next_key refl)))
          (pick 0 (omega arith) (all_written)))
        (pick 0 (omega arith) (release)))
      (pick 0 (omega arith) (exit)),
  refl,
)

abbrev ended : System
ended = one_run.0

ended-finished : (i : ℕ) → i < 1 → ended.stage i ≡ finished
ended-finished i lt = subst (λ j. ended.stage j ≡ finished) (omega arith) one_run.2

finished-effects_example : ended.mem.records 7 100 ≡ effects (listed 1 requests) blank 7 100
finished-effects_example =
    finished-effects requests-Distinct blank-AllBytes one_run.1 ended-finished 7 100

run_test_lem_example :
    check_records
      (record db { records = ended.mem.records; locks = ended.mem.locks })
      db
      (listed 1 requests)
    ≡ returned (ok tt)
run_test_lem_example =
    run_test_lem db db requests requests refl refl (λ k h. refl) blank-AllBytes
      (λ i. (requests-Distinct i, requests-range i)) (λ i. inl refl) one_run.1 ended-finished
