-- ===== src/TestRun/SetUp.antt =====
-- `run_test` of a1/src/start.cc up to the launcher: the two databases and the requests.
use cmcs624_fall.Common.{
  ℕ, ◌+◌, ◌*◌, ◌<◌, ◌≡◌, refl, ◌∙◌, sym, arith, Option, none, some, List, length, All, ok,
}
use native.Mathlib.Decide.{ℕ_discrete, dec_lt}
use mathlib.Core.Path.{fun_ext}
use cmcs624_fall.Common.{All-map, inl, inr}
use cmcs624_fall.Request.Order.{AllBytes}
use cmcs624_fall.Database.{record_size}
use cmcs624_fall.TestRun.{IsProper}
use cmcs624_fall.Mutex.{failed}
use cmcs624_fall.Mutex.{Mutex, free, Attempt, returned, waiting, ◌>>=◌}
use cmcs624_fall.Common.Draws.{Covers}
use cmcs624_fall.Database.{Random, nfields, Database, create, copy, compare}
use cmcs624_fall.Database.Created.{create_lem}
use cmcs624_fall.Database.Copies.{compare_lem, compare-copy}
use cmcs624_fall.Request.{Request}
use cmcs624_fall.Generate.{generate_requests}
use cmcs624_fall.Generate.Keys.{IsGenerated, generate_requests_lem}

-- "Use a small db to guarantee conflicts"
abbrev pub test_db_sz : ℕ
test_db_sz = 500

abbrev pub num_requests : ℕ
num_requests = 10000

abbrev from_fuel : {A : Type 0} → Option A → Attempt A
from_fuel none = waiting
from_fuel (some a) = returned a

-- The numbers after the first `n`.
abbrev pub after : ℕ → Random → Random
after n rand i = rand (n + i)

pub set_up : Random → ℕ → (ℕ → Mutex) → (ℕ → Mutex) → Attempt (Database × Database × List Request)
set_up rand fuel raw raw' = do
  db_test ← create rand test_db_sz raw
  db_simple ← create (after (test_db_sz * nfields) rand) test_db_sz raw'
  copied ← copy db_simple db_test
  (reqs, at) ←
      from_fuel (generate_requests rand fuel test_db_sz num_requests (2 * test_db_sz * nfields))
  returned (db_test, copied, reqs)

failed≢returned : {A : Type 0} {a : A} → failed ≡ returned a → ⊥
failed≢returned e = cc

compare-num_records :
    (db₁ db₂ : Database) → compare db₁ db₂ ≡ returned (ok tt) → db₁.num_records ≡ db₂.num_records
compare-num_records db₁ db₂ same = elim (ℕ_discrete db₁.num_records db₂.num_records) [
  | yes e ↦ e
  | no ne ↦ absurd (failed≢returned (sym ((compare_lem db₁ db₂).1 ne) ∙ same))
]

-- With a generator that draws every key below 500 in each stretch of `fuel` draws, `run_test` sets up what
-- its comparison needs, whatever the memory of the mutexes holds: two databases of 500 records with the
-- same bytes and all mutexes free, and 10000 requests with distinct keys in range.
pub set_up_lem :
    (rand : Random) (fuel : ℕ) (raw raw' : ℕ → Mutex)
    → Covers rand test_db_sz fuel
    → (db_test : Database) × (db_simple : Database) × (reqs : List Request) × (set_up rand fuel raw
          raw'
        ≡ returned (db_test, db_simple, reqs))
      × (db_simple.records ≡ db_test.records)
      × AllBytes db_test.records
      × (db_test.num_records ≡ test_db_sz)
      × (db_simple.num_records ≡ test_db_sz)
      × ((k : ℕ) → k < test_db_sz → (db_test.locks k ≡ free) × (db_simple.locks k ≡ free))
      × (length reqs ≡ num_requests)
      × All (IsProper test_db_sz) reqs
unfolding set_up
set_up_lem rand fuel raw raw' covers =
    let (db_test, made, size, locks, bytes, zeros) = create_lem rand test_db_sz raw in
    let (db_simple, made', size', locks', bytes', zeros') =
      create_lem (after (test_db_sz * nfields) rand) test_db_sz raw' in
    let (copied, copies, same, kept, rest, beyond) =
      compare-copy db_simple db_test (size' ∙ sym size) in
    let (reqs, at, run, len, all) =
      generate_requests_lem rand fuel test_db_sz num_requests (2 * test_db_sz * nfields) covers
        (omega arith) in
    let equal = compare-num_records copied db_test same in
    (
      db_test,
      copied,
      reqs,
      rw (made, made', copies, run) refl,
      fun_ext (λ k. fun_ext (λ j. elim (dec_lt k test_db_sz) [
        | yes near ↦ elim (dec_lt j record_size) [
          | yes here ↦
              ((compare_lem copied db_test).0 equal).0 same k j (omega arith)
                (omega (arith, near, equal, size)) here
          | no there ↦
              rest k j (omega (arith, there))
              ∙ zeros' k j (inr (omega (arith, there)))
              ∙ sym (zeros k j (inr (omega (arith, there))))
        ]
        | no far ↦
            beyond k j (omega (arith, far, size'))
            ∙ zeros' k j (inl (omega (arith, far)))
            ∙ sym (zeros k j (inl (omega (arith, far))))
      ])),
      bytes,
      size,
      equal ∙ size,
      λ k h. (locks k h, kept k ∙ locks' k h),
      len,
      All-map (IsGenerated test_db_sz) (IsProper test_db_sz) (λ r good. (good.1, good.0)) reqs all,
    )
