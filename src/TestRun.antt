-- ===== src/TestRun.antt =====
-- `run_test` of a1/src/start.cc: the requests run at once on one database and one after the other on
-- a copy of it, and the two are compared.
pub mod SetUp
use mathlib.Core.Path.{fun_ext}
use cmcs624_fall.Common.{
  ℕ, zero, suc, ◌<◌, ◌≡◌, ◌⊎◌, inl, inr, refl, sym, ap, ◌∙◌, subst, List, [], ◌∷◌, All, All-append,
  All-map, Outcome, ok, if◌then◌else◌,
}
use cmcs624_fall.Common.Sort.{
  sort, Distinct, contains-sort, sort-All, sort-Ascending, Ascending-Distinct,
}
use cmcs624_fall.Mutex.{free, Attempt, returned, ◌>>=◌}
use cmcs624_fall.Words.{Bytes}
use cmcs624_fall.Database.{Database, compare}
use cmcs624_fall.Database.Copies.{compare_lem}
use cmcs624_fall.Request.{Request, execute, do_write}
use cmcs624_fall.Request.Sequential.{effect, execute_lem}
use cmcs624_fall.Request.Order.{AllBytes, effects}
use cmcs624_fall.Workers.{System, finished, Reach}
use cmcs624_fall.Workers.Results.{listed, effects-append, finished-effects}

-- "Run sequential test": `Execute` of each request.
run_sequential : Database → List Request → Attempt Database
run_sequential db [] = returned db
run_sequential db (r ∷ rs) = do (db', sorted) ← execute db r; run_sequential db' rs

-- A request that can run on the database: distinct keys in range.
abbrev pub IsProper : ℕ → Request → Type 0
IsProper size r = Distinct r.writeset × All (λ k. k < size) r.writeset

run_sequential_lem :
    (db : Database) (rs : List Request)
    → All (IsProper db.num_records) rs
    → ((k : ℕ) → k < db.num_records → db.locks k ≡ free)
    → (db' : Database) × (run_sequential db rs ≡ returned db')
      × (db'.records ≡ effects rs db.records)
      × ((k : ℕ) → k < db.num_records → db'.locks k ≡ free)
      × (db'.num_records ≡ db.num_records)
unfolding run_sequential
run_sequential_lem db [] p f = (db, refl, refl, f, refl)
run_sequential_lem db (r ∷ rs) p f =
    let (mid, run, records, locks, size) =
      execute_lem db r p.0.1 p.0.0
        (All-map (λ k. k < db.num_records) (λ k. db.locks k ≡ free) f r.writeset p.0.1) in
    let (db', runs, records', locks', size') =
      run_sequential_lem mid rs (subst (λ n. All (IsProper n) rs) (sym size) p.1)
        (λ k h. locks k ∙ f k (subst (λ n. k < n) size h)) in
    (
      db',
      rw run runs,
      records' ∙ ap (effects rs) (fun_ext records),
      λ k h. locks' k (subst (λ n. k < n) (sym size) h),
      size' ∙ size,
    )

-- `LockRecords` sorts the write set in place, and a child process sorts a copy of it: afterwards
-- the write set may or may not be sorted.
abbrev pub IsLeft : Request → Request → Type 0
IsLeft r q = (q ≡ r) ⊎ (q ≡ record r { writeset = sort r.writeset })

left-IsProper : (size : ℕ) (r q : Request) → IsLeft r q → IsProper size r → IsProper size q
left-IsProper size r q (inl e) p = subst (IsProper size) (sym e) p
left-IsProper size r q (inr e) p = subst (IsProper size) (sym e) (
  Ascending-Distinct (sort r.writeset) (sort-Ascending r.writeset p.0),
  sort-All (λ k. k < size) r.writeset p.1,
)

left-effect :
    (r q : Request) → IsLeft r q → (records : ℕ → Bytes) → effect q records ≡ effect r records
left-effect r q (inl e) records = ap (λ x. effect x records) e
left-effect r q (inr e) records =
    ap (λ x. effect x records) e
    ∙ fun_ext (λ k.
      ap (λ c. if c then do_write (records k) r.updates else records k)
        (contains-sort k r.writeset))

module _ (requests left : ℕ → Request) (is_left : (i : ℕ) → IsLeft (requests i) (left i)) where
  listed-IsProper :
      (size n : ℕ) → ((i : ℕ) → IsProper size (requests i)) → All (IsProper size) (listed n left)
  unfolding listed
  listed-IsProper size zero p = tt
  listed-IsProper size (suc n) p =
      All-append (IsProper size) (listed n left) (left n ∷ []) (listed-IsProper size n p)
        (left-IsProper size (requests n) (left n) (is_left n) (p n), tt)

  listed-effects :
      (n : ℕ) (records : ℕ → Bytes)
      → effects (listed n left) records ≡ effects (listed n requests) records
  unfolding listed
  listed-effects zero records = refl
  listed-effects (suc n) records =
      effects-append (listed n left) (left n) records
      ∙ left-effect (requests n) (left n) (is_left n) _
      ∙ ap (effect (requests n)) (listed-effects n records)
      ∙ sym (effects-append (listed n requests) (requests n) records)

-- "Switch database" and "Run sequential test" on the copy `db_simple`, then `Compare`.
pub check_records : Database → Database → List Request → Attempt (Outcome (Unit {0}))
unfolding run_sequential
check_records db_test db_simple reqs = do
  db_simple' ← run_sequential db_simple reqs
  compare db_test db_simple'

-- The test passes in every interleaving: when the workers that ran requests with distinct keys in
-- range are finished, the sequential run on a database that began with the same records, the locks of
-- its records free, returns, and `Compare` finds no difference, whether or not the write sets were left
-- sorted.
pub run_test_lem :
    (db_test db_simple : Database) {n : ℕ} (requests left : ℕ → Request) {s : System}
    → db_simple.records ≡ db_test.records
    → db_simple.num_records ≡ db_test.num_records
    → ((k : ℕ) → k < db_simple.num_records → db_simple.locks k ≡ free)
    → AllBytes db_test.records
    → ((i : ℕ) → IsProper db_test.num_records (requests i))
    → ((i : ℕ) → IsLeft (requests i) (left i))
    → Reach n requests db_test.records s
    → ((i : ℕ) → i < n → s.stage i ≡ finished)
    → check_records
        (record db_test { records = s.mem.records; locks = s.mem.locks })
        db_simple
        (listed n left)
      ≡ returned (ok tt)
unfolding check_records
run_test_lem db_test db_simple {n} requests left {s} same size unlocked bytes proper is_left reached
      ended =
    let (db', run, records, locks, size') =
      run_sequential_lem db_simple (listed n left)
        (listed-IsProper requests left is_left db_simple.num_records n
          (subst (λ m. (i : ℕ) → IsProper m (requests i)) (sym size) proper))
        unlocked in
    rw run (
      ((compare_lem _ db').0 (sym (size' ∙ size))).1 (λ k j a b c.
        finished-effects (λ i. (proper i).0) bytes reached ended k j
        ∙ ap (λ x. x k j)
            (sym (
              records
              ∙ listed-effects requests left is_left n db_simple.records
              ∙ ap (effects (listed n requests)) same))))
