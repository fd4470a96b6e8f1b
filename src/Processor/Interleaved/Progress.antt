-- ===== src/Processor/Interleaved/Progress.antt =====
-- `DIE` and `CHECK` in what the locking scheduler and the threads of its pool run.
use native.Mathlib.Decide.{ℕ_discrete}
use cmcs624_fall.Common.{
  ℕ, ◌+◌, ◌<◌, ◌⊎◌, ◌≡◌, refl, sym, ap, subst, ◌∙◌, arith, Bool, true, false, inl, inr, Outcome, ok,
  ◌>>=◌, if◌then◌else◌, List, [], ◌∷◌, ◌++◌, count, count-split,
}
use cmcs624_fall.LockManager.{LockManager}
use cmcs624_fall.Storage.{Storage}
use cmcs624_fall.Txn.{Txn, TxnStatus, completed_c, completed_a}
use cmcs624_fall.Txn.Programs.{Object, run}
use cmcs624_fall.Processor.{Processor, update}
use cmcs624_fall.Processor.Spec.{commits}
use cmcs624_fall.Processor.Execution.{view, IsFresh, run-ran}
use cmcs624_fall.Processor.Locking
use cmcs624_fall.Processor.Locking.{Phase, admitting, completing, launching}
use cmcs624_fall.Processor.Locking.Places.{beq-count, miss}
use cmcs624_fall.Processor.Locking.Contract.{Contract}
use cmcs624_fall.Processor.Locking.Conservation.{Run-places}
use cmcs624_fall.Processor.Locking.Isolation.{Isolation}
use cmcs624_fall.Processor.Locking.Known.{IsStart, IsHanded, requestable}
use cmcs624_fall.Processor.Interleaved.{
  started, Machine, Job, Point, at, applying, end_txn, SchedulerStep, ThreadStep, admits,
  starts_commit, writes, ends_commit, aborts, all_completed, launches, all_launched, begins, reads,
  ends, Run, handed,
}
use cmcs624_fall.Processor.Interleaved.Simulation.{Ghost, abstract, job_txns}
use cmcs624_fall.Processor.Interleaved.Reading.{active, original}
use cmcs624_fall.Processor.Interleaved.Running.{object_read}
use cmcs624_fall.Processor.Interleaved.Committing.{no_chance, completed_object}
use cmcs624_fall.Processor.Interleaved.Refinement.{Run-Beside}
use cmcs624_fall.Processor.Interleaved.Beside.{Beside, known_start, handed_in}

List-cases : {A : Type 0} (xs : List A) → (xs ≡ []) ⊎ ((x : A) × (rest : List A) × (xs ≡ x ∷ rest))
List-cases [] = inl refl
List-cases (x ∷ rest) = inr (x, rest, refl)

decided_status :
    (b : Bool) (status : TxnStatus)
    → status ≡ (if b then completed_c else completed_a)
    → (status ≡ completed_c) ⊎ (status ≡ completed_a)
decided_status true status e = inl e
decided_status false status e = inr e

-- The thread that has a transaction.
find_job :
    (p : ℕ) (jobs : List Job)
    → 0 < count p (job_txns jobs)
    → (before : List Job) × (job : Job) × (after : List Job) × (jobs ≡ before ++ job ∷ after)
      × (job.txn ≡ p)
find_job p [] h = absurd (omega (arith, h))
find_job p (job ∷ jobs) h = elim (ℕ_discrete p job.txn) [
  | yes e ↦ ([], job, jobs, refl, sym e)
  | no ne ↦
      let (before, found, after, e, same) = find_job p jobs (omega (arith, h, miss p job.txn ne)) in
      (job ∷ before, found, after, ap (λ js. job ∷ js) e, same)
]

module _ {L : Type 0} (lm : LockManager L) (contract : Contract L lm) (iso : Isolation lm)
    (s₀ : Processor L) (st₀ : Storage) (initial : IsStart contract iso s₀ st₀) (phase : Phase) where
  abbrev Goes : Point → Machine L → List ℕ → Type 0
  Goes = Beside lm contract iso s₀ st₀ phase

  module _ (m : Machine L) {ps : List ℕ} (b : Goes (at completing) m ps) (p : ℕ) (rest : List ℕ)
      (e : m.processor.completed_txns ≡ p ∷ rest) where
    status_known :
        ((m.processor.heap p).txn.status ≡ completed_c)
        ⊎ ((m.processor.heap p).txn.status ≡ completed_a)
    status_known =
        let g : Ghost = b.g in
        let sim = b.sim in
        let inv = b.known.inv in
        let here : 0 < count p g.completed =
          omega (arith, ap (count p) (sim.storing.1 ∙ e), sym (beq-count p)) in
        let same =
          completed_object lm contract iso (known_start b) st₀ m g inv (at completing) sim p here in
        decided_status (commits (b.known.heap p).program (view inv.store))
          (m.processor.heap p).txn.status
          (ap (λ (o : Object). o.txn.status) same ∙ (inv.computed p here).status)

  scheduler_next :
      (point : Point) (m : Machine L)
      → {ps : List ℕ} → Goes point m ps
      → (point' : Point) × (m' : Machine L) × SchedulerStep lm point m point' m'
  scheduler_next (at admitting) m b = (_, _, admits)
  scheduler_next (at completing) m b = elim (List-cases m.processor.completed_txns) [
    | inl e ↦ (_, _, all_completed e)
    | inr (p, rest, e) ↦ elim (status_known m b p rest e) [
      | inl yes_vote ↦ (_, _, starts_commit p rest no_chance e yes_vote)
      | inr no_vote ↦ (_, _, aborts p rest e no_vote)
    ]
  ]
  scheduler_next (at launching) m b = elim (List-cases m.processor.ready_txns) [
    | inl e ↦ (_, _, all_launched e)
    | inr (p, rest, e) ↦ (_, _, launches p rest e)
  ]
  scheduler_next (applying p c i []) m b = (_, _, ends_commit)
  scheduler_next (applying p c i ((k, v) ∷ left)) m b = (_, _, writes)

  module _ (point : Point) (m : Machine L) {ps : List ℕ} (all : IsHanded contract s₀ ps)
      (b : Goes point m ps) where
    job_ends :
        (before : List Job) (job : Job) (after : List Job)
        → m.jobs ≡ before ++ job ∷ after
        → job.keys ≡ []
        → (m' : Machine L) × (end_txn m job (before ++ after) ≡ ok m')
    unfolding end_txn
    job_ends before job after e ek =
        let g : Ghost = b.g in
        let sim = b.sim in
        let inv = b.known.inv in
        let given = handed_in lm contract iso s₀ st₀ initial phase b all in
        let here =
          active lm contract iso (known_start b) st₀ m g inv point sim before job after e in
        let fresh : IsFresh (g.heap job.txn) =
          subst IsFresh
            (sym
              (original lm contract iso (known_start b) st₀ m g inv point sim before job after e))
            (requestable lm contract iso s₀ st₀ initial (abstract m g) (Locking.handed lm b.coarse)
              given (Run-places lm contract b.coarse given.once) b.known job.txn
              (omega (arith, here))).fresh in
        let ended =
          ap (λ (o : Object). run o.program o.txn job.chance.junk)
            (object_read lm contract iso (known_start b) st₀ m g inv point sim before job after e
              ek)
          ∙ run-ran g.store job.chance (g.heap job.txn) fresh in
        (
          _,
          ap
              (λ (r : Outcome Txn). r >>= λ t. ok (record m {
                processor = record (m.processor) {
                  heap =
                      update m.processor.heap job.txn
                        (record (m.processor.heap job.txn) { txn = t });
                  completed_txns = m.processor.completed_txns ++ job.txn ∷ [];
                };
                jobs = before ++ after;
              }))
              ended,
        )

    job_next :
        (before : List Job) (job : Job) (after : List Job)
        → m.jobs ≡ before ++ job ∷ after
        → (m' : Machine L) × ThreadStep job.txn m m'
    job_next before job after e = elim (List-cases job.keys) [
      | inl ek ↦
          let (m', done) = job_ends before job after e ek in (m', ends before job after e ek done)
      | inr (k, ks, ek) ↦ (_, reads before job after k ks e ek)
    ]

    thread_next :
        (p : ℕ)
        → 0 < count p m.processor.tasks + count p (job_txns m.jobs)
        → (m' : Machine L) × ThreadStep p m m'
    thread_next p h = elim (ℕ_discrete (count p m.processor.tasks) 0) [
      | yes none_waits ↦
          let (before, job, after, e, same) = find_job p m.jobs (omega (arith, h, none_waits)) in
          let (m', step) = job_next before job after e in
          (m', subst (λ q. ThreadStep q m m') same step)
      | no some_waits ↦
          let (before, after, e) = count-split p m.processor.tasks (ground (arith, some_waits)) in
          (_, begins p before after no_chance e)
    ]

-- At every moment of a run from the start, in whatever way the threads and the clients have interleaved,
-- the scheduler has a next step: it meets no completed transaction whose status is neither of the two
-- that it expects, so it never reaches `DIE`.
-- This is for any lock manager that loses nobody who waits (`Contract`), where either it also keeps the
-- locks exclusive (`Exclusion`), which the two of the repository do not, or no transaction writes a key
-- that another declares, as it must be with those two. At the start the storage is of the
-- single-version kind, nobody has asked for a lock, and nothing but requests and results is in the
-- processor; each transaction is queued or handed in once, fresh, with the keys of its sets in order and
-- none in both.
pub Run-Schedules :
    {L : Type 0} (lm : LockManager L) (contract : Contract L lm) (iso : Isolation lm)
    {phase : Phase} (s₀ : Processor L) (st₀ : Storage) {point : Point} {m : Machine L}
    → IsStart contract iso s₀ st₀
    → (run : Run lm (at phase) (started s₀) point m) → IsHanded contract s₀ (handed lm run)
    → (point' : Point) × (m' : Machine L) × SchedulerStep lm point m point' m'
Run-Schedules lm contract iso {phase = phase} s₀ st₀ {point} {m} initial run all =
    scheduler_next lm contract iso s₀ st₀ initial phase point m
      (Run-Beside lm contract iso s₀ st₀ initial phase run all)

-- At every moment of a run from the start, the thread of each transaction that has been launched and is
-- not yet handed back, even one that still waits in the pool, has a next step. Where it has read all keys of the
-- transaction, this is the end of the program, without the failure of a `CHECK` or `DIE`.
-- This is for any lock manager that loses nobody who waits (`Contract`), where either it also keeps the
-- locks exclusive (`Exclusion`), which the two of the repository do not, or no transaction writes a key
-- that another declares, as it must be with those two. At the start the storage is of the
-- single-version kind, nobody has asked for a lock, and nothing but requests and results is in the
-- processor; each transaction is queued or handed in once, fresh, with the keys of its sets in order and
-- none in both.
pub Run-Works :
    {L : Type 0} (lm : LockManager L) (contract : Contract L lm) (iso : Isolation lm)
    {phase : Phase} (s₀ : Processor L) (st₀ : Storage) {point : Point} {m : Machine L}
    → IsStart contract iso s₀ st₀
    → (run : Run lm (at phase) (started s₀) point m) → IsHanded contract s₀ (handed lm run)
    → (p : ℕ) → 0 < count p m.processor.tasks + count p (job_txns m.jobs)
    → (m' : Machine L) × ThreadStep p m m'
Run-Works lm contract iso {phase = phase} s₀ st₀ {point} {m} initial run all =
    thread_next lm contract iso s₀ st₀ initial phase point m all
      (Run-Beside lm contract iso s₀ st₀ initial phase run all)
