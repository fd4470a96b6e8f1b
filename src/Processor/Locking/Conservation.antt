-- ===== src/Processor/Locking/Conservation.antt =====
-- Where the transactions are while the locking scheduler runs.
use native.Mathlib.Decide.{ℕ_discrete}
use cmcs624_fall.Common.{
  ℕ, ◌+◌, ◌≤◌, ◌≡◌, refl, sym, ap, ◌∙◌, arith, List, [], ◌∷◌, ◌++◌, Outcome, ok, died, Bool-cases,
  inl, inr, ◌>>=◌, count, count-append,
}
use cmcs624_fall.LockManager.{LockManager}
use cmcs624_fall.Processor.{
  Processor, Chance, execute_txn, finish_as, finish_txn, push_result, set_status, apply_writes,
  update,
}
use cmcs624_fall.Txn.{Txn, TxnStatus, incomplete, completed_c, completed_a, committed, aborted}
use cmcs624_fall.Processor.Locking.{
  request_locks, admit_from, admit, release_locks, complete, launch, Phase, Step, admits, completes,
  all_completed, launches, all_launched, executes, Run, start, later, requests, handed,
}
use cmcs624_fall.Processor.Locking.Contract.{Contract}
use cmcs624_fall.Processor.Locking.Requesting.{requested-places, new_txn_request-requested}
use cmcs624_fall.Processor.Locking.Places.{
  places, one_if, as_number, miss, beq-count, request_locks_lem, release_locks-at,
}

module _ {L : Type 0} (lm : LockManager L) (contract : Contract L lm) where
  abbrev at : Processor L → ℕ → ℕ
  at = places contract.waits

  admit_from-at :
      (s : Processor L) (ps : List ℕ) (q : ℕ)
      → s.txn_requests ≡ ps
      → ((p : ℕ) → at s p ≤ 1)
      → at (admit_from lm s ps) q ≡ at s q
  unfolding admit_from
  admit_from-at s [] q e h = refl
  admit_from-at s (p ∷ rest) q e h =
      let t = (s.heap p).txn in
      let r = request_locks lm s.locks p t.readset t.writeset in
      let in_queue : (x : ℕ) → count x s.txn_requests ≡ count x rest + one_if x p =
        λ x. ap (count x) e in
      let quiet : contract.waits s.locks p ≡ 0 =
        omega (arith, h p, in_queue p, sym (beq-count p)) in
      let asked = request_locks_lem lm contract s.locks p t.readset t.writeset quiet in
      elim (ℕ_discrete q p) [
        | no ne ↦ elim (Bool-cases r.1) [
          | inl b ↦ rw b (omega (arith, asked.0 q ne, in_queue q, miss q p ne))
          | inr b ↦ rw b (
              omega (
                arith,
                asked.0 q ne,
                in_queue q,
                miss q p ne,
                count-append q s.ready_txns (p ∷ []),
              ))
        ]
        | yes same ↦ rw same (elim (Bool-cases r.1) [
          | inl b ↦
              rw b (omega (arith, asked.1, ap as_number b, in_queue p, sym (beq-count p), quiet))
          | inr b ↦ rw b (
              omega (
                arith,
                asked.1,
                ap as_number b,
                in_queue p,
                sym (beq-count p),
                quiet,
                count-append p s.ready_txns (p ∷ []),
              ))
        ])
      ]

  admit-at : (s : Processor L) (q : ℕ) → ((p : ℕ) → at s p ≤ 1) → at (admit lm s) q ≡ at s q
  unfolding admit
  admit-at s q h = admit_from-at s s.txn_requests q refl h

  get : Outcome (Processor L) → Processor L → Processor L
  get (ok s) d = s
  get _ d = d

  finish_as-at :
      (s d : Processor L) (p : ℕ) (c : Chance) (status : TxnStatus) (q : ℕ)
      → at d q ≡ at s q + one_if q p
      → at (get (finish_as s p c status >>= λ f. ok (push_result (release_locks lm f p) p)) d) q
        ≡ at d q
  unfolding get finish_as push_result release_locks
  finish_as-at s d p c completed_c q e = omega (
    arith,
    e,
    count-append q s.txn_results (p ∷ []),
    release_locks-at lm contract
        (set_status (record s { storage = apply_writes s.storage c (s.heap p).txn }) p committed) p
        q,
  )
  finish_as-at s d p c completed_a q e = omega (
    arith,
    e,
    count-append q s.txn_results (p ∷ []),
    release_locks-at lm contract (set_status s p aborted) p q,
  )
  finish_as-at s d p c incomplete q e = refl
  finish_as-at s d p c committed q e = refl
  finish_as-at s d p c aborted q e = refl

  complete-at :
      (s s' : Processor L) (p : ℕ) (rest : List ℕ) (c : Chance) (q : ℕ)
      → s.completed_txns ≡ p ∷ rest
      → complete lm s p rest c ≡ ok s'
      → at s' q ≡ at s q
  unfolding complete finish_txn get
  complete-at s s' p rest c q e run =
      ap (λ o. at (get o s) q) (sym run)
      ∙ finish_as-at (record s { completed_txns = rest }) s p c (s.heap p).txn.status q
          (omega (arith, ap (count q) e))

  executed-at :
      (s d : Processor L) (p : ℕ) (m : Outcome Txn) (q : ℕ)
      → at d q ≡ at s q + one_if q p
      → at
          (get
            (m >>= λ t. ok (record s {
              heap = update s.heap p (record (s.heap p) { txn = t });
              completed_txns = s.completed_txns ++ p ∷ [];
            }))
            d)
          q
        ≡ at d q
  unfolding get
  executed-at s d p (ok t) q e = omega (arith, e, count-append q s.completed_txns (p ∷ []))
  executed-at s d p died q e = refl

  execute-at :
      (s s' : Processor L) (p : ℕ) (before after : List ℕ) (c : Chance) (q : ℕ)
      → s.tasks ≡ before ++ p ∷ after
      → execute_txn (record s { tasks = before ++ after }) p c ≡ ok s'
      → at s' q ≡ at s q
  unfolding execute_txn get
  execute-at s s' p before after c q e run =
      ap (λ o. at (get o s) q) (sym run)
      ∙ executed-at (record s { tasks = before ++ after }) s p _ q
          (omega
            (arith, ap (count q) e, count-append q before (p ∷ after), count-append q before after))

  Step-at :
      {phase phase' : Phase} {s s' : Processor L}
      → Step lm phase s phase' s'
      → ((p : ℕ) → at s p ≤ 1)
      → (q : ℕ) → at s' q ≡ at s q
  unfolding launch
  Step-at (admits {s}) h q = admit-at s q h
  Step-at (completes {s} {s'} p rest c e run) h q = complete-at s s' p rest c q e run
  Step-at (all_completed e) h q = refl
  Step-at (launches {s} p rest e) h q =
      omega (arith, ap (count q) e, count-append q s.tasks (p ∷ []))
  Step-at (all_launched e) h q = refl
  Step-at (executes {s} {s'} p before after c e run) h q = execute-at s s' p before after c q e run

-- With a lock manager that keeps the contract, and with each transaction in at most one place at the
-- start or handed in at most once, not both: however the scheduler, the threads of the pool and the
-- clients interleave, each transaction that was in the processor or has been handed in is in exactly
-- one place, waiting for a lock or in one queue, and no other transaction is in any.
pub Run-places :
    {L : Type 0} (lm : LockManager L) (contract : Contract L lm) {phase : Phase} {s : Processor L}
    {phase' : Phase} {s' : Processor L} (run : Run lm phase s phase' s')
    → ((p : ℕ) → places contract.waits s p + count p (handed lm run) ≤ 1)
    → (q : ℕ) → places contract.waits s' q ≡ places contract.waits s q + count q (handed lm run)
Run-places lm contract start h q = omega arith
Run-places lm contract (later run step) h q =
    let before = Run-places lm contract run h in
    Step-at lm contract step (λ p. omega (arith, before p, h p)) q ∙ before q
Run-places lm contract {s} (requests {s'} {s''} p run e) h q =
    let given = λ (x : ℕ). count-append x (handed lm run) (p ∷ []) in
    let before = Run-places lm contract run (λ x. omega (arith, h x, given x)) in
    omega (
      arith,
      before q,
      given q,
      requested-places contract.waits s' p q,
      ap (λ x. places contract.waits x q) (new_txn_request-requested s' s'' p e),
    )
