-- ===== src/Processor/Locking.antt =====
-- `RunLockingScheduler` of a2/txn/txn_processor.cc, over any lock manager: what the scheduler thread
-- does in its order, and the tasks of the thread pool at any time between.
pub mod Contract
pub mod Exclusion
pub mod Requests
pub mod Isolation
pub mod Releases
pub mod Computed
pub mod Requesting
pub mod Invariant
pub mod Admitting
pub mod Executing
pub mod Settling
pub mod Completing
pub mod Known
pub mod Serializable
pub mod Places
pub mod Conservation
use cmcs624_fall.Common.{
  ℕ, Bool, true, false, List, [], ◌∷◌, ◌++◌, if◌then◌else◌, Outcome, ok, ◌≡◌, ◌>>=◌,
}
use cmcs624_fall.LockManager.{LockManager}
use cmcs624_fall.Processor.{
  Processor, Chance, new_txn_request, execute_txn, finish_txn, push_result,
}

-- Which of the three parts of its round the scheduler is in.
pub data Phase : Type 0 where
  admitting completing launching : Phase

module _ {L : Type 0} (lm : LockManager L) where
  -- A loop that requests a lock for each key; it goes on after one that is not granted.
  unfoldable pub lock_keys : (L → ℕ → ℕ → L × Bool) → L → ℕ → List ℕ → Bool → L × Bool
  lock_keys lock l p [] blocked = (l, blocked)
  lock_keys lock l p (k ∷ ks) blocked =
      let (l', granted) = lock l p k in lock_keys lock l' p ks (if granted then blocked else true)

  -- The read locks, then the write locks: the locks, and whether the transaction is blocked.
  unfoldable pub request_locks : L → ℕ → List ℕ → List ℕ → L × Bool
  unfolding lock_keys
  request_locks l p readset writeset =
      let (l', blocked) = lock_keys lm.read_lock l p readset false in
      lock_keys lm.write_lock l' p writeset blocked

  unfoldable pub admit_from : Processor L → List ℕ → Processor L
  unfolding request_locks
  admit_from s [] = s
  admit_from s (p ∷ rest) =
      let t = (s.heap p).txn in
      let (locks, blocked) = request_locks s.locks p t.readset t.writeset in
      record s {
        txn_requests = rest;
        locks = locks;
        ready_txns = if blocked then s.ready_txns else s.ready_txns ++ p ∷ [];
      }

  -- "Start processing the next incoming transaction request."
  unfoldable pub admit : Processor L → Processor L
  unfolding admit_from
  admit s = admit_from s s.txn_requests

  pub release_keys : L → List ℕ → ℕ → List ℕ → L × List ℕ
  release_keys l ready p [] = (l, ready)
  release_keys l ready p (k ∷ ks) =
      let (l', ready') = lm.release l ready p k in release_keys l' ready' p ks

  unfoldable pub release_locks : Processor L → ℕ → Processor L
  unfolding release_keys
  release_locks s p =
      let t = (s.heap p).txn in
      let (l, ready) = release_keys s.locks s.ready_txns p t.readset in
      let (l', ready') = release_keys l ready p t.writeset in
      record s { locks = l'; ready_txns = ready' }

  -- The loop over `completed_txns_`: the transaction `p` was popped, and `rest` is left.
  unfoldable pub complete : Processor L → ℕ → List ℕ → Chance → Outcome (Processor L)
  unfolding release_locks
  complete s p rest c = do
    finished ← finish_txn (record s { completed_txns = rest }) p c
    ok (push_result (release_locks finished p) p)

  -- The loop over `ready_txns_`: `p` was popped, and `rest` is left.
  unfoldable pub launch : Processor L → ℕ → List ℕ → Processor L
  launch s p rest = record s { ready_txns = rest; tasks = s.tasks ++ p ∷ [] }

  -- A step of the scheduler, or of a thread of the pool, which takes any task: `ExecuteTxn` is one
  -- step, as if no other thread touched the storage meanwhile.
  pub data Step : Phase → Processor L → Phase → Processor L → Type 0 where
    admits : {s : Processor L} → Step admitting s completing (admit s)
    completes :
        {s s' : Processor L}
        → (p : ℕ) (rest : List ℕ) (c : Chance) → s.completed_txns ≡ p ∷ rest
        → complete s p rest c ≡ ok s'
        → Step completing s completing s'
    all_completed : {s : Processor L} → s.completed_txns ≡ [] → Step completing s launching s
    launches :
        {s : Processor L}
        → (p : ℕ) (rest : List ℕ) → s.ready_txns ≡ p ∷ rest
        → Step launching s launching (launch s p rest)
    all_launched : {s : Processor L} → s.ready_txns ≡ [] → Step launching s admitting s
    executes :
        {phase : Phase} {s s' : Processor L}
        → (p : ℕ) (before after : List ℕ) (c : Chance) → s.tasks ≡ before ++ p ∷ after
        → execute_txn (record s { tasks = before ++ after }) p c ≡ ok s'
        → Step phase s phase s'

  -- A client may hand in a transaction at any time.
  pub data Run (phase : Phase) (s : Processor L) : Phase → Processor L → Type 0 where
    start : Run phase s phase s
    later :
        {mid phase' : Phase} {s' s'' : Processor L}
        → Run phase s mid s'
        → Step mid s' phase' s''
        → Run phase s phase' s''
    requests :
        {mid : Phase} {s' s'' : Processor L}
        → (p : ℕ) → Run phase s mid s'
        → new_txn_request s' p ≡ ok s''
        → Run phase s mid s''

  -- The transactions that clients have handed in during a run.
  abbrev pub handed :
      {phase : Phase} {s : Processor L} {phase' : Phase} {s' : Processor L}
      → Run phase s phase' s'
      → List ℕ
  handed start = []
  handed (later run step) = handed run
  handed (requests p run e) = handed run ++ p ∷ []
