-- ===== src/Processor/Locking/Isolation.antt =====
-- What keeps the transactions of a run apart: the locks, with a lock manager that grants them as the
-- comments of a2/txn/lock_manager.h say, or that no two of the transactions are after the same keys.
-- The managers of a2/txn/lock_manager.cc grant every lock as it stands, so with those it is the keys.
use cmcs624_fall.Common.{ℕ, ◌+◌, ◌<◌, ◌≡◌, ◌≢◌, true, false, ◌||◌, count}
use cmcs624_fall.Common.KeySet
use cmcs624_fall.LockManager.{LockManager, LockMode, unlocked}
use cmcs624_fall.Txn.Programs.{Object}
use cmcs624_fall.Processor.{Processor}
use cmcs624_fall.Processor.Locking.Contract.{Contract}
use cmcs624_fall.Processor.Locking.Exclusion.{Exclusion, AllHeld}
use cmcs624_fall.Processor.Locking.Requests.{wanted}

pub data Isolation {L : Type 0} (lm : LockManager L) : Type 1 where
  by_locks : Exclusion L lm → Isolation lm
  by_keys : Isolation lm

abbrev pub wanted_by : {L : Type 0} → (lm : LockManager L) → Exclusion L lm → Object → ℕ → LockMode
wanted_by lm ex o = wanted lm ex o.txn.readset o.txn.writeset

-- No transaction writes a key that another declares.
abbrev pub Apart : (ℕ → Object) → Type 0
Apart heap =
    (p q : ℕ)
    → p ≢ q
    → (j : ℕ)
    → (KeySet.contains j (heap q).txn.readset || KeySet.contains j (heap q).txn.writeset) ≡ true
    → KeySet.contains j (heap p).txn.writeset ≡ false

-- At the start nobody has asked for a lock.
pub record Unlocked {L : Type 0} {lm : LockManager L} (ex : Exclusion L lm) (l : L) : Type 0 where
  pub valid : ex.IsValid l
  pub unasked : (p j : ℕ) → ex.asked l p j ≡ unlocked

abbrev pub IsolatedAtStart : {L : Type 0} {lm : LockManager L} → Isolation lm → Processor L → Type 0
IsolatedAtStart (by_locks ex) s = Unlocked ex s.locks
IsolatedAtStart by_keys s = Apart s.heap

-- A transaction on its way has asked for the locks of its keys, and one that is ready holds them.
pub record Locked {L : Type 0} (lm : LockManager L) (contract : Contract L lm) (ex : Exclusion L lm)
    (s₀ s : Processor L) : Type 0 where
  pub valid : ex.IsValid s.locks
  pub unasked :
      (p : ℕ)
      → contract.waits s.locks p
          + (count p s.ready_txns + count p s.tasks)
          + count p s.completed_txns
          + count p s.txn_results
        ≡ 0
      → (j : ℕ) → ex.asked s.locks p j ≡ unlocked
  pub asking :
      (p : ℕ)
      → 0
        < contract.waits s.locks p
          + (count p s.ready_txns + count p s.tasks)
          + count p s.completed_txns
      → (j : ℕ) → ex.asked s.locks p j ≡ wanted_by lm ex (s₀.heap p) j
  pub holding :
      (p : ℕ)
      → 0 < (count p s.ready_txns + count p s.tasks) + count p s.completed_txns
      → AllHeld (ex.asked s.locks) (ex.held s.locks) p

abbrev pub Isolated :
    {L : Type 0} (lm : LockManager L) (contract : Contract L lm)
    → Isolation lm
    → (s₀ s : Processor L) → Type 0
Isolated lm contract (by_locks ex) s₀ s = Locked lm contract ex s₀ s
Isolated lm contract by_keys s₀ s = Apart s₀.heap

-- A step that leaves the locks as they should be keeps transactions apart that the keys keep apart.
pub Isolated-step :
    {L : Type 0} (lm : LockManager L) (contract : Contract L lm) (iso : Isolation lm)
    (s₀ s s' : Processor L)
    → ((ex : Exclusion L lm) → Locked lm contract ex s₀ s → Locked lm contract ex s₀ s')
    → Isolated lm contract iso s₀ s
    → Isolated lm contract iso s₀ s'
Isolated-step lm contract (by_locks ex) s₀ s s' step locked = step ex locked
Isolated-step lm contract by_keys s₀ s s' step apart = apart
