-- ===== src/Processor/Locking/Contract.antt =====
-- What the scheduler relies on in a lock manager (a2/txn/lock_manager.h), and the two managers of
-- the repository.
use cmcs624_fall.Common.{ℕ, ◌+◌, ◌≡◌, ◌≢◌, refl, Bool, true, false, List, count}
use cmcs624_fall.LockManager.{
  LockManager, LockTable, lock_manager_a, lock_manager_b, write_lock_a, read_lock_a, release_a,
  write_lock_b, read_lock_b, release_b,
}

-- A lock call for `p` concerns no other transaction, and `p` waits afterwards if it was refused, or
-- waited before.
abbrev pub IsLock : {L : Type 0} → (L → ℕ → ℕ) → (L → ℕ → ℕ → L × Bool) → Type 0
IsLock {L} waits lock =
    (l : L) (p k : ℕ)
    → ((q : ℕ) → q ≢ p → waits (lock l p k).0 q ≡ waits l q)
      × ((lock l p k).1 ≡ true → waits (lock l p k).0 p ≡ waits l p)
      × ((lock l p k).1 ≡ false → waits (lock l p k).0 p ≡ 1)

-- `waits l p` is 1 while `p` waits for a lock, and otherwise 0. A release moves transactions from
-- those that wait to the queue of those that are ready.
pub record Contract (L : Type 0) (lm : LockManager L) : Type 0 where
  pub waits : L → ℕ → ℕ
  pub read_law : IsLock waits lm.read_lock
  pub write_law : IsLock waits lm.write_lock
  pub release_law :
      (l : L) (ready : List ℕ) (p k q : ℕ)
      → waits (lm.release l ready p k).0 q + count q (lm.release l ready p k).1
        ≡ waits l q + count q ready

-- The managers of the repository grant every lock, so nobody ever waits.
pub contract_a : Contract LockTable lock_manager_a
unfolding lock_manager_a write_lock_a read_lock_a release_a
contract_a = record {
  waits = λ _ _. 0;
  read_law = λ l p k. (λ q ne. refl, λ e. refl, λ e. cc);
  write_law = λ l p k. (λ q ne. refl, λ e. refl, λ e. cc);
  release_law = λ l ready p k q. refl;
}

unfoldable pub contract_b : Contract LockTable lock_manager_b
unfolding lock_manager_b write_lock_b read_lock_b release_b
contract_b = record {
  waits = λ _ _. 0;
  read_law = λ l p k. (λ q ne. refl, λ e. refl, λ e. cc);
  write_law = λ l p k. (λ q ne. refl, λ e. refl, λ e. cc);
  release_law = λ l ready p k q. refl;
}
