-- ===== src/Processor/Locking/Exclusion.antt =====
-- What a lock manager does with locks, as the comments of a2/txn/lock_manager.h say.
use cmcs624_fall.Common.{ℕ, ◌≡◌, ◌≢◌, ◌⊎◌, Bool, true, List, In}
use cmcs624_fall.LockManager.{LockManager, LockMode, unlocked, shared, exclusive}

-- For a transaction and a key, the mode of a request that was made and not released, and the mode of
-- the lock that is held.
abbrev pub Modes : Type 0
Modes = ℕ → ℕ → LockMode

-- Every request of the transaction has been granted.
abbrev pub AllHeld : Modes → Modes → ℕ → Type 0
AllHeld asked held p = (k : ℕ) → asked p k ≢ unlocked → held p k ≡ asked p k

-- The modes of everything but one request are as before.
abbrev pub SameBut : ℕ → ℕ → Modes → Modes → Type 0
SameBut p k before after = (q j : ℕ) → (q ≢ p) ⊎ (j ≢ k) → after q j ≡ before q j

-- A call for a transaction that has not asked for the key yet. What is held of other requests stays,
-- and a request that is granted is held.
pub record IsRequest {L : Type 0} (IsValid : L → Type 0) (asked held : L → Modes) (mode : LockMode)
    (lock : L → ℕ → ℕ → L × Bool) : Type 0 where
  pub valid : (l : L) (p k : ℕ) → IsValid l → asked l p k ≡ unlocked → IsValid (lock l p k).0
  pub asks :
      (l : L) (p k : ℕ) → IsValid l → asked l p k ≡ unlocked → asked (lock l p k).0 p k ≡ mode
  pub asked_else :
      (l : L) (p k : ℕ)
      → IsValid l
      → asked l p k ≡ unlocked
      → SameBut p k (asked l) (asked (lock l p k).0)
  pub held_else :
      (l : L) (p k : ℕ)
      → IsValid l
      → asked l p k ≡ unlocked
      → SameBut p k (held l) (held (lock l p k).0)
  pub grants :
      (l : L) (p k : ℕ)
      → IsValid l
      → asked l p k ≡ unlocked
      → (lock l p k).1 ≡ true
      → held (lock l p k).0 p k ≡ mode

-- A release ends one request, and nobody else loses a lock by it. Whoever becomes ready holds all
-- that it has asked for. Nobody holds a lock beside one that holds it exclusively.
pub record Exclusion (L : Type 0) (lm : LockManager L) : Type 1 where
  pub IsValid : L → Type 0
  pub asked : L → Modes
  pub held : L → Modes
  pub reads : IsRequest IsValid asked held shared lm.read_lock
  pub writes : IsRequest IsValid asked held exclusive lm.write_lock
  pub release_valid :
      (l : L) (ready : List ℕ) (p k : ℕ) → IsValid l → IsValid (lm.release l ready p k).0
  pub release_asked :
      (l : L) (ready : List ℕ) (p k q j : ℕ)
      → IsValid l
      → q ≢ p
      → asked (lm.release l ready p k).0 q j ≡ asked l q j
  pub release_held :
      (l : L) (ready : List ℕ) (p k q j : ℕ)
      → IsValid l
      → q ≢ p
      → held l q j ≢ unlocked
      → held (lm.release l ready p k).0 q j ≡ held l q j
  pub release_ready :
      (l : L) (ready : List ℕ) (p k q : ℕ)
      → IsValid l
      → q ≢ p
      → In q (lm.release l ready p k).1
      → In q ready ⊎ AllHeld (asked (lm.release l ready p k).0) (held (lm.release l ready p k).0) q
  pub exclusive_law :
      (l : L) (p q k : ℕ) → IsValid l → p ≢ q → held l p k ≡ exclusive → held l q k ≡ unlocked
