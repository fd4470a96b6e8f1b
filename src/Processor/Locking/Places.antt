-- ===== src/Processor/Locking/Places.antt =====
-- In how many places of the processor a transaction is, and what the locks have to do with it.
use cmcs624_fall.Common.{
  ℕ, ◌+◌, ◌≡◌, ◌≢◌, refl, ◌∙◌, arith, Bool, true, false, List, [], ◌∷◌, if◌then◌else◌, ◌==◌,
  Bool-cases, inl, inr, beq_refl, beq_of_ne, count,
}
use cmcs624_fall.LockManager.{LockManager}
use cmcs624_fall.Processor.{Processor}
use cmcs624_fall.Processor.Locking.{lock_keys, request_locks, release_keys, release_locks}
use cmcs624_fall.Processor.Locking.Contract.{IsLock, Contract}

module _ {L : Type 0} (waits : L → ℕ → ℕ) (lock : L → ℕ → ℕ → L × Bool)
    (law : IsLock waits lock) where
  lock_keys_lem :
      (lm : LockManager L) (l : L) (p : ℕ) (ks : List ℕ) (blocked : Bool)
      → ((q : ℕ) → q ≢ p → waits (lock_keys lm lock l p ks blocked).0 q ≡ waits l q)
        × (waits l p ≡ (if blocked then 1 else 0)
            → waits (lock_keys lm lock l p ks blocked).0 p
              ≡ (if (lock_keys lm lock l p ks blocked).1 then 1 else 0))
  unfolding lock_keys
  lock_keys_lem lm l p [] blocked = (λ q ne. refl, λ e. e)
  lock_keys_lem lm l p (k ∷ ks) blocked = elim (Bool-cases (lock l p k).1) [
    | inl granted ↦
        let (others, own) = lock_keys_lem lm (lock l p k).0 p ks blocked in
        rw (lock_keys, granted)
          (λ q ne. others q ne ∙ (law l p k).0 q ne, λ e. own ((law l p k).1 granted ∙ e))
    | inr refused ↦
        let (others, own) = lock_keys_lem lm (lock l p k).0 p ks true in
        rw (lock_keys, refused)
          (λ q ne. others q ne ∙ (law l p k).0 q ne, λ e. own ((law l p k).2 refused))
  ]

-- In how many places of the processor the transaction is: it waits for a lock, or stands in a queue.
abbrev pub places : {L : Type 0} → (L → ℕ → ℕ) → Processor L → ℕ → ℕ
places waits s q =
    waits s.locks q
    + count q s.txn_requests
    + count q s.ready_txns
    + count q s.tasks
    + count q s.completed_txns
    + count q s.txn_results

abbrev pub one_if : ℕ → ℕ → ℕ
one_if q p = if q == p then 1 else 0

abbrev pub as_number : Bool → ℕ
as_number c = if c then 1 else 0

pub miss : (q p : ℕ) → q ≢ p → one_if q p ≡ 0
miss q p ne = rw (beq_of_ne q p ne)

pub beq-count : (p : ℕ) → 1 ≡ one_if p p
beq-count p = rw (beq_refl p)

module _ {L : Type 0} (lm : LockManager L) (contract : Contract L lm) where
  abbrev pub at : Processor L → ℕ → ℕ
  at = places contract.waits

  -- A transaction that does not wait waits after its requests exactly if it is blocked.
  pub request_locks_lem :
      (l : L) (p : ℕ) (readset writeset : List ℕ)
      → contract.waits l p ≡ 0
      → ((q : ℕ)
          → q ≢ p
          → contract.waits (request_locks lm l p readset writeset).0 q ≡ contract.waits l q)
        × (contract.waits (request_locks lm l p readset writeset).0 p
            ≡ (if (request_locks lm l p readset writeset).1 then 1 else 0))
  unfolding request_locks
  request_locks_lem l p readset writeset h =
      let r = lock_keys lm lm.read_lock l p readset false in
      let reads =
        lock_keys_lem contract.waits lm.read_lock contract.read_law lm l p readset false in
      let writes =
        lock_keys_lem contract.waits lm.write_lock contract.write_law lm r.0 p writeset r.1 in
      (λ q ne. writes.0 q ne ∙ reads.0 q ne, writes.1 (reads.1 h))

  release_keys-at :
      (l : L) (ready : List ℕ) (p : ℕ) (ks : List ℕ) (q : ℕ)
      → contract.waits (release_keys lm l ready p ks).0 q + count q (release_keys lm l ready p ks).1
        ≡ contract.waits l q + count q ready
  unfolding release_keys
  release_keys-at l ready p [] q = refl
  release_keys-at l ready p (k ∷ ks) q =
      release_keys-at (lm.release l ready p k).0 (lm.release l ready p k).1 p ks q
      ∙ contract.release_law l ready p k q

  pub release_locks-at : (s : Processor L) (p q : ℕ) → at (release_locks lm s p) q ≡ at s q
  unfolding release_locks
  release_locks-at s p q =
      let t = (s.heap p).txn in
      let r = release_keys lm s.locks s.ready_txns p t.readset in
      omega (
        arith,
        release_keys-at s.locks s.ready_txns p t.readset q,
        release_keys-at r.0 r.1 p t.writeset q,
      )
