-- ===== src/Processor/Locking/Admitting.antt =====
-- The scheduler takes a request: what holds after it.
use native.Mathlib.Decide.{ℕ_discrete}
use cmcs624_fall.Common.{
  ℕ, ◌+◌, ◌≤◌, ◌<◌, ◌≡◌, ◌≢◌, refl, sym, ap, subst, ◌∙◌, arith, Bool, true, false, List, [], ◌∷◌,
  ◌++◌, if◌then◌else◌, ◌==◌, beq_refl, beq_of_ne, count, count-append,
}
use cmcs624_fall.LockManager.{LockManager}
use cmcs624_fall.Storage.{Storage}
use cmcs624_fall.Processor.{Processor}
use cmcs624_fall.Processor.Locking.{request_locks, admit_from, admit}
use cmcs624_fall.Processor.Locking.Contract.{Contract}
use cmcs624_fall.Processor.Locking.Places.{places, request_locks_lem, as_number}
use cmcs624_fall.Processor.Locking.Exclusion.{Exclusion, AllHeld}
use cmcs624_fall.Processor.Locking.Isolation.{Isolation, wanted_by, Locked, Isolated-step}
use cmcs624_fall.Processor.Locking.Requests.{Requested, request_locks-Requested}
use cmcs624_fall.Processor.Locking.Invariant.{IsRequestable, Inv}

module _ {L : Type 0} (lm : LockManager L) (contract : Contract L lm) (iso : Isolation lm)
    (s₀ : Processor L) (st₀ : Storage) (s : Processor L) (inv : Inv lm contract iso s₀ st₀ s) where
  module _ (p : ℕ) (rest : List ℕ) (e : s.txn_requests ≡ p ∷ rest)
      (good : IsRequestable (s₀.heap p)) where
    queued : (q : ℕ) → count q s.txn_requests ≡ count q rest + (if q == p then 1 else 0)
    queued q = ap (count q) e

    queued_here : count p s.txn_requests ≡ count p rest + 1
    queued_here = queued p ∙ ap (λ b. count p rest + (if b then 1 else 0)) (beq_refl p)

    same_object : s.heap p ≡ s₀.heap p
    same_object = inv.untouched p (omega (arith, queued_here, inv.once p))

    asked_locks : L
    asked_locks = (request_locks lm s.locks p (s.heap p).txn.readset (s.heap p).txn.writeset).0

    is_blocked : Bool
    is_blocked = (request_locks lm s.locks p (s.heap p).txn.readset (s.heap p).txn.writeset).1

    waits_else : (q : ℕ) → q ≢ p → contract.waits asked_locks q ≡ contract.waits s.locks q
    unfolding asked_locks
    waits_else q ne =
        (request_locks_lem lm contract s.locks p (s.heap p).txn.readset (s.heap p).txn.writeset
            (omega (arith, inv.once p, queued_here))).0
          q ne

    abbrev admitted : List ℕ → Processor L
    admitted ready = record s { txn_requests = rest; locks = asked_locks; ready_txns = ready }

    waits_here : contract.waits asked_locks p ≡ as_number is_blocked
    unfolding asked_locks is_blocked
    waits_here =
        (request_locks_lem lm contract s.locks p (s.heap p).txn.readset (s.heap p).txn.writeset
          (omega (arith, inv.once p, queued_here))).1

    away :
        (q : ℕ) (ready : List ℕ)
        → 0 < contract.waits asked_locks p + count p ready
        → contract.waits asked_locks q + count q ready ≡ 0
        → q ≢ p
    away q ready kept none same =
        omega
          (arith, kept, sym (ap (λ x. contract.waits asked_locks x + count x ready) same) ∙ none)

    module _ (ex : Exclusion L lm) (locked : Locked lm contract ex s₀ s) where
      requested :
          Requested lm ex p (s.heap p).txn.readset (s.heap p).txn.writeset s.locks asked_locks
          × (is_blocked ≡ false → AllHeld (ex.asked asked_locks) (ex.held asked_locks) p)
      unfolding asked_locks is_blocked
      requested =
          let g : IsRequestable (s.heap p) = subst IsRequestable (sym same_object) good in
          request_locks-Requested lm ex s.locks p (s.heap p).txn.readset (s.heap p).txn.writeset
            locked.valid g.readset_ascending g.writeset_ascending g.no_overlap
            (locked.unasked p (omega (arith, queued_here, inv.once p)))

      asking-admitted :
          (ready : List ℕ) (q : ℕ)
          → ((q : ℕ) → q ≢ p → count q ready ≡ count q s.ready_txns)
          → 0
            < contract.waits asked_locks q
              + (count q ready + count q s.tasks)
              + count q s.completed_txns
          → (j : ℕ) → ex.asked asked_locks q j ≡ wanted_by lm ex (s₀.heap q) j
      asking-admitted ready q others h j = elim (ℕ_discrete q p) [
        | yes same ↦
            ap (λ x. ex.asked asked_locks x j) same
            ∙ requested.0.asked_here j
            ∙ ap (λ o. wanted_by lm ex o j) (same_object ∙ ap s₀.heap (sym same))
        | no ne ↦
            requested.0.asked_else q j ne
            ∙ locked.asking q (omega (arith, h, others q ne, waits_else q ne)) j
      ]

      holding-admitted :
          (ready : List ℕ) (q : ℕ)
          → ((q : ℕ) → q ≢ p → count q ready ≡ count q s.ready_txns)
          → (0 < count p ready → is_blocked ≡ false)
          → 0 < (count q ready + count q s.tasks) + count q s.completed_txns
          → AllHeld (ex.asked asked_locks) (ex.held asked_locks) q
      holding-admitted ready q others own h = elim (ℕ_discrete q p) [
        | yes same ↦
            let h' : 0 < (count p ready + count p s.tasks) + count p s.completed_txns =
              subst (λ x. 0 < (count x ready + count x s.tasks) + count x s.completed_txns) same
                h in
            subst (AllHeld (ex.asked asked_locks) (ex.held asked_locks)) (sym same)
              (requested.1 (own (omega (arith, h', inv.once p, queued_here))))
        | no ne ↦
            let all = locked.holding q (omega (arith, h, others q ne)) in
            λ j has.
              let e = requested.0.asked_else q j ne in
              requested.0.held_else q j ne ∙ all j (λ none. has (e ∙ none)) ∙ sym e
      ]

      admitted-Locked :
          (ready : List ℕ)
          → ((q : ℕ) → q ≢ p → count q ready ≡ count q s.ready_txns)
          → (0 < count p ready → is_blocked ≡ false)
          → 0 < contract.waits asked_locks p + count p ready
          → Locked lm contract ex s₀ (admitted ready)
      admitted-Locked ready others own kept = record {
        valid = requested.0.valid;
        unasked = λ q h j.
            let ne : q ≢ p = away q ready kept (omega (arith, h)) in
            requested.0.asked_else q j ne
            ∙ locked.unasked q (omega (arith, h, others q ne, waits_else q ne)) j;
        asking = λ q h j. asking-admitted ready q others h j;
        holding = λ q h. holding-admitted ready q others own h;
      }

    admitted-Inv :
        (ready : List ℕ)
        → ((q : ℕ) → q ≢ p → count q ready ≡ count q s.ready_txns)
        → (0 < count p ready → is_blocked ≡ false)
        → 0 < contract.waits asked_locks p + count p ready
        → ((q : ℕ) → places contract.waits (admitted ready) q ≤ 1)
        → Inv lm contract iso s₀ st₀ (admitted ready)
    admitted-Inv ready others own kept once = record {
      store = inv.store;
      done = inv.done;
      stored = inv.stored;
      results = inv.results;
      database = inv.database;
      decided = inv.decided;
      once = once;
      untouched = inv.untouched;
      isolated =
          Isolated-step lm contract iso s₀ s (admitted ready)
            (λ ex locked. admitted-Locked ex locked ready others own kept) inv.isolated;
      computed = inv.computed;
    }

    ready-else :
        (b : Bool) (q : ℕ)
        → q ≢ p
        → count q (if b then s.ready_txns else s.ready_txns ++ p ∷ []) ≡ count q s.ready_txns
    ready-else true q ne = refl
    ready-else false q ne =
        omega (arith, count-append q s.ready_txns (p ∷ []), ap as_number (beq_of_ne q p ne))

    ready-own :
        (b : Bool) → 0 < count p (if b then s.ready_txns else s.ready_txns ++ p ∷ []) → b ≡ false
    ready-own true h = absurd (omega (arith, h, inv.once p, queued_here))
    ready-own false h = refl

    ready-kept :
        (b : Bool)
        → contract.waits asked_locks p ≡ as_number b
        → 0
          < contract.waits asked_locks p
            + count p (if b then s.ready_txns else s.ready_txns ++ p ∷ [])
    ready-kept true h = omega (arith, h)
    ready-kept false h =
        omega (arith, count-append p s.ready_txns (p ∷ []), ap as_number (beq_refl p))

    admit_from-Inv :
        ((q : ℕ) → places contract.waits (admit_from lm s (p ∷ rest)) q ≤ 1)
        → Inv lm contract iso s₀ st₀ (admit_from lm s (p ∷ rest))
    unfolding admit_from is_blocked asked_locks
    admit_from-Inv once =
        admitted-Inv (if is_blocked then s.ready_txns else s.ready_txns ++ p ∷ [])
          (λ q ne. ready-else is_blocked q ne) (ready-own is_blocked)
          (ready-kept is_blocked waits_here) once

  admit-cases :
      (ps : List ℕ)
      → s.txn_requests ≡ ps
      → ((p : ℕ) → 0 < count p s.txn_requests → IsRequestable (s₀.heap p))
      → ((q : ℕ) → places contract.waits (admit_from lm s ps) q ≤ 1)
      → Inv lm contract iso s₀ st₀ (admit_from lm s ps)
  unfolding admit_from
  admit-cases [] e good once = inv
  admit-cases (p ∷ rest) e good once =
      admit_from-Inv p rest e (good p (omega (arith, ap (count p) e, ap as_number (beq_refl p))))
        once

  pub admit-Inv :
      ((p : ℕ) → 0 < count p s.txn_requests → IsRequestable (s₀.heap p))
      → ((q : ℕ) → places contract.waits (admit lm s) q ≤ 1)
      → Inv lm contract iso s₀ st₀ (admit lm s)
  unfolding admit
  admit-Inv good once = admit-cases s.txn_requests refl good once
