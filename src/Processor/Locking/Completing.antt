-- ===== src/Processor/Locking/Completing.antt =====
-- The scheduler commits or aborts a transaction that has run, and releases its locks.
use cmcs624_fall.Common.{
  ℕ, ◌≤◌, ◌<◌, ◌≡◌, sym, ap, subst, ◌∙◌, arith, true, false, List, ◌∷◌, if◌then◌else◌, Bool-cases,
  inl, inr, beq_refl, count, ok, ◌>>=◌,
}
use cmcs624_fall.LockManager.{LockManager}
use cmcs624_fall.Storage.{Storage}
use cmcs624_fall.Processor.{Processor, Chance, set_status, apply_writes, push_result}
use cmcs624_fall.Processor.Execution.{view}
use cmcs624_fall.Processor.Locking.Contract.{Contract}
use cmcs624_fall.Processor.Locking.Places.{places, as_number}
use cmcs624_fall.Processor.Locking.Isolation.{Isolation}
use cmcs624_fall.Processor.Locking.Computed.{Computed}
use cmcs624_fall.Processor.Locking.Invariant.{IsRequestable, Inv}
use cmcs624_fall.Txn.Programs.{run}
use mathlib.Core.Path.{fun_ext}
use cmcs624_fall.Txn.{TxnStatus, completed_c, completed_a, committed, aborted}
use cmcs624_fall.Txn.Programs.Runs.{insert_all, lookup-insert_all}
use cmcs624_fall.Processor.Phases.{apply_writes_lem}
use cmcs624_fall.Processor.Serial.{finish_commit, finish_abort}
use cmcs624_fall.Processor.Spec.{commits, committed_to}
use cmcs624_fall.Processor.Locking.{release_locks, complete}
use cmcs624_fall.Processor.Locking.Executing.{ok-same}
use cmcs624_fall.Processor.Locking.Settling.{Ends, finished, finished-Inv}

module _ {L : Type 0} (lm : LockManager L) (contract : Contract L lm) (iso : Isolation lm)
    (s₀ : Processor L) (st₀ : Storage) (s : Processor L) (inv : Inv lm contract iso s₀ st₀ s)
    (p : ℕ) (rest : List ℕ) (e : s.completed_txns ≡ p ∷ rest)
    (good : (q : ℕ) → 0 < count q s.completed_txns → IsRequestable (s₀.heap q)) where
  abbrev Ended : TxnStatus → Storage → Type 0
  Ended = Ends lm contract iso s₀ st₀ s inv p rest e good

  abbrev final : (status : TxnStatus) (st : Storage) → Ended status st → Processor L
  final = finished lm contract iso s₀ st₀ s inv p rest e good

  own : Computed (s₀.heap p) (s.heap p) (view inv.store)
  own = inv.computed p (omega (arith, ap (count p) e, ap as_number (beq_refl p)))

  -- The two ends.
  applied : Chance → Storage
  applied c = record {
    records = insert_all (s.heap p).txn.writes inv.store.records;
    timestamps = (apply_writes_lem inv.store c (s.heap p).txn).0;
  }

  lookup-applied :
      (c : Chance) (j : ℕ)
      → view (applied c) j
        ≡ committed_to (s₀.heap p).program (s₀.heap p).txn.writeset (view inv.store) j
  unfolding applied
  lookup-applied c j =
      ground (
        arith,
        lookup-insert_all j (s.heap p).txn.writes inv.store.records own.sorted,
        own.inside j,
      )

  commit-Ends :
      (c : Chance)
      → commits (s₀.heap p).program (view inv.store) ≡ true
      → Ended committed (applied c)
  commit-Ends c h = record {
    status_law = ap (λ b. if b then committed else aborted) (sym h);
    database_law = fun_ext (λ j.
        lookup-applied c j
        ∙ ap
            (λ b.
              if b
              then committed_to (s₀.heap p).program (s₀.heap p).txn.writeset (view inv.store) j
              else view inv.store j)
            (sym h));
  }

  abort-Ends : commits (s₀.heap p).program (view inv.store) ≡ false → Ended aborted inv.store
  abort-Ends h = record {
    status_law = ap (λ b. if b then committed else aborted) (sym h);
    database_law = fun_ext (λ j.
        ap
          (λ b.
            if b
            then committed_to (s₀.heap p).program (s₀.heap p).txn.writeset (view inv.store) j
            else view inv.store j)
          (sym h));
  }

  -- The outcome of the step.
  complete-commit :
      (c : Chance) (h : commits (s₀.heap p).program (view inv.store) ≡ true)
      → complete lm s p rest c ≡ ok (final committed (applied c) (commit-Ends c h))
  unfolding complete applied
  complete-commit c h =
      ap (λ o. o >>= λ f. ok (push_result (release_locks lm f p) p))
        (finish_commit (record s { completed_txns = rest }) p c
          (own.status ∙ ap (λ b. if b then completed_c else completed_a) h))
      ∙ ap
          (λ st. ok (
            push_result
              (release_locks lm
                (set_status (record s { completed_txns = rest; storage = st }) p committed) p)
              p))
          (ap (λ x. apply_writes x c (s.heap p).txn) inv.stored
            ∙ (apply_writes_lem inv.store c (s.heap p).txn).1)

  complete-abort :
      (c : Chance) (h : commits (s₀.heap p).program (view inv.store) ≡ false)
      → complete lm s p rest c ≡ ok (final aborted inv.store (abort-Ends h))
  unfolding complete
  complete-abort c h =
      ap (λ o. o >>= λ f. ok (push_result (release_locks lm f p) p))
        (finish_abort (record s { completed_txns = rest }) p c
          (own.status ∙ ap (λ b. if b then completed_c else completed_a) h))
      ∙ ap
          (λ st. ok (
            push_result
              (release_locks lm
                (set_status (record s { completed_txns = rest; storage = st }) p aborted) p)
              p))
          inv.stored

  pub complete-Inv :
      (c : Chance) (s' : Processor L)
      → complete lm s p rest c ≡ ok s'
      → ((q : ℕ) → places contract.waits s' q ≤ 1)
      → Inv lm contract iso s₀ st₀ s'
  complete-Inv c s' run once = elim (Bool-cases (commits (s₀.heap p).program (view inv.store))) [
    | inl h ↦
        let same = ok-same (sym (complete-commit c h) ∙ run) in
        subst (Inv lm contract iso s₀ st₀) same (
          finished-Inv lm contract iso s₀ st₀ s inv p rest e good committed (applied c)
            (commit-Ends c h) (λ q. subst (λ x. places contract.waits x q ≤ 1) (sym same) (once q)))
    | inr h ↦
        let same = ok-same (sym (complete-abort c h) ∙ run) in
        subst (Inv lm contract iso s₀ st₀) same (
          finished-Inv lm contract iso s₀ st₀ s inv p rest e good aborted inv.store (abort-Ends h)
            (λ q. subst (λ x. places contract.waits x q ≤ 1) (sym same) (once q)))
  ]
