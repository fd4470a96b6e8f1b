-- ===== src/Processor/Locking/Executing.antt =====
-- A thread of the pool runs a transaction: what holds after it.
use native.Mathlib.Decide.{ℕ_discrete}
use cmcs624_fall.Common.{
  ℕ, ◌+◌, ◌≤◌, ◌≡◌, ◌≢◌, sym, ap, subst, ◌∙◌, arith, List, [], ◌∷◌, ◌++◌, if◌then◌else◌, ◌==◌,
  beq_refl, beq_of_ne, count, count-append, Outcome, ok,
}
use cmcs624_fall.LockManager.{LockManager}
use cmcs624_fall.Storage.{Storage}
use cmcs624_fall.Txn.Programs.{Object, run}
use cmcs624_fall.Processor.{Processor, Chance, execute_txn, update}
use cmcs624_fall.Processor.Execution.{view, IsFresh, ran, run-ran}
use cmcs624_fall.Processor.Locking.Contract.{Contract}
use cmcs624_fall.Processor.Locking.Places.{one_if, beq-count, places, as_number}
use cmcs624_fall.Processor.Locking.Exclusion.{Exclusion}
use cmcs624_fall.Processor.Locking.Isolation.{Isolation, Locked, Isolated-step}
use cmcs624_fall.Processor.Locking.Computed.{Computed, ran-Computed}
use cmcs624_fall.Processor.Locking.Invariant.{IsRequestable, Inv, Decided-update, done-apart}

abbrev pub outcome_or : {A : Type 0} → A → Outcome A → A
outcome_or d (ok a) = a
outcome_or d _ = d

-- An outcome is one value.
pub ok-same : {A : Type 0} {a b : A} → ok a ≡ ok b → a ≡ b
ok-same {A} {a} {b} e = ap (outcome_or a) e

module _ {L : Type 0} (lm : LockManager L) (contract : Contract L lm) (iso : Isolation lm)
    (s₀ : Processor L) (st₀ : Storage) (s : Processor L) (inv : Inv lm contract iso s₀ st₀ s)
    (p : ℕ) (before after : List ℕ) (c : Chance) (e : s.tasks ≡ before ++ p ∷ after)
    (good : IsRequestable (s₀.heap p)) where
  given : (q : ℕ) → count q s.tasks ≡ count q (before ++ after) + (if q == p then 1 else 0)
  given q =
      omega (arith, ap (count q) e, count-append q before (p ∷ after), count-append q before after)

  given_here : count p s.tasks ≡ count p (before ++ after) + 1
  given_here = given p ∙ ap (λ b. count p (before ++ after) + as_number b) (beq_refl p)

  same_object : s.heap p ≡ s₀.heap p
  same_object = inv.untouched p (omega (arith, given_here, inv.once p))

  fresh : IsFresh (s.heap p)
  fresh = subst IsFresh (sym same_object) good.fresh

  abbrev object : Object
  object = record (s.heap p) { txn = ran inv.store c (s.heap p) fresh }

  abbrev executed : Processor L
  executed = record s {
    tasks = before ++ after;
    heap = update s.heap p object;
    completed_txns = s.completed_txns ++ p ∷ [];
  }

  execute-executed : execute_txn (record s { tasks = before ++ after }) p c ≡ ok executed
  unfolding execute_txn
  execute-executed = rw inv.stored (rw (run-ran inv.store c (s.heap p) fresh))

  heap_else : (q : ℕ) → q ≢ p → executed.heap q ≡ s.heap q
  heap_else q ne = ap (λ b. if b then object else s.heap q) (beq_of_ne q p ne)

  heap_here : executed.heap p ≡ object
  heap_here = ap (λ b. if b then object else s.heap p) (beq_refl p)

  completed_else : (q : ℕ) → q ≢ p → count q (s.completed_txns ++ p ∷ []) ≡ count q s.completed_txns
  completed_else q ne =
      omega (arith, count-append q s.completed_txns (p ∷ []), ap as_number (beq_of_ne q p ne))

  object-Computed : Computed (s₀.heap p) (executed.heap p) (view inv.store)
  object-Computed =
      subst (λ o. Computed (s₀.heap p) o (view inv.store)) (sym heap_here)
        (subst (λ o. Computed o object (view inv.store)) same_object
          (ran-Computed inv.store c (s.heap p) fresh))

  executed-Inv :
      ((q : ℕ) → places contract.waits executed q ≤ 1) → Inv lm contract iso s₀ st₀ executed
  executed-Inv once = record {
    store = inv.store;
    done = inv.done;
    stored = inv.stored;
    results = inv.results;
    database = inv.database;
    decided =
        Decided-update s.heap s₀.heap p object inv.done (view st₀)
          (done-apart lm contract iso s₀ st₀ s inv p (omega (arith, given_here))) inv.decided;
    once = once;
    untouched = λ q h.
        heap_else q (unmoved q (omega (arith, h)))
        ∙ inv.untouched q (omega (arith, h, count-append q s.completed_txns (p ∷ [])));
    isolated = Isolated-step lm contract iso s₀ s executed executed-Locked inv.isolated;
    computed = λ q h. elim (ℕ_discrete q p) [
      | yes same ↦
          subst (λ x. Computed (s₀.heap x) (executed.heap x) (view inv.store)) (sym same)
            object-Computed
      | no ne ↦
          subst (λ o. Computed (s₀.heap q) o (view inv.store)) (sym (heap_else q ne))
            (inv.computed q (omega (arith, h, completed_else q ne)))
    ];
  }
    where
      total :
          (q : ℕ)
          → count q (before ++ after) + count q (s.completed_txns ++ p ∷ [])
            ≡ count q s.tasks + count q s.completed_txns
      total q = omega (arith, given q, count-append q s.completed_txns (p ∷ []))

      executed-Locked :
          (ex : Exclusion L lm) → Locked lm contract ex s₀ s → Locked lm contract ex s₀ executed
      executed-Locked ex locked = record {
        valid = locked.valid;
        unasked = λ q h. locked.unasked q (omega (arith, h, total q));
        asking = λ q h. locked.asking q (omega (arith, h, total q));
        holding = λ q h. locked.holding q (omega (arith, h, total q));
      }

      unmoved : (q : ℕ) → count q (s.completed_txns ++ p ∷ []) ≡ 0 → q ≢ p
      unmoved q h same = omega (
        arith,
        h,
        count-append q s.completed_txns (p ∷ []),
        ap (one_if q) (sym same),
        sym (beq-count q),
      )

  pub execute-Inv :
      (s' : Processor L)
      → execute_txn (record s { tasks = before ++ after }) p c ≡ ok s'
      → ((q : ℕ) → places contract.waits s' q ≤ 1)
      → Inv lm contract iso s₀ st₀ s'
  execute-Inv s' run once =
      let same : executed ≡ s' = ok-same (sym execute-executed ∙ run) in
      subst (Inv lm contract iso s₀ st₀) same
        (executed-Inv (λ q. subst (λ x. places contract.waits x q ≤ 1) (sym same) (once q)))
