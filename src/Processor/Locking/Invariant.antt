-- ===== src/Processor/Locking/Invariant.antt =====
-- What holds between the steps of the locking scheduler, with transactions that the locks or their
-- keys keep apart.
use cmcs624_fall.Common.{
  ◌||◌, Bool, true, false, Bool-cases, inl, inr, if◌then◌else◌, ◌≢◌, sym, ℕ, ◌+◌, ◌≤◌, ◌<◌, ◌≡◌,
  ◌≢◌, ap, ◌∙◌, arith, false, List, [], ◌∷◌, ◌++◌, if◌then◌else◌, beq_refl, beq_of_ne, count,
  count-append, count-apart, All, Ascending,
}
use cmcs624_fall.Common.KeySet
use cmcs624_fall.LockManager.{LockManager, unlocked, shared, exclusive}
use cmcs624_fall.Storage.{Storage}
use cmcs624_fall.Txn.Programs.{Object}
use cmcs624_fall.Processor.{Processor, single, update}
use cmcs624_fall.Processor.Spec.{Database}
use cmcs624_fall.Processor.Execution.{view, IsFresh}
use cmcs624_fall.Processor.History.{after_all, Decided}
use cmcs624_fall.Processor.Locking.{launch}
use cmcs624_fall.Processor.Locking.Contract.{Contract}
use cmcs624_fall.Processor.Locking.Places.{places}
use cmcs624_fall.Processor.Locking.Exclusion.{Exclusion}
use cmcs624_fall.Processor.Locking.Isolation.{
  Isolation, by_locks, by_keys, Isolated, Locked, Isolated-step,
}
use cmcs624_fall.Processor.Locking.Computed.{Computed}

-- A transaction that a client has handed in, with its keys in order, and none of them in both sets.
pub record IsRequestable (o : Object) : Type 0 where
  pub fresh : IsFresh o
  pub readset_ascending : Ascending o.txn.readset
  pub writeset_ascending : Ascending o.txn.writeset
  pub no_overlap : All (λ k. KeySet.contains k o.txn.readset ≡ false) o.txn.writeset

-- `s₀`, with the database `st₀`, is where the run has started, and `s` is where it is.
pub record Inv {L : Type 0} (lm : LockManager L) (contract : Contract L lm) (iso : Isolation lm)
    (s₀ : Processor L) (st₀ : Storage) (s : Processor L) : Type 0 where
  pub store : Storage
  pub done : List ℕ
  pub stored : s.storage ≡ single store
  pub results : s.txn_results ≡ s₀.txn_results ++ done
  pub database : view store ≡ after_all s₀.heap done (view st₀)
  pub decided : Decided s.heap s₀.heap done (view st₀)
  pub once : (p : ℕ) → places contract.waits s p ≤ 1
  pub untouched :
      (p : ℕ) → count p s.completed_txns + count p s.txn_results ≡ 0 → s.heap p ≡ s₀.heap p
  pub isolated : Isolated lm contract iso s₀ s
  pub computed :
      (p : ℕ) → 0 < count p s.completed_txns → Computed (s₀.heap p) (s.heap p) (view store)

exclusive≢unlocked : exclusive ≡ unlocked → ⊥
exclusive≢unlocked e = cc

wanted-some :
    (r w : Bool)
    → (r || w) ≡ true
    → (if w then exclusive else (if r then shared else unlocked)) ≢ unlocked
wanted-some r true h e = cc
wanted-some true false h e = cc
wanted-some false false h e = cc

pub update-here : (heap : ℕ → Object) (p : ℕ) (o : Object) → update heap p o p ≡ o
update-here heap p o = ap (λ b. if b then o else heap p) (beq_refl p)

pub update-else : (heap : ℕ → Object) (p q : ℕ) (o : Object) → q ≢ p → update heap p o q ≡ heap q
update-else heap p q o ne = ap (λ b. if b then o else heap q) (beq_of_ne q p ne)

-- A change of an object decides nothing about the other transactions.
pub Decided-update :
    (heap h₀ : ℕ → Object) (p : ℕ) (o : Object) (ps : List ℕ) (db : Database)
    → All (λ q. q ≢ p) ps
    → Decided heap h₀ ps db
    → Decided (update heap p o) h₀ ps db
Decided-update heap h₀ p o [] db apart d = tt
Decided-update heap h₀ p o (q ∷ ps) db apart d = (
  ap (λ b. (if b then o else heap q).txn.status) (beq_of_ne q p apart.0) ∙ d.0,
  Decided-update heap h₀ p o ps _ apart.1 d.1,
)

module _ {L : Type 0} (lm : LockManager L) (contract : Contract L lm) (s₀ s : Processor L) (p q : ℕ)
    (ne : p ≢ q) (hp : 0 < (count p s.ready_txns + count p s.tasks) + count p s.completed_txns)
    (hq : 0 < (count q s.ready_txns + count q s.tasks) + count q s.completed_txns) (j : ℕ)
    (declared : (KeySet.contains j (s₀.heap q).txn.readset
        || KeySet.contains j (s₀.heap q).txn.writeset)
      ≡ true) where
  Locked-apart :
      (ex : Exclusion L lm)
      → Locked lm contract ex s₀ s
      → KeySet.contains j (s₀.heap p).txn.writeset ≡ false
  Locked-apart ex locked = elim (Bool-cases (KeySet.contains j (s₀.heap p).txn.writeset)) [
    | inl both ↦
        let mine : ex.asked s.locks p j ≡ exclusive =
          locked.asking p (omega (arith, hp)) j
          ∙ ap
              (λ b.
                if b
                then exclusive
                else (if KeySet.contains j (s₀.heap p).txn.readset then shared else unlocked))
              both in
        let theirs : ex.asked s.locks q j ≢ unlocked = λ none.
          wanted-some (KeySet.contains j (s₀.heap q).txn.readset)
            (KeySet.contains j (s₀.heap q).txn.writeset) declared
            (sym (locked.asking q (omega (arith, hq)) j) ∙ none) in
        let held : ex.held s.locks p j ≡ exclusive =
          locked.holding p hp j (λ none. exclusive≢unlocked (sym mine ∙ none)) ∙ mine in
        absurd (
          theirs (
            sym (locked.holding q hq j theirs)
            ∙ ex.exclusive_law s.locks p q j locked.valid ne held))
    | inr out ↦ out
  ]

  Isolated-apart :
      (iso : Isolation lm)
      → Isolated lm contract iso s₀ s
      → KeySet.contains j (s₀.heap p).txn.writeset ≡ false
  Isolated-apart (by_locks ex) locked = Locked-apart ex locked
  Isolated-apart by_keys apart = apart p q ne j declared

module _ {L : Type 0} (lm : LockManager L) (contract : Contract L lm) (iso : Isolation lm)
    (s₀ : Processor L) (st₀ : Storage) (s : Processor L) (inv : Inv lm contract iso s₀ st₀ s) where
  -- A transaction that is still on its way has no result yet.
  pub done-apart :
      (p : ℕ) → 0 < count p s.tasks + count p s.completed_txns → All (λ q. q ≢ p) inv.done
  done-apart p h = count-apart p inv.done (
      omega
        (arith, h, inv.once p, ap (count p) inv.results, count-append p s₀.txn_results inv.done))

  -- Of two transactions that have their locks, neither writes a key that the other declares.
  pub keys-apart :
      (p q : ℕ)
      → p ≢ q
      → 0 < (count p s.ready_txns + count p s.tasks) + count p s.completed_txns
      → 0 < (count q s.ready_txns + count q s.tasks) + count q s.completed_txns
      → (j : ℕ)
      → (KeySet.contains j (s₀.heap q).txn.readset || KeySet.contains j (s₀.heap q).txn.writeset)
        ≡ true
      → KeySet.contains j (s₀.heap p).txn.writeset ≡ false
  keys-apart p q ne hp hq j declared =
      Isolated-apart lm contract s₀ s p q ne hp hq j declared iso inv.isolated

  pub launch-Inv :
      (p : ℕ) (rest : List ℕ)
      → s.ready_txns ≡ p ∷ rest
      → ((q : ℕ) → places contract.waits (launch lm s p rest) q ≤ 1)
      → Inv lm contract iso s₀ st₀ (launch lm s p rest)
  unfolding launch
  launch-Inv p rest e once = record {
    store = inv.store;
    done = inv.done;
    stored = inv.stored;
    results = inv.results;
    database = inv.database;
    decided = inv.decided;
    once = once;
    untouched = inv.untouched;
    isolated = Isolated-step lm contract iso s₀ s (launch lm s p rest) launched-Locked inv.isolated;
    computed = inv.computed;
  }
    where
      moved :
          (q : ℕ)
          → count q rest + count q (s.tasks ++ p ∷ []) ≡ count q s.ready_txns + count q s.tasks
      moved q = omega (arith, ap (count q) e, count-append q s.tasks (p ∷ []))

      launched-Locked :
          (ex : Exclusion L lm)
          → Locked lm contract ex s₀ s
          → Locked lm contract ex s₀ (launch lm s p rest)
      launched-Locked ex locked = record {
        valid = locked.valid;
        unasked = λ q h. locked.unasked q (omega (arith, h, moved q));
        asking = λ q h. locked.asking q (omega (arith, h, moved q));
        holding = λ q h. locked.holding q (omega (arith, h, moved q));
      }
