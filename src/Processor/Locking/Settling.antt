-- ===== src/Processor/Locking/Settling.antt =====
-- A transaction that has run gets its result and its locks are released: what holds after it.
use native.Mathlib.Decide.{dec_lt}
use cmcs624_fall.Common.{
  ℕ, ◌+◌, ◌≤◌, ◌<◌, ◌≡◌, ◌≢◌, refl, sym, ap, subst, ◌∙◌, arith, Bool, true, false, List, [], ◌∷◌,
  ◌++◌, if◌then◌else◌, ◌==◌, inl, inr, beq_refl, beq_of_ne, count, count-append, count-In, In-count,
}
use cmcs624_fall.Common.KeySet
use cmcs624_fall.LockManager.{LockManager}
use cmcs624_fall.Storage.{Storage}
use cmcs624_fall.Txn.Programs.{Object}
use cmcs624_fall.Processor.{Processor, single, update, push_result}
use cmcs624_fall.Processor.Execution.{view}
use cmcs624_fall.Processor.History.{after_all, Decided}
use cmcs624_fall.Processor.Locking.Contract.{Contract}
use cmcs624_fall.Processor.Locking.Places.{one_if, beq-count, places, as_number, release_locks-at}
use cmcs624_fall.Processor.Locking.Exclusion.{Exclusion, AllHeld}
use cmcs624_fall.Processor.Locking.Isolation.{Isolation, Locked, Isolated-step}
use cmcs624_fall.Processor.Locking.Computed.{Computed, Computed-same, committed_to-outside}
use cmcs624_fall.Processor.Locking.Invariant.{
  keys-apart, IsRequestable, Inv, Decided-update, done-apart,
}
use mathlib.Core.List.{append_assoc}
use cmcs624_fall.Txn.{TxnStatus, committed, aborted}
use cmcs624_fall.Processor.Spec.{commits, after, Database}
use cmcs624_fall.Processor.Locking.{release_locks}
use cmcs624_fall.Processor.Locking.Releases.{Released, release_locks-Released}

after_all-append :
    (heap : ℕ → Object) (ps : List ℕ) (p : ℕ) (db : Database)
    → after_all heap (ps ++ p ∷ []) db
      ≡ after (heap p).program (heap p).txn.writeset (after_all heap ps db)
after_all-append heap [] p db = refl
after_all-append heap (q ∷ ps) p db = after_all-append heap ps p _

Decided-append :
    (heap h₀ : ℕ → Object) (ps : List ℕ) (p : ℕ) (db : Database)
    → Decided heap h₀ ps db
    → (heap p).txn.status
      ≡ (if commits (h₀ p).program (after_all h₀ ps db) then committed else aborted)
    → Decided heap h₀ (ps ++ p ∷ []) db
Decided-append heap h₀ [] p db d e = (e, tt)
Decided-append heap h₀ (q ∷ ps) p db d e = (d.0, Decided-append heap h₀ ps p _ d.1 e)

same_either : {A : Type 0} (b : Bool) (x y : A) → x ≡ y → (if b then x else y) ≡ y
same_either true x y e = e
same_either false x y e = refl

module _ {L : Type 0} (lm : LockManager L) (contract : Contract L lm) (iso : Isolation lm)
    (s₀ : Processor L) (st₀ : Storage) (s : Processor L) (inv : Inv lm contract iso s₀ st₀ s)
    (p : ℕ) (rest : List ℕ) (e : s.completed_txns ≡ p ∷ rest)
    (good : (q : ℕ) → 0 < count q s.completed_txns → IsRequestable (s₀.heap q)) where
  queued : (q : ℕ) → count q s.completed_txns ≡ count q rest + (if q == p then 1 else 0)
  queued q = ap (count q) e

  queued_here : count p s.completed_txns ≡ count p rest + 1
  queued_here = queued p ∙ ap (λ b. count p rest + as_number b) (beq_refl p)

  abbrev pub object₀ : Object
  object₀ = s₀.heap p

  own : Computed object₀ (s.heap p) (view inv.store)
  own = inv.computed p (omega (arith, queued_here))

  -- What the two ends of a transaction have in common: the database becomes that of the specification,
  -- and the status says which end it was.
  pub record Ends (status : TxnStatus) (st : Storage) : Type 0 where
    pub status_law :
        status ≡ (if commits object₀.program (view inv.store) then committed else aborted)
    pub database_law : view st ≡ after object₀.program object₀.txn.writeset (view inv.store)

  module _ (status : TxnStatus) (st : Storage) (ends : Ends status st) where
    abbrev pub ended : Object
    ended = record (s.heap p) { txn = record ((s.heap p).txn) { status = status } }

    abbrev pub settled : Processor L
    settled = record s { storage = single st; completed_txns = rest; heap = update s.heap p ended }

    abbrev pub finished : Processor L
    finished = push_result (release_locks lm settled p) p

    -- The database changes only under keys that the transaction writes, and all others that have
    -- run are kept apart from it.
    unwritten :
        (j : ℕ) → KeySet.contains j object₀.txn.writeset ≡ false → view st j ≡ view inv.store j
    unwritten j out =
        ap (λ d. d j) ends.database_law
        ∙ same_either (commits object₀.program (view inv.store)) _ (view inv.store j) (
            committed_to-outside object₀ object₀.program (view inv.store) j
              (good p (omega (arith, queued_here))).fresh.runnable.1 out)

    heap_else : (q : ℕ) → q ≢ p → finished.heap q ≡ s.heap q
    unfolding push_result release_locks
    heap_else q ne = ap (λ b. if b then ended else s.heap q) (beq_of_ne q p ne)

    -- Everyone else waits, or is ready, as before.
    waiting_or_ready :
        (q : ℕ)
        → contract.waits finished.locks q + count q finished.ready_txns
          ≡ contract.waits s.locks q + count q s.ready_txns
    unfolding push_result release_locks
    waiting_or_ready q = omega (arith, release_locks-at lm contract settled p q)

    rest_else : (q : ℕ) → q ≢ p → count q rest ≡ count q s.completed_txns
    rest_else q ne = omega (arith, queued q, ap as_number (beq_of_ne q p ne))

    elsewhere :
        ((q : ℕ) → places contract.waits finished q ≤ 1)
        → (q : ℕ)
        → 0
          < contract.waits finished.locks q
            + count q s.txn_requests
            + count q finished.ready_txns
            + count q s.tasks
            + count q rest
        → q ≢ p
    unfolding push_result release_locks
    elsewhere once q h same =
        let mine : count q (p ∷ []) ≡ 1 =
          omega (arith, ap (λ x. as_number (x == p)) same, ap as_number (beq_refl p)) in
        omega (arith, h, once q, count-append q s.txn_results (p ∷ []), mine)

    no_result : (q : ℕ) → count q (s.txn_results ++ p ∷ []) ≡ 0 → q ≢ p
    no_result q h same = omega (
      arith,
      h,
      count-append q s.txn_results (p ∷ []),
      ap (one_if q) (sym same),
      sym (beq-count q),
    )

    module _ (ex : Exclusion L lm) (locked : Locked lm contract ex s₀ s) where
      released : Released lm ex p s.locks s.ready_txns finished.locks finished.ready_txns
      unfolding push_result
      released = release_locks-Released lm ex settled p locked.valid

      holding-finished :
          (q : ℕ)
          → q ≢ p
          → 0 < (count q finished.ready_txns + count q s.tasks) + count q rest
          → AllHeld (ex.asked finished.locks) (ex.held finished.locks) q
      holding-finished q ne h = elim (dec_lt 0 (count q s.tasks + count q rest)) [
        | yes here ↦ released.still q ne (locked.holding q (omega (arith, here, rest_else q ne)))
        | no away ↦
            elim (released.ready_new q ne
              (count-In q finished.ready_txns (omega (arith, h, away)))) [
                | inl before ↦
                    released.still q ne
                      (locked.holding q (omega (arith, In-count q s.ready_txns before)))
                | inr all ↦ all
              ]
      ]

      finished-Locked :
          ((q : ℕ) → places contract.waits finished q ≤ 1) → Locked lm contract ex s₀ finished
      unfolding push_result release_locks
      finished-Locked once = record {
        valid = released.valid;
        unasked = λ q h j.
            let ne = no_result q (omega (arith, h)) in
            released.asked_else q j ne
            ∙ locked.unasked q
                (omega (
                  arith,
                  h,
                  waiting_or_ready q,
                  rest_else q ne,
                  count-append q s.txn_results (p ∷ []),
                ))
                j;
        asking = λ q h j.
            let ne : q ≢ p = elsewhere once q (omega (arith, h)) in
            released.asked_else q j ne
            ∙ locked.asking q (omega (arith, h, waiting_or_ready q, rest_else q ne)) j;
        holding = λ q h. holding-finished q (elsewhere once q (omega (arith, h))) h;
      }

    finished-Computed :
        (q : ℕ) → q ≢ p → 0 < count q rest → Computed (s₀.heap q) (finished.heap q) (view st)
    finished-Computed q ne h =
        let here : 0 < count q s.completed_txns = omega (arith, h, rest_else q ne) in
        subst (λ o. Computed (s₀.heap q) o (view st)) (sym (heap_else q ne))
          (Computed-same (s₀.heap q) (s.heap q) (view inv.store) (view st)
            (good q here).fresh.runnable.1
            (λ j declared. unwritten j (
              keys-apart lm contract iso s₀ st₀ s inv p q (λ same. ne (sym same))
                (omega (arith, queued_here)) (omega (arith, here)) j declared))
            (inv.computed q here))

    finished-Decided : Decided finished.heap s₀.heap (inv.done ++ p ∷ []) (view st₀)
    unfolding push_result release_locks
    finished-Decided =
        Decided-append finished.heap s₀.heap inv.done p (view st₀)
          (Decided-update s.heap s₀.heap p ended inv.done (view st₀)
            (done-apart lm contract iso s₀ st₀ s inv p (omega (arith, queued_here))) inv.decided)
          (ap (λ b. (if b then ended else s.heap p).txn.status) (beq_refl p)
            ∙ ends.status_law
            ∙ ap (λ db. if commits object₀.program db then committed else aborted) inv.database)

    pub finished-Inv :
        ((q : ℕ) → places contract.waits finished q ≤ 1) → Inv lm contract iso s₀ st₀ finished
    unfolding push_result release_locks
    finished-Inv once = record {
      store = st;
      done = inv.done ++ p ∷ [];
      stored = refl;
      results = ap (λ rs. rs ++ p ∷ []) inv.results ∙ append_assoc s₀.txn_results inv.done (p ∷ []);
      database =
          ends.database_law
          ∙ ap (after object₀.program object₀.txn.writeset) inv.database
          ∙ sym (after_all-append s₀.heap inv.done p (view st₀));
      decided = finished-Decided;
      once = once;
      untouched = λ q h.
          let ne = no_result q (omega (arith, h)) in
          heap_else q ne
          ∙ inv.untouched q
              (omega (arith, h, rest_else q ne, count-append q s.txn_results (p ∷ [])));
      isolated =
          Isolated-step lm contract iso s₀ s finished (λ ex locked. finished-Locked ex locked once)
            inv.isolated;
      computed = λ q h. finished-Computed q (elsewhere once q (omega (arith, h))) h;
    }
