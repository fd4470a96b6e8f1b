-- ===== src/Processor/Locking/Known.antt =====
-- The locking scheduler from its start: what holds of the processor after any run, and of what clients
-- have handed in.
use cmcs624_fall.Common.{
  ℕ, ◌+◌, ◌≤◌, ◌<◌, ◌≡◌, refl, sym, ap, subst, arith, List, [], ◌∷◌, ◌++◌, count, count-append,
  beq_refl,
}
use mathlib.Core.List.{append-nil}
use cmcs624_fall.LockManager.{LockManager}
use cmcs624_fall.Storage.{Storage}
use cmcs624_fall.Txn.Programs.{Object}
use cmcs624_fall.Processor.{Processor, single, update}
use cmcs624_fall.Processor.Locking.Requesting.{
  identified, SameButIds, SameButIds-refl, SameButIds-update, SameButIds-requestable,
  new_txn_request-requested, requested-Inv,
}
use native.Mathlib.Decide.{dec_lt}
use cmcs624_fall.Processor.Locking.{
  Phase, Step, admits, completes, all_completed, launches, all_launched, executes, Run, start,
  later, requests, handed,
}
use cmcs624_fall.Processor.Locking.Contract.{Contract}
use cmcs624_fall.Processor.Locking.Places.{places, as_number, beq-count}
use cmcs624_fall.Processor.Locking.Conservation.{Run-places}
use cmcs624_fall.Processor.Locking.Isolation.{
  Isolation, by_locks, by_keys, Unlocked, IsolatedAtStart, Locked, Isolated,
}
use cmcs624_fall.Processor.Locking.Exclusion.{Exclusion}
use cmcs624_fall.Processor.Locking.Invariant.{IsRequestable, Inv, launch-Inv}
use cmcs624_fall.Processor.Locking.Admitting.{admit-Inv}
use cmcs624_fall.Processor.Locking.Executing.{execute-Inv}
use cmcs624_fall.Processor.Locking.Completing.{complete-Inv}

-- The processor as the scheduler finds it: requests are queued, each transaction once, and nothing
-- else has happened.
pub record IsStart {L : Type 0} {lm : LockManager L} (contract : Contract L lm) (iso : Isolation lm)
    (s : Processor L) (st : Storage) : Type 0 where
  pub stored : s.storage ≡ single st
  pub isolated : IsolatedAtStart iso s
  pub once : (p : ℕ) → places contract.waits s p ≤ 1
  pub nobody_waits : (p : ℕ) → contract.waits s.locks p ≡ 0
  pub idle : (s.ready_txns ≡ []) × (s.tasks ≡ []) × (s.completed_txns ≡ [])
  pub requests : (p : ℕ) → 0 < count p s.txn_requests → IsRequestable (s.heap p)

module _ {L : Type 0} (lm : LockManager L) (contract : Contract L lm) (iso : Isolation lm)
    (s₀ : Processor L) (st₀ : Storage) (initial : IsStart contract iso s₀ st₀) where
  pub start-Inv : Inv lm contract iso s₀ st₀ s₀
  start-Inv = record {
    store = st₀;
    done = [];
    stored = initial.stored;
    results = sym (append-nil s₀.txn_results);
    database = refl;
    decided = tt;
    once = initial.once;
    untouched = λ q h. refl;
    isolated = isolated_start iso initial.isolated;
    computed = λ q h. absurd (nowhere q (omega (arith, h)));
  }
    where
      nowhere :
          (q : ℕ)
          → 0
            < contract.waits s₀.locks q
              + (count q s₀.ready_txns + count q s₀.tasks)
              + count q s₀.completed_txns
          → ⊥
      nowhere q h = omega (
        arith,
        h,
        initial.nobody_waits q,
        ap (count q) initial.idle.0,
        ap (count q) initial.idle.1,
        ap (count q) initial.idle.2,
      )

      start-Locked : (ex : Exclusion L lm) → Unlocked ex s₀.locks → Locked lm contract ex s₀ s₀
      start-Locked ex none = record {
        valid = none.valid;
        unasked = λ q h j. none.unasked q j;
        asking = λ q h. absurd (nowhere q h);
        holding = λ q h. absurd (nowhere q (omega (arith, h)));
      }

      isolated_start : (i : Isolation lm) → IsolatedAtStart i s₀ → Isolated lm contract i s₀ s₀
      isolated_start (by_locks ex) none = start-Locked ex none
      isolated_start by_keys apart = apart

module _ {L : Type 0} (lm : LockManager L) (contract : Contract L lm) (iso : Isolation lm)
    (s₀ : Processor L) (st₀ : Storage) where
  Step-Inv :
      {phase phase' : Phase} {s s' : Processor L}
      → Step lm phase s phase' s'
      → ((q : ℕ)
          → 0 < count q s.txn_requests + count q s.tasks + count q s.completed_txns
          → IsRequestable (s₀.heap q))
      → ((q : ℕ) → places contract.waits s' q ≤ 1)
      → Inv lm contract iso s₀ st₀ s
      → Inv lm contract iso s₀ st₀ s'
  Step-Inv (admits {s}) good once inv =
      admit-Inv lm contract iso s₀ st₀ s inv (λ q h. good q (omega (arith, h))) once
  Step-Inv (completes {s} {s'} p rest c e run) good once inv =
      complete-Inv lm contract iso s₀ st₀ s inv p rest e (λ q h. good q (omega (arith, h))) c s' run
        once
  Step-Inv (all_completed e) good once inv = inv
  Step-Inv (launches {s} p rest e) good once inv =
      launch-Inv lm contract iso s₀ st₀ s inv p rest e once
  Step-Inv (all_launched e) good once inv = inv
  Step-Inv (executes {s} {s'} p before after c e run) good once inv =
      execute-Inv lm contract iso s₀ st₀ s inv p before after c e
        (good p (
          omega
            (arith, ap (count p) e, count-append p before (p ∷ after), ap as_number (beq_refl p))))
        s' run once

-- What clients hand in during a run from `s`: each transaction once, as `NewTxnRequest` wants it.
pub record IsHanded {L : Type 0} {lm : LockManager L} (contract : Contract L lm) (s : Processor L)
    (ps : List ℕ) : Type 0 where
  pub once : (p : ℕ) → places contract.waits s p + count p ps ≤ 1
  pub requestable : (p : ℕ) → 0 < count p ps → IsRequestable (s.heap p)

pub IsHanded-before :
    {L : Type 0} {lm : LockManager L} (contract : Contract L lm) (s : Processor L) (ps : List ℕ)
    (p : ℕ)
    → IsHanded contract s (ps ++ p ∷ [])
    → IsHanded contract s ps
IsHanded-before contract s ps p all = record {
  once = λ q. omega (arith, all.once q, count-append q ps (p ∷ []));
  requestable = λ q h. all.requestable q (omega (arith, h, count-append q ps (p ∷ [])));
}

-- What is handed in is nowhere in the processor yet.
pub nowhere :
    {L : Type 0} {lm : LockManager L} {contract : Contract L lm} {s₀ : Processor L}
    {phase phase' : Phase} {s : Processor L} (p : ℕ) (run : Run lm phase s₀ phase' s)
    → IsHanded contract s₀ (handed lm run ++ p ∷ [])
    → places contract.waits s p ≡ 0
nowhere {lm = lm} {contract = contract} {s₀ = s₀} p run all = omega (
  arith,
  all.once p,
  Run-places lm contract run (IsHanded-before contract s₀ (handed lm run) p all).once p,
  count-append p (handed lm run) (p ∷ []),
  sym (beq-count p),
)

module _ {L : Type 0} (lm : LockManager L) (contract : Contract L lm) (iso : Isolation lm)
    (s₀ : Processor L) (st₀ : Storage) where
  -- The transactions as they were handed in, and what holds of the processor with these in place of
  -- those at the start.
  pub record Known (s : Processor L) : Type 0 where
    pub heap : ℕ → Object
    pub same : SameButIds s₀.heap heap
    pub inv : Inv lm contract iso (record s₀ { heap = heap }) st₀ s

  module _ (initial : IsStart contract iso s₀ st₀) where
    -- A transaction on its way was queued at the start, or has been handed in.
    pub requestable :
        (s : Processor L) (ps : List ℕ)
        → IsHanded contract s₀ ps
        → ((q : ℕ) → places contract.waits s q ≡ places contract.waits s₀ q + count q ps)
        → (known : Known s) → (q : ℕ)
        → 0 < count q s.txn_requests + count q s.tasks + count q s.completed_txns
        → IsRequestable (known.heap q)
    requestable s ps all same known q h =
        SameButIds-requestable s₀.heap known.heap known.same q
          (elim (dec_lt 0 (count q s₀.txn_requests)) [
            | yes queued ↦ initial.requests q queued
            | no unqueued ↦ all.requestable q (
                omega (
                  arith,
                  h,
                  same q,
                  unqueued,
                  known.inv.once q,
                  initial.nobody_waits q,
                  ap (count q) initial.idle.0,
                  ap (count q) initial.idle.1,
                  ap (count q) initial.idle.2,
                  ap (count q) known.inv.results,
                  count-append q s₀.txn_results known.inv.done,
                ))
          ])

    pub later-Inv :
        {phase mid phase' : Phase} {s s' : Processor L} (run : Run lm phase s₀ mid s)
        → Step lm mid s phase' s'
        → IsHanded contract s₀ (handed lm run)
        → (known : Known s) → Inv lm contract iso (record s₀ { heap = known.heap }) st₀ s'
    later-Inv {s = s} run step all known =
        let after = Run-places lm contract (later run step) all.once in
        Step-Inv lm contract iso (record s₀ { heap = known.heap }) st₀ step
          (requestable s (handed lm run) all (Run-places lm contract run all.once) known)
          (λ q. omega (arith, after q, all.once q)) known.inv

    pub Run-Known :
        {phase phase' : Phase} {s : Processor L} (run : Run lm phase s₀ phase' s)
        → IsHanded contract s₀ (handed lm run)
        → Known s
    Run-Known start all = record {
      heap = s₀.heap;
      same = SameButIds-refl s₀.heap;
      inv = start-Inv lm contract iso s₀ st₀ initial;
    }
    Run-Known (later run step) all =
        let known = Run-Known run all in
        record { heap = known.heap; same = known.same; inv = later-Inv run step all known }
    Run-Known (requests {s' = s} {s'' = s'} p run e) all =
        let known = Run-Known run (IsHanded-before contract s₀ (handed lm run) p all) in
        record {
          heap = update known.heap p (identified (known.heap p) s.next_unique_id);
          same = SameButIds-update s₀.heap known.heap p s.next_unique_id known.same;
          inv =
              subst
                (Inv lm contract iso
                  (record s₀ {
                    heap = update known.heap p (identified (known.heap p) s.next_unique_id);
                  })
                  st₀)
                (new_txn_request-requested s s' p e)
                (requested-Inv lm contract iso (record s₀ { heap = known.heap }) st₀ s known.inv p
                  (nowhere p run all));
        }
