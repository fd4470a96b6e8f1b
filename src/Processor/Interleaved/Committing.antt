-- ===== src/Processor/Interleaved/Committing.antt =====
-- The writes of a transaction one by one, beside a machine that commits in one step.
use cmcs624_fall.Common.{
  ℕ, suc, ◌<◌, ◌≡◌, ◌≢◌, refl, sym, ap, subst, ◌∙◌, arith, true, false, List, [], ◌∷◌,
  if◌then◌else◌, ◌||◌, none, beq_refl, beq_of_ne, count, ok, ◌>>=◌, some,
}
use cmcs624_fall.Common.KeySet
use cmcs624_fall.Common.Map
use cmcs624_fall.Common.Map.{Map}
use cmcs624_fall.LockManager.{LockManager}
use cmcs624_fall.Txn.Programs.{Object}
use cmcs624_fall.Storage.{Storage, write}
use cmcs624_fall.Processor.{
  Processor, Chance, apply_loop, push_result, set_status, store_write, apply_writes,
}
use cmcs624_fall.Processor.Locking.Places.{beq-count}
use cmcs624_fall.Processor.Locking.Contract.{Contract}
use cmcs624_fall.Processor.Locking.Isolation.{Isolation}
use cmcs624_fall.Processor.Locking.Invariant.{Inv, keys-apart}
use cmcs624_fall.Processor.Interleaved.{Machine, Point, at, applying, settle, write_next}
use cmcs624_fall.Processor.Interleaved.Simulation.{Ghost, abstract, job_txns, Sim}
use cmcs624_fall.Txn.{completed_c, committed, completed_a}
use cmcs624_fall.Processor.Locking.{completing, release_locks, complete}
use mathlib.Core.Option.{some-ne-none}
use cmcs624_fall.Processor.Serial.{finish_commit, finish_abort}
use cmcs624_fall.Processor.Interleaved.Settling.{ghost, settled-abstract, settled-Sim}

another : (j k v : ℕ) (left : Map ℕ) → j ≡ k → Map.lookup j ((k, v) ∷ left) ≡ none → ⊥
another j k v left same absent = some-ne-none v (
    sym (
      ap (λ i. Map.lookup i ((k, v) ∷ left)) same
      ∙ ap (λ b. if b then some v else Map.lookup k left) (beq_refl k))
    ∙ absent)

abbrev pub no_chance : Chance
no_chance = record { start = 0; write_time = λ _. 0; junk = 0 }

module _ {L : Type 0} (lm : LockManager L) (contract : Contract L lm) (iso : Isolation lm)
    (s₀ : Processor L) (st₀ : Storage) (m : Machine L) (g : Ghost)
    (inv : Inv lm contract iso s₀ st₀ (abstract m g)) (point : Point)
    (sim : Sim s₀.heap point m g) where
  -- A completed transaction is no job.
  no_job : (p : ℕ) → 0 < count p g.completed → count p (job_txns m.jobs) ≡ 0
  no_job p h = omega (arith, h, inv.once p, sim.tasks p)

  pub completed_object : (p : ℕ) → 0 < count p g.completed → m.processor.heap p ≡ g.heap p
  completed_object p h = sim.heaps p (no_job p h)

module _ {L : Type 0} (lm : LockManager L) (contract : Contract L lm) (iso : Isolation lm)
    (s₀ : Processor L) (st₀ : Storage) (m : Machine L) (g : Ghost)
    (inv : Inv lm contract iso s₀ st₀ (abstract m g)) (sim : Sim s₀.heap (at completing) m g)
    (p : ℕ) (rest : List ℕ) (e : m.processor.completed_txns ≡ p ∷ rest) where
  here : 0 < count p g.completed
  here = omega (arith, ap (count p) (sim.storing.1 ∙ e), sym (beq-count p))

  object : m.processor.heap p ≡ g.heap p
  object = completed_object lm contract iso s₀ st₀ m g inv (at completing) sim p here

  pub starts_commit-Sim :
      (c : Chance)
      → (m.processor.heap p).txn.status ≡ completed_c
      → Sim s₀.heap
          (applying p c 0 (m.processor.heap p).txn.writes)
          (record m { processor = record (m.processor) { completed_txns = rest } })
          g
  starts_commit-Sim c status = record {
    tasks = sim.tasks;
    heaps = sim.heaps;
    jobs = sim.jobs;
    storing = record {
      popped = sim.storing.1 ∙ e;
      status = ap (λ (o : Object). o.txn.status) (sym object) ∙ status;
      written = g.store;
      stored = sim.storing.0;
      rest =
          ap (λ st. apply_loop st c.write_time (g.heap p).txn.unique_id 0 (g.heap p).txn.writes)
            (sym sim.storing.0)
          ∙ ap
              (λ (o : Object).
                apply_loop m.processor.storage c.write_time (g.heap p).txn.unique_id 0 o.txn.writes)
              (sym object);
      outside = λ j out. (
        refl,
        ap (λ (o : Object). Map.lookup j o.txn.writes) object ∙ (inv.computed p here).outside j out,
      );
    };
  }

  pub aborts-Sim :
      (m.processor.heap p).txn.status ≡ completed_a
      → (g' : Ghost) × (complete lm (abstract m g) p rest no_chance
          ≡ ok (
              abstract
                (record m {
                  processor = settle lm (record (m.processor) { completed_txns = rest }) p false;
                })
                g'))
        × Sim s₀.heap
            (at completing)
            (record m {
              processor = settle lm (record (m.processor) { completed_txns = rest }) p false;
            })
            g'
  unfolding complete settle
  aborts-Sim status =
      let quiet = no_job lm contract iso s₀ st₀ m g inv (at completing) sim p here in
      (
        ghost lm s₀.heap m g (at completing) sim p false rest g.store sim.storing.0 quiet,
        ap (λ o. o >>= λ f. ok (push_result (release_locks lm f p) p))
              (finish_abort (record (abstract m g) { completed_txns = rest }) p no_chance
                (ap (λ (o : Object). o.txn.status) (sym object) ∙ status))
            ∙ ap ok (
                settled-abstract lm s₀.heap m g (at completing) sim p false rest g.store
                  sim.storing.0 quiet),
        settled-Sim lm s₀.heap m g (at completing) sim p false rest g.store sim.storing.0 quiet
            (λ q h k declared. refl),
      )

module _ {L : Type 0} (lm : LockManager L) (contract : Contract L lm) (iso : Isolation lm)
    (s₀ : Processor L) (st₀ : Storage) (m : Machine L) (g : Ghost)
    (inv : Inv lm contract iso s₀ st₀ (abstract m g)) (p : ℕ) (c : Chance) (i : ℕ) where
  module _ (k v : ℕ) (left : Map ℕ) (sim : Sim s₀.heap (applying p c i ((k, v) ∷ left)) m g) where
    pub writes-Sim : Sim s₀.heap (applying p c (suc i) left) (write_next m p c i k v) g
    unfolding write_next store_write write apply_loop
    writes-Sim =
        let a = sim.storing in
        let object =
          completed_object lm contract iso s₀ st₀ m g inv _ sim p
            (omega (arith, ap (count p) a.popped, sym (beq-count p))) in
        record {
          tasks = sim.tasks;
          heaps = sim.heaps;
          jobs = sim.jobs;
          storing = record {
            popped = a.popped;
            status = a.status;
            written = write a.written k v (c.write_time i);
            stored =
                ap (λ st. store_write st k v (m.processor.heap p).txn.unique_id (c.write_time i))
                  a.stored;
            rest =
                a.rest
                ∙ ap
                    (λ (o : Object).
                      apply_loop
                        (store_write m.processor.storage k v o.txn.unique_id (c.write_time i))
                        c.write_time (g.heap p).txn.unique_id (suc i) left)
                    (sym object);
            outside = λ j out.
                let absent = (a.outside j out).1 in
                let ne : j ≢ k = λ same. another j k v left same absent in
                (
                  Map.lookup-insert j k v a.written.records
                      ∙ ap (λ b. if b then some v else Map.lookup j a.written.records)
                          (beq_of_ne j k ne)
                      ∙ (a.outside j out).0,
                  sym (ap (λ b. if b then some v else Map.lookup j left) (beq_of_ne j k ne))
                      ∙ absent,
                );
          };
        }

  module _ (sim : Sim s₀.heap (applying p c i []) m g) where
    pub ends_commit-Sim :
        (g' : Ghost) × (complete lm (abstract m g) p m.processor.completed_txns c
          ≡ ok (abstract (record m { processor = settle lm m.processor p true }) g'))
        × Sim s₀.heap (at completing) (record m { processor = settle lm m.processor p true }) g'
    unfolding complete settle apply_writes apply_loop
    ends_commit-Sim =
        let a = sim.storing in
        let done : 0 < count p g.completed =
          omega (arith, ap (count p) a.popped, sym (beq-count p)) in
        let quiet = no_job lm contract iso s₀ st₀ m g inv _ sim p done in
        let completed = m.processor.completed_txns in
        let popped : Processor L = record (abstract m g) { completed_txns = completed } in
        (
          ghost lm s₀.heap m g _ sim p true completed a.written a.stored quiet,
          ap (λ o. o >>= λ f. ok (push_result (release_locks lm f p) p))
                (finish_commit popped p c a.status)
              ∙ ap
                  (λ st. ok (
                    push_result
                      (release_locks lm (set_status (record popped { storage = st }) p committed) p)
                      p))
                  (a.rest ∙ a.stored)
              ∙ ap ok
                  (settled-abstract lm s₀.heap m g _ sim p true completed a.written a.stored quiet),
          settled-Sim lm s₀.heap m g _ sim p true completed a.written a.stored quiet
              (λ q h k declared.
                let runs : 0 < count q g.tasks = omega (arith, h, sim.tasks q) in
                let ne : p ≢ q = λ same.
                  omega (arith, inv.once q, runs, ap (λ x. count x g.completed) same, done) in
                sym
                  (a.outside k (
                    keys-apart lm contract iso s₀ st₀ (abstract m g) inv p q ne
                      (omega (arith, done)) (omega (arith, runs)) k
                      (subst
                        (λ (o : Object).
                          (KeySet.contains k o.txn.readset || KeySet.contains k o.txn.writeset)
                          ≡ true)
                        (inv.untouched q (omega (arith, runs, inv.once q))) declared))).0),
        )
