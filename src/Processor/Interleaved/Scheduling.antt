-- ===== src/Processor/Interleaved/Scheduling.antt =====
-- The scheduler takes and launches transactions, beside the other machine.
use cmcs624_fall.Common.{
  ℕ, ◌≡◌, refl, sym, ap, arith, List, [], ◌∷◌, ◌++◌, if◌then◌else◌, count, count-append, All-map,
}
use cmcs624_fall.LockManager.{LockManager}
use cmcs624_fall.Txn.Programs.{Object}
use cmcs624_fall.Storage.{Storage}
use cmcs624_fall.Processor.{Processor}
use cmcs624_fall.Processor.Locking.{
  Phase, admitting, completing, launching, admit_from, admit, request_locks, launch,
}
use cmcs624_fall.Processor.Locking
use cmcs624_fall.Processor.Locking.Requesting.{SameButIds}
use cmcs624_fall.Processor.Locking.Places.{beq-count}
use cmcs624_fall.Processor.Locking.Contract.{Contract}
use cmcs624_fall.Processor.Locking.Isolation.{Isolation}
use cmcs624_fall.Processor.Locking.Invariant.{Inv}
use cmcs624_fall.Processor.Interleaved.{Machine, Point, at, applying}
use cmcs624_fall.Processor.Interleaved.Simulation.{Ghost, abstract, job_txns, IsJob, Sim}

abbrev pub phase_of : Point → Phase
phase_of (at phase) = phase
phase_of (applying p c i left) = completing

-- A run of the machine of `Processor/Locking` that has come to the same place, with the same
-- transactions handed in. `heap` has these as they were handed in.
abbrev pub Follows :
    {L : Type 0} → LockManager L → Phase → Processor L → Point → Machine L → List ℕ → Type 0
Follows lm phase s₀ point m ps =
    (g : Ghost) × (heap : ℕ → Object) × SameButIds s₀.heap heap
    × Sim heap point m g
    × (run : Locking.Run lm phase s₀ (phase_of point) (abstract m g)) × (Locking.handed lm run ≡ ps)

module _ {L : Type 0} (lm : LockManager L) (contract : Contract L lm) (iso : Isolation lm)
    (s₀ : Processor L) (st₀ : Storage) where
  module _ (m : Machine L) (g : Ghost) (inv : Inv lm contract iso s₀ st₀ (abstract m g))
      (sim : Sim s₀.heap (at admitting) m g) where
    -- The keys of the request at the head are the same for both.
    pub admit-abstract :
        (requests : List ℕ)
        → m.processor.txn_requests ≡ requests
        → admit_from lm (abstract m g) requests
          ≡ abstract (record m { processor = admit_from lm m.processor requests }) g
    unfolding admit_from
    admit-abstract [] e = refl
    admit-abstract (p ∷ rest) e =
        let quiet : count p (job_txns m.jobs) ≡ 0 =
          omega (arith, inv.once p, sim.tasks p, ap (count p) e, sym (beq-count p)) in
        ap
          (λ (o : Object).
            let (locks, blocked) =
              request_locks lm m.processor.locks p o.txn.readset o.txn.writeset in
            record (abstract m g) {
              txn_requests = rest;
              locks = locks;
              ready_txns =
                  if blocked then m.processor.ready_txns else m.processor.ready_txns ++ p ∷ [];
            })
          (sym (sim.heaps p quiet))

    pub admit-Sim :
        (requests : List ℕ)
        → Sim s₀.heap
            (at completing)
            (record m { processor = admit_from lm m.processor requests })
            g
    unfolding admit_from
    admit-Sim [] = record {
      tasks = sim.tasks;
      heaps = sim.heaps;
      jobs = sim.jobs;
      storing = sim.storing;
    }
    admit-Sim (p ∷ rest) = record {
      tasks = sim.tasks;
      heaps = sim.heaps;
      jobs = sim.jobs;
      storing = sim.storing;
    }

  pub launch-Sim :
      (m : Machine L) (g : Ghost)
      → Sim s₀.heap (at launching) m g
      → (p : ℕ) (rest : List ℕ)
      → Sim s₀.heap
          (at launching)
          (record m { processor = launch lm m.processor p rest })
          (record g { tasks = g.tasks ++ p ∷ [] })
  unfolding launch
  launch-Sim m g sim p rest = record {
    tasks = λ q. omega (
      arith,
      sim.tasks q,
      count-append q g.tasks (p ∷ []),
      count-append q m.processor.tasks (p ∷ []),
    );
    heaps = sim.heaps;
    jobs =
        All-map (IsJob g m.processor.heap)
          (IsJob (record g { tasks = g.tasks ++ p ∷ [] }) m.processor.heap)
          (λ job is. record { done = is.done; covers = is.covers; object = is.object }) m.jobs
          sim.jobs;
    storing = sim.storing;
  }
