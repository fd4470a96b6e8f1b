-- ===== src/Processor/Interleaved/Beside.antt =====
-- The steps of the machine with single reads and writes, one by one, beside the other machine.
use cmcs624_fall.Common.{ℕ, ◌≡◌, refl, sym, subst, ◌∙◌, List, [], ◌∷◌, ◌++◌}
use cmcs624_fall.LockManager.{LockManager}
use cmcs624_fall.Storage.{Storage}
use cmcs624_fall.Processor.{Processor}
use cmcs624_fall.Processor.Locking.{
  Phase, admitting, completing, launching, admit_from, admit, request_locks, launch,
}
use cmcs624_fall.Processor.Locking
use cmcs624_fall.Processor.Locking.Contract.{Contract}
use cmcs624_fall.Processor.Locking.Isolation.{Isolation}
use cmcs624_fall.Processor.Locking.Known.{IsStart, IsHanded, Known, later-Inv}
use cmcs624_fall.Processor.Interleaved.{
  Machine, Point, at, SchedulerStep, ThreadStep, admits, starts_commit, writes, ends_commit, aborts,
  all_completed, launches, all_launched, begins, reads, ends, write_next, begin_txn, read_next,
}
use cmcs624_fall.Processor.Interleaved.Simulation.{Ghost, abstract, Sim}
use cmcs624_fall.Processor.Interleaved.Reading.{begins-Sim, reads-Sim}
use cmcs624_fall.Processor.Interleaved.Running.{ends-Sim}
use cmcs624_fall.Processor.Interleaved.Committing.{
  starts_commit-Sim, aborts-Sim, writes-Sim, ends_commit-Sim,
}
use cmcs624_fall.Processor.Interleaved.Scheduling.{phase_of, admit-abstract, admit-Sim, launch-Sim}

-- The other machine, which has come to the same place, and what is known of it.
pub record Beside {L : Type 0} (lm : LockManager L) (contract : Contract L lm) (iso : Isolation lm)
    (s₀ : Processor L) (st₀ : Storage) (phase : Phase) (point : Point) (m : Machine L) (ps : List ℕ)
    : Type 0 where
  pub g : Ghost
  pub known : Known lm contract iso s₀ st₀ (abstract m g)
  pub sim : Sim known.heap point m g
  pub coarse : Locking.Run lm phase s₀ (phase_of point) (abstract m g)
  pub same : Locking.handed lm coarse ≡ ps

-- The start, with the transactions as they were handed in.
abbrev pub known_start :
    {L : Type 0} {lm : LockManager L} {contract : Contract L lm} {iso : Isolation lm}
    {s₀ : Processor L} {st₀ : Storage} {phase : Phase} {point : Point} {m : Machine L} {ps : List ℕ}
    → Beside lm contract iso s₀ st₀ phase point m ps
    → Processor L
known_start {s₀ = s₀} b = record s₀ { heap = b.known.heap }

module _ {L : Type 0} (lm : LockManager L) (contract : Contract L lm) (iso : Isolation lm)
    (s₀ : Processor L) (st₀ : Storage) (initial : IsStart contract iso s₀ st₀) (phase : Phase) where
  abbrev Goes : Point → Machine L → List ℕ → Type 0
  Goes = Beside lm contract iso s₀ st₀ phase

  pub handed_in :
      {point : Point} {m : Machine L} {ps : List ℕ} (b : Goes point m ps)
      → IsHanded contract s₀ ps
      → IsHanded contract s₀ (Locking.handed lm b.coarse)
  handed_in b all = subst (IsHanded contract s₀) (sym b.same) all

  -- The other machine takes a step too.
  moves :
      {point : Point} {m : Machine L} {ps : List ℕ} (b : Goes point m ps)
      → IsHanded contract s₀ ps
      → (point' : Point) (m' : Machine L) (g' : Ghost)
      → Locking.Step lm (phase_of point) (abstract m b.g) (phase_of point') (abstract m' g')
      → Sim b.known.heap point' m' g'
      → Goes point' m' ps
  moves b all point' m' g' step sim = record {
    g = g';
    known = record {
      heap = b.known.heap;
      same = b.known.same;
      inv = later-Inv lm contract iso s₀ st₀ initial b.coarse step (handed_in b all) b.known;
    };
    sim = sim;
    coarse = Locking.later b.coarse step;
    same = b.same;
  }

  pub SchedulerStep-Beside :
      {point point' : Point} {m m' : Machine L} {ps : List ℕ}
      → SchedulerStep lm point m point' m'
      → IsHanded contract s₀ ps
      → Goes point m ps
      → Goes point' m' ps
  unfolding admit launch write_next
  SchedulerStep-Beside (admits {m}) all b =
      moves b all _ _ b.g
        (subst (Locking.Step lm admitting (abstract m b.g) completing)
          (admit-abstract lm contract iso (known_start b) st₀ m b.g b.known.inv b.sim
            m.processor.txn_requests refl)
          Locking.admits)
        (admit-Sim lm contract iso (known_start b) st₀ m b.g b.known.inv b.sim
          m.processor.txn_requests)
  SchedulerStep-Beside (starts_commit {m} p rest c e status) all b = record {
    g = b.g;
    known = b.known;
    sim =
        starts_commit-Sim lm contract iso (known_start b) st₀ m b.g b.known.inv b.sim p rest e c
          status;
    coarse = b.coarse;
    same = b.same;
  }
  SchedulerStep-Beside (writes {m} {p} {c} {i} {k} {v} {left}) all b = record {
    g = b.g;
    known = b.known;
    sim = writes-Sim lm contract iso (known_start b) st₀ m b.g b.known.inv p c i k v left b.sim;
    coarse = b.coarse;
    same = b.same;
  }
  SchedulerStep-Beside (ends_commit {m} {p} {c} {i}) all b =
      let (g', same, next) =
        ends_commit-Sim lm contract iso (known_start b) st₀ m b.g b.known.inv p c i b.sim in
      moves b all _ _ g'
        (Locking.completes p m.processor.completed_txns c b.sim.storing.popped same) next
  SchedulerStep-Beside (aborts {m} p rest e status) all b =
      let (g', same, next) =
        aborts-Sim lm contract iso (known_start b) st₀ m b.g b.known.inv b.sim p rest e status in
      moves b all _ _ g' (Locking.completes p rest _ (b.sim.storing.1 ∙ e) same) next
  SchedulerStep-Beside (all_completed {m} e) all b =
      moves b all (at launching) m b.g (Locking.all_completed (b.sim.storing.1 ∙ e)) (record {
        tasks = b.sim.tasks;
        heaps = b.sim.heaps;
        jobs = b.sim.jobs;
        storing = b.sim.storing;
      })
  SchedulerStep-Beside (launches {m} p rest e) all b =
      let g : Ghost = b.g in
      moves b all _ _ (record g { tasks = g.tasks ++ p ∷ [] }) (Locking.launches p rest e)
        (launch-Sim lm contract iso (known_start b) st₀ m b.g b.sim p rest)
  SchedulerStep-Beside (all_launched {m} e) all b =
      moves b all (at admitting) m b.g (Locking.all_launched e) (record {
        tasks = b.sim.tasks;
        heaps = b.sim.heaps;
        jobs = b.sim.jobs;
        storing = b.sim.storing;
      })

  pub ThreadStep-Beside :
      {point : Point} {p : ℕ} {m m' : Machine L} {ps : List ℕ}
      → ThreadStep p m m'
      → IsHanded contract s₀ ps
      → Goes point m ps
      → Goes point m' ps
  unfolding begin_txn read_next
  ThreadStep-Beside (begins {m} p before after c e) all b = record {
    g = b.g;
    known = b.known;
    sim =
        begins-Sim lm contract iso (known_start b) st₀ m b.g b.known.inv _ b.sim p before after c e;
    coarse = b.coarse;
    same = b.same;
  }
  ThreadStep-Beside (reads {m} before job after k ks e ek) all b = record {
    g = b.g;
    known = b.known;
    sim =
        reads-Sim lm contract iso (known_start b) st₀ m b.g b.known.inv _ b.sim before job after e k
          ks ek;
    coarse = b.coarse;
    same = b.same;
  }
  ThreadStep-Beside (ends {m} {m'} before job after e ek done) all b =
      let (tb, ta, g', et, same, next) =
        ends-Sim lm contract iso (known_start b) st₀ m b.g b.known.inv _ b.sim before job after e ek
          m' done in
      moves b all _ m' g' (Locking.executes job.txn tb ta job.chance et same) next
