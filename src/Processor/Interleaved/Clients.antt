-- ===== src/Processor/Interleaved/Clients.antt =====
-- The calls of the clients, beside the other machine.
use cmcs624_fall.Common.{ℕ, ◌≡◌, refl, sym, ap, subst, ◌∙◌, arith, List, [], ◌∷◌, ◌++◌, ok}
use mathlib.Core.List.{append_assoc}
use cmcs624_fall.Processor.{get_txn_result}
use cmcs624_fall.Common.{some}
use cmcs624_fall.Processor.Locking.Requesting.{get_txn_result-took}
use cmcs624_fall.Processor.Locking.Invariant.{Inv}
use cmcs624_fall.LockManager.{LockManager}
use cmcs624_fall.Storage.{Storage}
use cmcs624_fall.Processor.{Processor, update, new_txn_request}
use cmcs624_fall.Processor.Locking.{
  Phase, admitting, completing, launching, admit_from, admit, request_locks, launch,
}
use cmcs624_fall.Processor.Locking
use cmcs624_fall.Processor.Locking.Contract.{Contract}
use cmcs624_fall.Processor.Locking.Isolation.{Isolation}
use cmcs624_fall.Processor.Locking.Known.{IsStart, IsHanded, nowhere}
use cmcs624_fall.Processor.Interleaved.{Machine, Point}
use cmcs624_fall.Processor.Interleaved.Simulation.{Ghost, abstract}
use cmcs624_fall.Processor.Locking.Requesting.{
  identified, SameButIds-update, new_txn_request-requested, requested-Inv,
}
use cmcs624_fall.Processor.Interleaved.Requesting.{new_txn_request-else, ghost, asked-Sim}
use cmcs624_fall.Processor.Interleaved.Scheduling.{phase_of}
use cmcs624_fall.Processor.Interleaved.Beside.{Beside, known_start}

module _ {L : Type 0} (lm : LockManager L) (contract : Contract L lm) (iso : Isolation lm)
    (s₀ : Processor L) (st₀ : Storage) (initial : IsStart contract iso s₀ st₀) (phase : Phase) where
  abbrev Goes : Point → Machine L → List ℕ → Type 0
  Goes = Beside lm contract iso s₀ st₀ phase

  pub requests-Beside :
      {point : Point} {m : Machine L} {ps : List ℕ} (s : Processor L) (p : ℕ)
      → new_txn_request m.processor p ≡ ok s
      → IsHanded contract s₀ (ps ++ p ∷ [])
      → Goes point m ps
      → Goes point (record m { processor = s }) (ps ++ p ∷ [])
  requests-Beside {point} {m} {ps} s p e all b =
      let absent =
        nowhere p b.coarse (subst (λ l. IsHanded contract s₀ (l ++ p ∷ [])) (sym b.same) all) in
      let g : Ghost = b.g in
      let known = b.known in
      subst (λ x. Goes point (record m { processor = x }) (ps ++ p ∷ []))
        (new_txn_request-requested m.processor s p e)
        (record {
          g = ghost known.heap point m g b.sim p (omega (arith, absent));
          known = record {
            heap = update known.heap p (identified (known.heap p) m.processor.next_unique_id);
            same = SameButIds-update s₀.heap known.heap p m.processor.next_unique_id known.same;
            inv =
                requested-Inv lm contract iso (known_start b) st₀ (abstract m g) known.inv p absent;
          };
          sim = asked-Sim known.heap point m g b.sim p (omega (arith, absent));
          coarse =
              Locking.requests p b.coarse
                (new_txn_request-else m.processor s (abstract m g) p refl e);
          same = ap (λ l. l ++ p ∷ []) b.same;
        })

  pub takes-Beside :
      {point : Point} {m : Machine L} {ps : List ℕ} (s : Processor L) (p : ℕ)
      → get_txn_result m.processor ≡ some (p, s)
      → Goes point m ps
      → Goes point (record m { processor = s; taken = m.taken ++ p ∷ [] }) ps
  takes-Beside {point} {m} {ps} s p e b =
      let (rest, popped, last) = get_txn_result-took m.processor s p e in
      let g : Ghost = b.g in
      let sim = b.sim in
      let m' : Machine L = record m {
        processor = record (m.processor) { txn_results = rest };
        taken = m.taken ++ p ∷ [];
      } in
      let same : abstract m g ≡ abstract m' g =
        ap (λ rs. record (abstract m g) { txn_results = rs })
          (ap (λ rs. m.taken ++ rs) popped ∙ sym (append_assoc m.taken (p ∷ []) rest)) in
      let (coarse, handed_same) =
        subst
          (λ x. (run : Locking.Run lm phase s₀ (phase_of point) x) × (Locking.handed lm run ≡ ps))
          same (b.coarse, b.same) in
      subst (λ x. Goes point (record m { processor = x; taken = m.taken ++ p ∷ [] }) ps) last
        (record {
          g = g;
          known = record {
            heap = b.known.heap;
            same = b.known.same;
            inv = subst (Inv lm contract iso (known_start b) st₀) same b.known.inv;
          };
          sim = record {
            tasks = sim.tasks;
            heaps = sim.heaps;
            jobs = sim.jobs;
            storing = sim.storing;
          };
          coarse = coarse;
          same = handed_same;
        })
