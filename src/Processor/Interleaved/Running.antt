-- ===== src/Processor/Interleaved/Running.antt =====
-- The end of `ExecuteTxn`, beside a machine that runs the whole of it in one step.
use native.Mathlib.Decide.{ℕ_discrete}
use cmcs624_fall.Common.{
  ℕ, ◌≡◌, ◌≢◌, refl, sym, ap, subst, ◌∙◌, arith, List, [], ◌∷◌, ◌++◌, inl, inr, count, count-append,
  count-split, All, All-append, ok, ◌>>=◌, Outcome-cases,
}
use cmcs624_fall.LockManager.{LockManager}
use cmcs624_fall.Txn.Programs.{Object, run}
use cmcs624_fall.Storage.{Storage}
use cmcs624_fall.Processor.{
  Processor, single, update, read_keys, apply_loop, read_phase, execute_txn,
}
use cmcs624_fall.Processor.Locking.Places.{miss, beq-count}
use cmcs624_fall.Processor.Locking.Contract.{Contract}
use cmcs624_fall.Processor.Locking.Isolation.{Isolation}
use cmcs624_fall.Processor.Locking.Invariant.{Inv}
use cmcs624_fall.Processor.Interleaved.{Job, Machine, Point, at, applying, end_txn}
use cmcs624_fall.Processor.Locking.Requesting.{died≢ok}
use cmcs624_fall.Processor.Interleaved.Simulation.{
  Ghost, abstract, job_txns, IsJob, Storing, Sim, job_txns-append, update-here, update-else,
  IsJob-update,
}
use mathlib.Core.List.{append-nil}
use cmcs624_fall.Txn.{Txn}
use cmcs624_fall.Processor.Locking.Executing.{ok-same}
use cmcs624_fall.Processor.Interleaved.Agreement.{read_keys-append}
use cmcs624_fall.Processor.Interleaved.Reading.{job_here, active, alone, three_parts}

module _ {L : Type 0} (lm : LockManager L) (contract : Contract L lm) (iso : Isolation lm)
    (s₀ : Processor L) (st₀ : Storage) (m : Machine L) (g : Ghost)
    (inv : Inv lm contract iso s₀ st₀ (abstract m g)) (point : Point) (sim : Sim s₀.heap point m g)
    (before : List Job) (job : Job) (after : List Job) (e : m.jobs ≡ before ++ job ∷ after)
    (ek : job.keys ≡ []) where
  abbrev p : ℕ
  p = job.txn

  running :
      (count p (job_txns before) ≡ 0)
      × (count p (job_txns after) ≡ 0)
      × (count p m.processor.tasks ≡ 0)
  running = alone lm contract iso s₀ st₀ m g inv point sim before job after e

  parts :
      All (IsJob g m.processor.heap) before
      × IsJob g m.processor.heap job
      × All (IsJob g m.processor.heap) after
  parts = three_parts lm contract iso s₀ st₀ m g inv point sim before job after e

  abbrev pub read_all : Object
  read_all = record (g.heap p) { txn = read_phase (single g.store) job.chance (g.heap p).txn }

  pub object_read : m.processor.heap p ≡ read_all
  unfolding read_phase
  object_read =
      let t = (g.heap p).txn in
      let all : parts.1.done ≡ t.readset ++ t.writeset =
        sym (append-nil parts.1.done) ∙ ap (λ l. parts.1.done ++ l) (sym ek) ∙ parts.1.covers in
      parts.1.object
      ∙ ap
          (λ rs. record (g.heap p) {
            txn = record t { occ_start_time = job.chance.start; reads = rs };
          })
          (ap (λ ks. read_keys (single g.store) job.chance.junk ks t.reads) all
            ∙ read_keys-append (single g.store) job.chance.junk t.readset t.writeset t.reads)

  module _ (t : Txn) (tb ta : List ℕ) (et : g.tasks ≡ tb ++ p ∷ ta) where
    abbrev ended : Machine L
    ended = record m {
      processor = record (m.processor) {
        heap = update m.processor.heap p (record (m.processor.heap p) { txn = t });
        completed_txns = m.processor.completed_txns ++ p ∷ [];
      };
      jobs = before ++ after;
    }

    abbrev ghost : Ghost
    ghost = record {
      heap = update g.heap p (record (g.heap p) { txn = t });
      tasks = tb ++ ta;
      completed = g.completed ++ p ∷ [];
      store = g.store;
    }

    Storing-ended :
        (point : Point)
        → Storing s₀.heap point m.processor.storage m.processor.completed_txns g
        → Storing s₀.heap point m.processor.storage (m.processor.completed_txns ++ p ∷ []) ghost
    Storing-ended (at phase) s = (s.0, ap (λ ps. ps ++ p ∷ []) s.1)
    Storing-ended (applying q c i left) s =
        let ne : q ≢ p = λ same. omega (
          arith,
          inv.once q,
          active lm contract iso s₀ st₀ m g inv point sim before job after e,
          ap (λ x. count x g.tasks) same,
          ap (count q) s.popped,
          sym (beq-count q),
        ) in
        let same : g.heap q ≡ ghost.heap q =
          sym (update-else g.heap p q (record (g.heap p) { txn = t }) ne) in
        record {
          popped = ap (λ ps. ps ++ p ∷ []) s.popped;
          status = ap (λ (o : Object). o.txn.status) (sym same) ∙ s.status;
          written = s.written;
          stored = s.stored;
          rest =
              subst
                (λ (o : Object).
                  apply_loop (single g.store) c.write_time o.txn.unique_id 0 o.txn.writes
                  ≡ apply_loop m.processor.storage c.write_time o.txn.unique_id i left)
                same s.rest;
          outside = s.outside;
        }

    ended-Sim : Sim s₀.heap point ended ghost
    ended-Sim =
        let o : Object = record (m.processor.heap p) { txn = t } in
        let o' : Object = record (g.heap p) { txn = t } in
        let here = job_here lm contract iso s₀ st₀ m g inv point sim before job after e in
        record {
          tasks = λ q. omega (
            arith,
            sim.tasks q,
            here q,
            job_txns-append before after q,
            ap (count q) et,
            count-append q tb (p ∷ ta),
            count-append q tb ta,
          );
          heaps = λ q h. elim (ℕ_discrete q p) [
            | yes same ↦
                ap (update m.processor.heap p o) same
                ∙ update-here m.processor.heap p o
                ∙ ap (λ (x : Object). record x { txn = t }) object_read
                ∙ sym (ap (update g.heap p o') same ∙ update-here g.heap p o')
            | no ne ↦
                update-else m.processor.heap p q o ne
                ∙ sim.heaps q
                    (omega (arith, h, here q, job_txns-append before after q, miss q p ne))
                ∙ sym (update-else g.heap p q o' ne)
          ];
          jobs =
              All-append (IsJob ghost (update m.processor.heap p o)) before after
                (IsJob-update g ghost m.processor.heap p o before
                  (λ q ne. update-else g.heap p q o' ne) refl running.0 parts.0)
                (IsJob-update g ghost m.processor.heap p o after
                  (λ q ne. update-else g.heap p q o' ne) refl running.1 parts.2);
          storing = Storing-ended point sim.storing;
        }

    module _
        (ran : run (m.processor.heap p).program (m.processor.heap p).txn job.chance.junk
          ≡ ok t) where
      end_txn-ended : end_txn m job (before ++ after) ≡ ok ended
      unfolding end_txn
      end_txn-ended = rw ran refl

      execute-ended :
          execute_txn (record (abstract m g) { tasks = tb ++ ta }) p job.chance
          ≡ ok (abstract ended ghost)
      unfolding execute_txn
      execute-ended =
          ap
            (λ r. r >>= λ x. ok (record (abstract m g) {
              tasks = tb ++ ta;
              heap = update g.heap p (record (g.heap p) { txn = x });
              completed_txns = g.completed ++ p ∷ [];
            }))
            (sym (ap (λ (o : Object). run o.program o.txn job.chance.junk) object_read) ∙ ran)

  -- The whole of `ExecuteTxn` for the other machine.
  pub ends-Sim :
      (m' : Machine L)
      → end_txn m job (before ++ after) ≡ ok m'
      → (tb : List ℕ) × (ta : List ℕ) × (g' : Ghost) × (g.tasks ≡ tb ++ p ∷ ta)
        × (execute_txn (record (abstract m g) { tasks = tb ++ ta }) p job.chance
            ≡ ok (abstract m' g'))
        × Sim s₀.heap point m' g'
  unfolding end_txn
  ends-Sim m' done =
      let (tb, ta, et) =
        count-split p g.tasks
          (active lm contract iso s₀ st₀ m g inv point sim before job after e) in
      elim (Outcome-cases
        (run (m.processor.heap p).program (m.processor.heap p).txn job.chance.junk)) [
          | inl dies ↦ absurd (died≢ok (sym (rw dies refl) ∙ done))
          | inr (t, ran) ↦
              let same : ended t tb ta et ≡ m' =
                ok-same (sym (end_txn-ended t tb ta et ran) ∙ done) in
              (
                tb,
                ta,
                ghost t tb ta et,
                et,
                subst
                    (λ x.
                      execute_txn (record (abstract m g) { tasks = tb ++ ta }) p job.chance
                      ≡ ok (abstract x (ghost t tb ta et)))
                    same (execute-ended t tb ta et ran),
                subst (λ x. Sim s₀.heap point x (ghost t tb ta et)) same (ended-Sim t tb ta et),
              )
        ]
