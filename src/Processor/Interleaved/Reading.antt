-- ===== src/Processor/Interleaved/Reading.antt =====
-- `ExecuteTxn` up to its last read, beside a machine in which nothing happens.
use cmcs624_fall.Common.{
  ℕ, ◌+◌, ◌<◌, ◌≡◌, ◌≢◌, refl, sym, ap, subst, ◌∙◌, arith, Bool, true, List, [], ◌∷◌, ◌++◌, ◌||◌,
  count, count-append, All, All-append,
}
use mathlib.Core.List.{append_assoc}
use cmcs624_fall.Common.KeySet
use cmcs624_fall.LockManager.{LockManager}
use cmcs624_fall.Txn.Programs.{Object}
use cmcs624_fall.Storage.{Storage}
use cmcs624_fall.Processor.{Processor, single, store_read, Chance, update, keep_read, read_keys}
use cmcs624_fall.Processor.Locking.Places.{one_if, beq-count}
use cmcs624_fall.Processor.Locking.Contract.{Contract}
use cmcs624_fall.Processor.Locking.Isolation.{Isolation}
use cmcs624_fall.Processor.Locking.Invariant.{Inv}
use cmcs624_fall.Processor.Interleaved.{Job, Machine, Point, begin_txn, read_next}
use cmcs624_fall.Processor.Interleaved.Simulation.{
  Ghost, abstract, job_txns, IsJob, Sim, job_txns-append, update-here, update-else, IsJob-update,
  All-split,
}
use cmcs624_fall.Processor.Interleaved.Agreement.{read_keys-append, declared-part, agree}

module _ {L : Type 0} (lm : LockManager L) (contract : Contract L lm) (iso : Isolation lm)
    (s₀ : Processor L) (st₀ : Storage) (m : Machine L) (g : Ghost)
    (inv : Inv lm contract iso s₀ st₀ (abstract m g)) where
  module _ (point : Point) (sim : Sim s₀.heap point m g) where
    -- A transaction that waits to be run is no job yet.
    idle : (p : ℕ) → 0 < count p m.processor.tasks → count p (job_txns m.jobs) ≡ 0
    idle p h = omega (arith, h, inv.once p, sim.tasks p)

    pub begins-Sim :
        (p : ℕ) (before after : List ℕ) (c : Chance)
        → m.processor.tasks ≡ before ++ p ∷ after
        → Sim s₀.heap point (begin_txn m p (before ++ after) c) g
    unfolding begin_txn read_keys
    begins-Sim p before after c e =
        let f = m.processor.heap in
        let o : Object = record (f p) { txn = record ((f p).txn) { occ_start_time = c.start } } in
        let job : Job = record {
          txn = p;
          chance = c;
          keys = (f p).txn.readset ++ (f p).txn.writeset;
        } in
        let quiet : count p (job_txns m.jobs) ≡ 0 =
          idle p
            (omega (arith, ap (count p) e, count-append p before (p ∷ after), sym (beq-count p))) in
        let same : f p ≡ g.heap p = sim.heaps p quiet in
        record {
          tasks = λ q. omega (
            arith,
            sim.tasks q,
            ap (count q) e,
            count-append q before (p ∷ after),
            count-append q before after,
            job_txns-append m.jobs (job ∷ []) q,
          );
          heaps = λ q h.
              let split = job_txns-append m.jobs (job ∷ []) q in
              let apart : q ≢ p =
                λ x. omega (arith, h, split, ap (λ y. one_if q y) (sym x), sym (beq-count q)) in
              update-else f p q o apart ∙ sim.heaps q (omega (arith, h, split));
          jobs =
              All-append (IsJob g (update f p o)) m.jobs (job ∷ [])
                (IsJob-update g g f p o m.jobs (λ q ne. refl) refl quiet sim.jobs)
                (
                  record {
                    done = [];
                    covers = ap (λ (x : Object). x.txn.readset ++ x.txn.writeset) same;
                    object =
                        update-here f p o
                        ∙ ap
                            (λ (x : Object). record x {
                              txn = record (x.txn) { occ_start_time = c.start };
                            })
                            same;
                  },
                  tt,
                );
          storing = sim.storing;
        }

    module _ (before : List Job) (job : Job) (after : List Job)
        (e : m.jobs ≡ before ++ job ∷ after) where
      pub job_here :
          (q : ℕ)
          → count q (job_txns m.jobs)
            ≡ count q (job_txns before) + (count q (job_txns after) + one_if q job.txn)
      job_here q = ap (λ js. count q (job_txns js)) e ∙ job_txns-append before (job ∷ after) q

      pub active : 0 < count job.txn g.tasks
      active = omega (arith, sim.tasks job.txn, job_here job.txn, sym (beq-count job.txn))

      pub alone :
          (count job.txn (job_txns before) ≡ 0)
          × (count job.txn (job_txns after) ≡ 0)
          × (count job.txn m.processor.tasks ≡ 0)
      alone =
          let once = inv.once job.txn in
          let all = sim.tasks job.txn in
          let here = job_here job.txn in
          let one = sym (beq-count job.txn) in
          (
            omega (arith, once, all, here, one),
            omega (arith, once, all, here, one),
            omega (arith, once, all, here, one),
          )

      pub three_parts :
          All (IsJob g m.processor.heap) before
          × IsJob g m.processor.heap job
          × All (IsJob g m.processor.heap) after
      three_parts =
          All-split (IsJob g m.processor.heap) before job after
            (subst (All (IsJob g m.processor.heap)) e sim.jobs)

      pub original : g.heap job.txn ≡ s₀.heap job.txn
      original = inv.untouched job.txn (omega (arith, active, inv.once job.txn))

      pub not_job : (q : ℕ) → count q (job_txns m.jobs) ≡ 0 → q ≢ job.txn
      not_job q h same = omega (arith, h, job_here q, ap (one_if q) (sym same), sym (beq-count q))

      module _ (k : ℕ) (ks : List ℕ) (ek : job.keys ≡ k ∷ ks) where
        found :
            store_read m.processor.storage k job.chance.junk 0
            ≡ store_read (single g.store) k job.chance.junk 0
        found =
            agree lm contract iso s₀ st₀ m g inv point sim.storing job.txn k active
              (subst
                (λ (o : Object).
                  (KeySet.contains k o.txn.readset || KeySet.contains k o.txn.writeset) ≡ true)
                original
                (declared-part three_parts.1.done k ks (g.heap job.txn).txn.readset
                  (g.heap job.txn).txn.writeset
                  (ap (λ l. three_parts.1.done ++ l) (sym ek) ∙ three_parts.1.covers)))
              job.chance.junk

        abbrev read_object : ℕ × Bool → Object → Object
        read_object r o = record o { txn = record (o.txn) { reads = keep_read r k o.txn.reads } }

        abbrev seen_object : List ℕ → Object
        seen_object done = record (g.heap job.txn) {
          txn = record ((g.heap job.txn).txn) {
            occ_start_time = job.chance.start;
            reads = read_keys (single g.store) job.chance.junk done (g.heap job.txn).txn.reads;
          };
        }

        next_object :
            read_object
              (store_read m.processor.storage k job.chance.junk 0)
              (m.processor.heap job.txn)
            ≡ seen_object (three_parts.1.done ++ k ∷ [])
        unfolding read_keys
        next_object =
            ap (read_object (store_read m.processor.storage k job.chance.junk 0))
              three_parts.1.object
            ∙ ap (λ r. read_object r (seen_object three_parts.1.done)) found
            ∙ ap
                (λ rs. record (g.heap job.txn) {
                  txn = record ((g.heap job.txn).txn) {
                    occ_start_time = job.chance.start;
                    reads = rs;
                  };
                })
                (sym (
                  read_keys-append (single g.store) job.chance.junk three_parts.1.done (k ∷ [])
                    (g.heap job.txn).txn.reads))

        pub reads-Sim : Sim s₀.heap point (read_next m before job k ks after) g
        unfolding read_next
        reads-Sim =
            let f = m.processor.heap in
            let o : Object =
              read_object (store_read m.processor.storage k job.chance.junk 0) (f job.txn) in
            let next : Job = record job { keys = ks } in
            record {
              tasks = λ q.
                  omega (arith, sim.tasks q, job_here q, job_txns-append before (next ∷ after) q);
              heaps = λ q h.
                  let h' : count q (job_txns m.jobs) ≡ 0 =
                    omega (arith, h, job_here q, job_txns-append before (next ∷ after) q) in
                  update-else f job.txn q o (not_job q h') ∙ sim.heaps q h';
              jobs =
                  All-append (IsJob g (update f job.txn o)) before (next ∷ after)
                    (IsJob-update g g f job.txn o before (λ q ne. refl) refl alone.0 three_parts.0)
                    (
                      record {
                        done = three_parts.1.done ++ k ∷ [];
                        covers =
                            append_assoc three_parts.1.done (k ∷ []) ks
                            ∙ ap (λ l. three_parts.1.done ++ l) (sym ek)
                            ∙ three_parts.1.covers;
                        object = update-here f job.txn o ∙ next_object;
                      },
                      IsJob-update g g f job.txn o after (λ q ne. refl) refl alone.1 three_parts.2,
                    );
              storing = sim.storing;
            }
