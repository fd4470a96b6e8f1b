-- ===== src/Processor/Interleaved/Settling.antt =====
-- A transaction gets its result, in both machines at once.
use native.Mathlib.Decide.{ℕ_discrete}
use cmcs624_fall.Common.{
  ℕ, ◌<◌, ◌≡◌, refl, sym, ap, ◌∙◌, arith, Bool, true, List, [], ◌∷◌, ◌++◌, if◌then◌else◌, ◌||◌,
  beq_refl, count, All,
}
use cmcs624_fall.Common.KeySet
use cmcs624_fall.Common.Map.{Map}
use mathlib.Core.List.{append_assoc}
use cmcs624_fall.LockManager.{LockManager}
use cmcs624_fall.Txn.Programs.{Object}
use cmcs624_fall.Storage.{Storage}
use cmcs624_fall.Processor.{single, store_read, update, keep_read, read_keys, push_result}
use cmcs624_fall.Processor.Execution.{view}
use cmcs624_fall.Processor.Locking.Places.{beq-count}
use cmcs624_fall.Processor.Interleaved.{Job, Machine, Point, at, settle}
use cmcs624_fall.Processor.Interleaved.Simulation.{
  Ghost, abstract, job_txns, IsJob, Sim, update-here, update-else, IsJob-update,
}
use cmcs624_fall.Common.Draws.{contains-append}
use cmcs624_fall.Txn.{committed, aborted}
use cmcs624_fall.Processor.Locking.{completing, release_keys, release_locks}
use cmcs624_fall.Processor.Interleaved.Agreement.{store_read-same}

-- Two storages give the same to a transaction that reads only what they share.
read_keys-same :
    (st st' : Storage) (junk : ℕ) (ks : List ℕ) (reads : Map ℕ)
    → ((k : ℕ) → KeySet.contains k ks ≡ true → view st k ≡ view st' k)
    → read_keys (single st) junk ks reads ≡ read_keys (single st') junk ks reads
unfolding read_keys
read_keys-same st st' junk [] reads same = refl
read_keys-same st st' junk (k ∷ ks) reads same =
    ap (λ r. read_keys (single st) junk ks (keep_read r k reads))
      (store_read-same st st' k junk
        (same k (ap (λ b. if b then true else KeySet.contains k ks) (beq_refl k))))
    ∙ read_keys-same st st' junk ks (keep_read (store_read (single st') k junk 0) k reads)
        (λ j h. same j (ground arith))

-- What every job declares is the same in the new storage.
abbrev pub IsStable : Ghost → Storage → List Job → Type 0
IsStable g store jobs =
    (q : ℕ)
    → 0 < count q (job_txns jobs)
    → (k : ℕ)
    → (KeySet.contains k (g.heap q).txn.readset || KeySet.contains k (g.heap q).txn.writeset) ≡ true
    → view g.store k ≡ view store k

jobs-store :
    (g : Ghost) (heap : ℕ → Object) (store : Storage) (jobs : List Job)
    → IsStable g store jobs
    → All (IsJob g heap) jobs
    → All (IsJob (record g { store = store }) heap) jobs
jobs-store g heap store [] stable all = tt
jobs-store g heap store (job ∷ jobs) stable all =
    let t = (g.heap job.txn).txn in
    (
      record {
        done = all.0.done;
        covers = all.0.covers;
        object =
            all.0.object
            ∙ ap
                (λ rs. record (g.heap job.txn) {
                  txn = record t { occ_start_time = job.chance.start; reads = rs };
                })
                (read_keys-same g.store store job.chance.junk all.0.done t.reads (λ k h.
                  stable job.txn (omega (arith, sym (beq-count job.txn))) k (
                    sym (contains-append k t.readset t.writeset)
                    ∙ ap (KeySet.contains k) (sym all.0.covers)
                    ∙ contains-append k all.0.done job.keys
                    ∙ ap (λ b. b || KeySet.contains k job.keys) h)));
      },
      jobs-store g heap store jobs (λ q h. stable q (omega (arith, h))) all.1,
    )

module _ {L : Type 0} (lm : LockManager L) (h₀ : ℕ → Object) (m : Machine L) (g : Ghost)
    (point : Point) (sim : Sim h₀ point m g) (p : ℕ) (b : Bool) (rest : List ℕ) (store : Storage)
    (stored : m.processor.storage ≡ single store) (quiet : count p (job_txns m.jobs) ≡ 0) where
  abbrev pub settled : Machine L
  settled = record m { processor = settle lm (record (m.processor) { completed_txns = rest }) p b }

  abbrev mark : Object → Object
  mark o = record o { txn = record (o.txn) { status = if b then committed else aborted } }

  abbrev pub ghost : Ghost
  ghost = record {
    heap = update g.heap p (mark (g.heap p));
    tasks = g.tasks;
    completed = rest;
    store = store;
  }

  same : m.processor.heap p ≡ g.heap p
  same = sim.heaps p quiet

  -- What the release of the locks finds of the transaction is the same in both.
  same_mark :
      update g.heap p (mark (g.heap p)) p ≡ update m.processor.heap p (mark (m.processor.heap p)) p
  same_mark =
      update-here g.heap p (mark (g.heap p))
      ∙ ap mark (sym same)
      ∙ sym (update-here m.processor.heap p (mark (m.processor.heap p)))

  pub settled-abstract :
      settle lm (record (abstract m g) { completed_txns = rest; storage = single store }) p b
      ≡ abstract settled ghost
  unfolding settle push_result release_locks
  settled-abstract =
      ap
        (λ (o : Object).
          let first = release_keys lm m.processor.locks m.processor.ready_txns p o.txn.readset in
          let last = release_keys lm first.0 first.1 p o.txn.writeset in
          record (m.processor) {
            heap = update g.heap p (mark (g.heap p));
            storage = single store;
            tasks = g.tasks;
            completed_txns = rest;
            txn_results = (m.taken ++ m.processor.txn_results) ++ p ∷ [];
            locks = last.0;
            ready_txns = last.1;
          })
        same_mark
      ∙ ap (λ rs. record (abstract settled ghost) { txn_results = rs })
          (append_assoc m.taken m.processor.txn_results (p ∷ []))

  pub settled-Sim : IsStable g store m.jobs → Sim h₀ (at completing) settled ghost
  unfolding settle push_result release_locks
  settled-Sim stable = record {
    tasks = sim.tasks;
    heaps = λ q h. elim (ℕ_discrete q p) [
      | yes e ↦
          ap (update m.processor.heap p (mark (m.processor.heap p))) e
          ∙ sym same_mark
          ∙ sym (ap (update g.heap p (mark (g.heap p))) e)
      | no ne ↦
          update-else m.processor.heap p q (mark (m.processor.heap p)) ne
          ∙ sim.heaps q h
          ∙ sym (update-else g.heap p q (mark (g.heap p)) ne)
    ];
    jobs =
        IsJob-update (record g { store = store }) ghost m.processor.heap p
          (mark (m.processor.heap p)) m.jobs (λ q ne. update-else g.heap p q (mark (g.heap p)) ne)
          refl quiet (jobs-store g m.processor.heap store m.jobs stable sim.jobs);
    storing = (stored, refl);
  }
