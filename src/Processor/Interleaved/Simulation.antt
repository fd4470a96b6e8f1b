-- ===== src/Processor/Interleaved/Simulation.antt =====
-- The machine with single reads and writes beside the one of `Processor/Locking`, in which the run of a
-- transaction and its writes are one step each.
use cmcs624_fall.Common.{
  ℕ, ◌+◌, ◌≡◌, ◌≢◌, sym, ap, ◌∙◌, arith, false, List, [], ◌∷◌, ◌++◌, none, count, All,
}
use cmcs624_fall.Common.KeySet
use cmcs624_fall.Common.Map
use cmcs624_fall.Common.Map.{Map}
use cmcs624_fall.Txn.{completed_c}
use cmcs624_fall.Txn.Programs.{Object}
use cmcs624_fall.Storage.{Storage}
use cmcs624_fall.Processor.{Processor, Store, single, Chance, update, read_keys, apply_loop}
use cmcs624_fall.Processor.Execution.{view}
use cmcs624_fall.Processor.Interleaved.{Job, Machine, Point, at, applying}
pub use cmcs624_fall.Processor.Locking.Invariant.{update-here, update-else}

-- What the other machine has in place of the heap, two queues and the storage.
pub record Ghost : Type 0 where
  pub heap : ℕ → Object
  pub tasks : List ℕ
  pub completed : List ℕ
  pub store : Storage

abbrev pub abstract : {L : Type 0} → Machine L → Ghost → Processor L
abstract m g = record (m.processor) {
  heap = g.heap;
  tasks = g.tasks;
  completed_txns = g.completed;
  storage = single g.store;
  txn_results = m.taken ++ m.processor.txn_results;
}

abbrev pub job_txns : List Job → List ℕ
job_txns [] = []
job_txns (job ∷ jobs) = job.txn ∷ job_txns jobs

-- A job has read some of its keys, and what it has read is what the other machine's storage holds.
pub record IsJob (g : Ghost) (heap : ℕ → Object) (job : Job) : Type 0 where
  pub done : List ℕ
  pub covers : done ++ job.keys ≡ (g.heap job.txn).txn.readset ++ (g.heap job.txn).txn.writeset
  pub object : heap job.txn ≡ record (g.heap job.txn) {
    txn = record ((g.heap job.txn).txn) {
      occ_start_time = job.chance.start;
      reads = read_keys (single g.store) job.chance.junk done (g.heap job.txn).txn.reads;
    };
  }

-- The writes of `p` are under way, and `left` are to come.
pub record IsApplying (h₀ : ℕ → Object) (storage : Store) (completed : List ℕ) (g : Ghost) (p : ℕ)
    (c : Chance) (i : ℕ) (left : Map ℕ) : Type 0 where
  pub popped : g.completed ≡ p ∷ completed
  pub status : (g.heap p).txn.status ≡ completed_c
  pub written : Storage
  pub stored : storage ≡ single written
  pub rest :
      apply_loop (single g.store) c.write_time (g.heap p).txn.unique_id 0 (g.heap p).txn.writes
      ≡ apply_loop storage c.write_time (g.heap p).txn.unique_id i left
  pub outside :
      (j : ℕ)
      → KeySet.contains j (h₀ p).txn.writeset ≡ false
      → (view written j ≡ view g.store j) × (Map.lookup j left ≡ none)

abbrev pub Storing : (ℕ → Object) → Point → Store → List ℕ → Ghost → Type 0
Storing h₀ (at phase) storage completed g = (storage ≡ single g.store) × (g.completed ≡ completed)
Storing h₀ (applying p c i left) storage completed g = IsApplying h₀ storage completed g p c i left

pub record Sim {L : Type 0} (h₀ : ℕ → Object) (point : Point) (m : Machine L) (g : Ghost)
    : Type 0 where
  pub tasks : (q : ℕ) → count q g.tasks ≡ count q m.processor.tasks + count q (job_txns m.jobs)
  pub heaps : (q : ℕ) → count q (job_txns m.jobs) ≡ 0 → m.processor.heap q ≡ g.heap q
  pub jobs : All (IsJob g m.processor.heap) m.jobs
  pub storing : Storing h₀ point m.processor.storage m.processor.completed_txns g

pub job_txns-append :
    (xs ys : List Job) (q : ℕ)
    → count q (job_txns (xs ++ ys)) ≡ count q (job_txns xs) + count q (job_txns ys)
job_txns-append [] ys q = omega arith
job_txns-append (x ∷ xs) ys q = omega (arith, job_txns-append xs ys q)

-- A transaction that is counted nowhere is not this one.
pub uncounted : (q x : ℕ) (xs : List ℕ) → count q (x ∷ xs) ≡ 0 → (x ≢ q) × (count q xs ≡ 0)
uncounted q x xs h = (λ e. ground arith, omega arith)

-- A job of another transaction is not concerned by a change of an object.
pub IsJob-update :
    (g g' : Ghost) (heap : ℕ → Object) (p : ℕ) (o : Object) (jobs : List Job)
    → ((q : ℕ) → q ≢ p → g'.heap q ≡ g.heap q)
    → g'.store ≡ g.store
    → count p (job_txns jobs) ≡ 0
    → All (IsJob g heap) jobs
    → All (IsJob g' (update heap p o)) jobs
IsJob-update g g' heap p o [] same store h all = tt
IsJob-update g g' heap p o (job ∷ jobs) same store h all =
    let (ne, rest) = uncounted p job.txn (job_txns jobs) h in
    (
      record {
        done = all.0.done;
        covers =
            all.0.covers
            ∙ ap (λ (x : Object). x.txn.readset ++ x.txn.writeset) (sym (same job.txn ne));
        object =
            update-else heap p job.txn o ne
            ∙ all.0.object
            ∙ ap
                (λ (x : Object). record x {
                  txn = record (x.txn) {
                    occ_start_time = job.chance.start;
                    reads = read_keys (single g.store) job.chance.junk all.0.done x.txn.reads;
                  };
                })
                (sym (same job.txn ne))
            ∙ ap
                (λ st. record (g'.heap job.txn) {
                  txn = record ((g'.heap job.txn).txn) {
                    occ_start_time = job.chance.start;
                    reads =
                        read_keys (single st) job.chance.junk all.0.done
                          (g'.heap job.txn).txn.reads;
                  };
                })
                (sym store);
      },
      IsJob-update g g' heap p o jobs same store rest all.1,
    )

pub All-split :
    {A : Type 0} (P : A → Type 0) (xs : List A) (y : A) (ys : List A)
    → All P (xs ++ y ∷ ys)
    → All P xs × P y × All P ys
All-split P [] y ys all = (tt, all.0, all.1)
All-split P (x ∷ xs) y ys all = let (a, b, c) = All-split P xs y ys all.1 in ((all.0, a), b, c)
