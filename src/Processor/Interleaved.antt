-- ===== src/Processor/Interleaved.antt =====
-- `RunLockingScheduler` and `ExecuteTxn` of a2/txn/txn_processor.cc, with every access to the storage a
-- step of its own: the scheduler writes while threads of the pool read.
pub mod Simulation
pub mod Agreement
pub mod Reading
pub mod Running
pub mod Settling
pub mod Committing
pub mod Requesting
pub mod Scheduling
pub mod Beside
pub mod Clients
pub mod Refinement
pub mod Serializable
pub mod Progress
use cmcs624_fall.Common.{
  ℕ, zero, suc, Bool, true, false, List, [], ◌∷◌, ◌++◌, if◌then◌else◌, Outcome, ok, some, ◌≡◌,
  ◌>>=◌,
}
use cmcs624_fall.Common.Map.{Map}
use cmcs624_fall.LockManager.{LockManager}
use cmcs624_fall.Txn.{completed_c, completed_a, committed, aborted}
use cmcs624_fall.Txn.Programs.{Object, run}
use cmcs624_fall.Processor.{
  Processor, Store, store_read, store_write, Chance, update, new_txn_request, get_txn_result,
  keep_read, set_status, push_result,
}
use cmcs624_fall.Processor.Locking.{
  Phase, admitting, completing, launching, admit, release_locks, launch,
}

-- A thread of the pool inside `ExecuteTxn`: its transaction, what chance gives it, and the keys that it
-- has not read yet, first those of the read set.
pub record Job : Type 0 where
  pub txn : ℕ
  pub chance : Chance
  pub keys : List ℕ

-- `taken` are the results that clients have taken, in their order.
pub record Machine (L : Type 0) : Type 0 where
  pub processor : Processor L
  pub jobs : List Job
  pub taken : List ℕ

-- Where the scheduler is: in a part of its round, or inside `ApplyWrites` for a transaction, with the
-- number of the write that comes next and the writes that are left.
pub data Point : Type 0 where
  at : Phase → Point
  applying : ℕ → Chance → ℕ → Map ℕ → Point

module _ {L : Type 0} where
  -- No thread is inside `ExecuteTxn`, and nobody has taken a result.
  abbrev pub started : Processor L → Machine L
  started s = record { processor = s; jobs = []; taken = [] }

  -- "Get the start time": the thread has taken `p` from the tasks, and `tasks` are left.
  unfoldable pub begin_txn : Machine L → ℕ → List ℕ → Chance → Machine L
  begin_txn m p tasks c =
      let s = m.processor in
      let o = s.heap p in
      record m {
        processor = record s {
          tasks = tasks;
          heap = update s.heap p (record o { txn = record (o.txn) { occ_start_time = c.start } });
        };
        jobs =
            m.jobs ++ record { txn = p; chance = c; keys = o.txn.readset ++ o.txn.writeset } ∷ [];
      }

  -- One round of the two loops of `ExecuteTxn`.
  unfoldable pub read_next : Machine L → List Job → Job → ℕ → List ℕ → List Job → Machine L
  read_next m before job k ks after =
      let s = m.processor in
      let o = s.heap job.txn in
      let found = store_read s.storage k job.chance.junk 0 in
      record m {
        processor = record s {
          heap =
              update s.heap job.txn
                (record o { txn = record (o.txn) { reads = keep_read found k o.txn.reads } });
        };
        jobs = before ++ record job { keys = ks } ∷ after;
      }

  -- "Execute txn's program logic", and the hand-back; `jobs` are the other threads.
  unfoldable pub end_txn : Machine L → Job → List Job → Outcome (Machine L)
  end_txn m job jobs = do
    let s = m.processor
    let o = s.heap job.txn
    t ← run o.program o.txn job.chance.junk
    ok (record m {
      processor = record s {
        heap = update s.heap job.txn (record o { txn = t });
        completed_txns = s.completed_txns ++ job.txn ∷ [];
      };
      jobs = jobs;
    })

  -- One round of the loop of `ApplyWrites`.
  unfoldable pub write_next : Machine L → ℕ → Chance → ℕ → ℕ → ℕ → Machine L
  write_next m p c i k v =
      let s = m.processor in
      record m {
        processor = record s {
          storage = store_write s.storage k v (s.heap p).txn.unique_id (c.write_time i);
        };
      }

  -- A thread of the pool that has, or now takes, the transaction `p`.
  pub data ThreadStep : ℕ → Machine L → Machine L → Type 0 where
    begins :
        {m : Machine L}
        → (p : ℕ) (before after : List ℕ) (c : Chance) → m.processor.tasks ≡ before ++ p ∷ after
        → ThreadStep p m (begin_txn m p (before ++ after) c)
    reads :
        {m : Machine L}
        → (before : List Job) (job : Job) (after : List Job) (k : ℕ) (ks : List ℕ)
        → m.jobs ≡ before ++ job ∷ after
        → job.keys ≡ k ∷ ks
        → ThreadStep job.txn m (read_next m before job k ks after)
    ends :
        {m m' : Machine L}
        → (before : List Job) (job : Job) (after : List Job) → m.jobs ≡ before ++ job ∷ after
        → job.keys ≡ []
        → end_txn m job (before ++ after) ≡ ok m'
        → ThreadStep job.txn m m'

module _ {L : Type 0} (lm : LockManager L) where
  -- The last part of the loop over `completed_txns_`: the status, the locks and the result.
  unfoldable pub settle : Processor L → ℕ → Bool → Processor L
  settle s p commits =
      push_result (release_locks lm (set_status s p (if commits then committed else aborted)) p) p

  -- The scheduler's thread.
  pub data SchedulerStep : Point → Machine L → Point → Machine L → Type 0 where
    admits :
        {m : Machine L}
        → SchedulerStep
            (at admitting)
            m
            (at completing)
            (record m { processor = admit lm m.processor })
    starts_commit :
        {m : Machine L}
        → (p : ℕ) (rest : List ℕ) (c : Chance) → m.processor.completed_txns ≡ p ∷ rest
        → (m.processor.heap p).txn.status ≡ completed_c
        → SchedulerStep
            (at completing)
            m
            (applying p c 0 (m.processor.heap p).txn.writes)
            (record m { processor = record (m.processor) { completed_txns = rest } })
    writes :
        {m : Machine L} {p : ℕ} {c : Chance} {i k v : ℕ} {left : Map ℕ}
        → SchedulerStep
            (applying p c i ((k, v) ∷ left))
            m
            (applying p c (suc i) left)
            (write_next m p c i k v)
    ends_commit :
        {m : Machine L} {p : ℕ} {c : Chance} {i : ℕ}
        → SchedulerStep
            (applying p c i [])
            m
            (at completing)
            (record m { processor = settle m.processor p true })
    aborts :
        {m : Machine L}
        → (p : ℕ) (rest : List ℕ) → m.processor.completed_txns ≡ p ∷ rest
        → (m.processor.heap p).txn.status ≡ completed_a
        → SchedulerStep (at completing) m (at completing) (record m {
          processor = settle (record (m.processor) { completed_txns = rest }) p false;
        })
    all_completed :
        {m : Machine L}
        → m.processor.completed_txns ≡ []
        → SchedulerStep (at completing) m (at launching) m
    launches :
        {m : Machine L}
        → (p : ℕ) (rest : List ℕ) → m.processor.ready_txns ≡ p ∷ rest
        → SchedulerStep
            (at launching)
            m
            (at launching)
            (record m { processor = launch lm m.processor p rest })
    all_launched :
        {m : Machine L}
        → m.processor.ready_txns ≡ []
        → SchedulerStep (at launching) m (at admitting) m

  -- A client may hand in a transaction, or take a result, at any time.
  pub data Run (point : Point) (m : Machine L) : Point → Machine L → Type 0 where
    start : Run point m point m
    schedules :
        {mid point' : Point} {m' m'' : Machine L}
        → Run point m mid m'
        → SchedulerStep mid m' point' m''
        → Run point m point' m''
    works :
        {mid : Point} {m' m'' : Machine L} {p : ℕ}
        → Run point m mid m'
        → ThreadStep p m' m''
        → Run point m mid m''
    requests :
        {mid : Point} {m' : Machine L} {s : Processor L}
        → (p : ℕ) → Run point m mid m'
        → new_txn_request m'.processor p ≡ ok s
        → Run point m mid (record m' { processor = s })
    takes :
        {mid : Point} {m' : Machine L} {s : Processor L}
        → (p : ℕ) → Run point m mid m'
        → get_txn_result m'.processor ≡ some (p, s)
        → Run point m mid (record m' { processor = s; taken = m'.taken ++ p ∷ [] })

  -- The transactions that clients have handed in during a run.
  abbrev pub handed :
      {point : Point} {m : Machine L} {point' : Point} {m' : Machine L}
      → Run point m point' m'
      → List ℕ
  handed start = []
  handed (schedules run step) = handed run
  handed (works run step) = handed run
  handed (requests p run e) = handed run ++ p ∷ []
  handed (takes p run e) = handed run
