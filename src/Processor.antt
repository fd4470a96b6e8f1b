-- ===== src/Processor.antt =====
-- a2/txn/txn_processor.h and txn_processor.cc: the state of the processor and the steps that its
-- schedulers are made of.
pub mod Phases
pub mod Spec
pub mod Execution
pub mod Serial
pub mod History
pub mod Locking
pub mod Interleaved
pub mod Modes
use cmcs624_fall.Common.{
  ℕ, suc, ◌+◌, ◌-◌, ◌^◌, Bool, true, false, List, [], ◌∷◌, ◌++◌, if◌then◌else◌, ◌==◌, ltb, Outcome,
  ok, Option, none, some, died, ◌>>=◌, ◌>>◌, check,
}
use cmcs624_fall.Common.Map
use cmcs624_fall.Common.Map.{Map}
use cmcs624_fall.Txn.{Txn, TxnStatus, incomplete, completed_c, completed_a, committed, aborted}
use cmcs624_fall.Txn.Programs.{Object, run}
use cmcs624_fall.Storage
use cmcs624_fall.Storage.{Storage, MvccStorage}

-- `Storage*`, by the class of the object.
pub data Store : Type 0 where
  single : Storage → Store
  multi : MvccStorage → Store

-- The virtual methods `Read` and `Write`.
unfoldable pub store_read : Store → ℕ → ℕ → ℕ → ℕ × Bool
store_read (single s) key result id = Storage.read s key result
store_read (multi s) key result id = Storage.mvcc_read s key result id

unfoldable pub store_write : Store → ℕ → ℕ → ℕ → ℕ → Store
store_write (single s) key value id now = single (Storage.write s key value now)
store_write (multi s) key value id now = multi (Storage.mvcc_write s key value id)

-- A transaction is named by its pointer, a number, and `heap` holds the objects. The queues hold
-- pointers, oldest first; `tasks` are those that the thread pool has been given and not yet run.
-- `L` is the state of the lock manager.
pub record Processor (L : Type 0) : Type 0 where
  pub heap : ℕ → Object
  pub storage : Store
  pub next_unique_id : ℕ
  pub txn_requests : List ℕ
  pub ready_txns : List ℕ
  pub tasks : List ℕ
  pub completed_txns : List ℕ
  pub txn_results : List ℕ
  pub locks : L

abbrev pub update {ℓ} : {A : Type ℓ} → (ℕ → A) → ℕ → A → ℕ → A
update f p a q = if q == p then a else f q

-- What the machine adds to a step: the time at which a transaction starts, the time of each write,
-- and what is in a local variable that nothing has initialised.
pub record Chance : Type 0 where
  pub start : ℕ
  pub write_time : ℕ → ℕ
  pub junk : ℕ

-- `if (storage_->Read(*it, &result)) txn->reads_[*it] = result;`
abbrev pub keep_read : ℕ × Bool → ℕ → Map ℕ → Map ℕ
keep_read (result, true) key reads = Map.insert key result reads
keep_read (result, false) key reads = reads

-- A loop of `ExecuteTxn` over a set of keys. `Read` takes its default id, 0.
unfoldable pub read_keys : Store → ℕ → List ℕ → Map ℕ → Map ℕ
read_keys s junk [] reads = reads
read_keys s junk (k ∷ ks) reads = read_keys s junk ks (keep_read (store_read s k junk 0) k reads)

-- A transaction after the read phase of `ExecuteTxn`.
unfoldable pub read_phase : Store → Chance → Txn → Txn
unfolding read_keys
read_phase s c t = record t {
  occ_start_time = c.start;
  reads = read_keys s c.junk t.writeset (read_keys s c.junk t.readset t.reads);
}

-- The loop of `ApplyWrites`, at its round `i`.
unfoldable pub apply_loop : Store → (ℕ → ℕ) → ℕ → ℕ → Map ℕ → Store
unfolding store_write
apply_loop s clock id i [] = s
apply_loop s clock id i ((k, v) ∷ m) =
    apply_loop (store_write s k v id (clock i)) clock id (suc i) m

unfoldable pub apply_writes : Store → Chance → Txn → Store
unfolding apply_loop
apply_writes s c t = apply_loop s c.write_time t.unique_id 0 t.writes

module _ {L : Type 0} where
  -- `NewTxnRequest`. The id is an `int`: its increment must not overflow.
  unfoldable pub new_txn_request : Processor L → ℕ → Outcome (Processor L)
  new_txn_request s p = do
    check (ltb s.next_unique_id (2 ^ 31 - 1))
    let o = s.heap p
    ok (record s {
      heap = update s.heap p (record o { txn = record (o.txn) { unique_id = s.next_unique_id } });
      next_unique_id = s.next_unique_id + 1;
      txn_requests = s.txn_requests ++ p ∷ [];
    })

  abbrev pub result_from : Processor L → List ℕ → Option (ℕ × Processor L)
  result_from s [] = none
  result_from s (p ∷ rest) = some (p, record s { txn_results = rest })

  -- `GetTxnResult`; without a result, `none`, it waits and tries again.
  unfoldable pub get_txn_result : Processor L → Option (ℕ × Processor L)
  get_txn_result s = result_from s s.txn_results

  unfoldable pub execute_txn : Processor L → ℕ → Chance → Outcome (Processor L)
  unfolding read_phase
  execute_txn s p c = do
    let o = s.heap p
    t ← run o.program (read_phase s.storage c o.txn) c.junk
    ok (record s {
      heap = update s.heap p (record o { txn = t });
      completed_txns = s.completed_txns ++ p ∷ [];
    })

  abbrev pub set_status : Processor L → ℕ → TxnStatus → Processor L
  set_status s p status =
      let o = s.heap p in
      record s { heap = update s.heap p (record o { txn = record (o.txn) { status = status } }) }

  unfoldable pub finish_as : Processor L → ℕ → Chance → TxnStatus → Outcome (Processor L)
  finish_as s p c completed_c =
      ok (set_status (record s { storage = apply_writes s.storage c (s.heap p).txn }) p committed)
  finish_as s p c completed_a = ok (set_status s p aborted)
  finish_as s p c _ = died

  -- The commit or abort of a completed transaction, which both schedulers share.
  unfoldable pub finish_txn : Processor L → ℕ → Chance → Outcome (Processor L)
  unfolding finish_as apply_writes
  finish_txn s p c = finish_as s p c (s.heap p).txn.status

  unfoldable pub push_result : Processor L → ℕ → Processor L
  push_result s p = record s { txn_results = s.txn_results ++ p ∷ [] }

  serial_from : Processor L → List ℕ → Chance → Outcome (Processor L)
  unfolding execute_txn finish_txn push_result
  serial_from s [] c = ok s
  serial_from s (p ∷ rest) c = do
    executed ← execute_txn (record s { txn_requests = rest }) p c
    finished ← finish_txn executed p c
    ok (push_result finished p)

  -- One round of the loop of `RunSerialScheduler`.
  pub serial_round : Processor L → Chance → Outcome (Processor L)
  unfolding serial_from
  serial_round s c = serial_from s s.txn_requests c

  -- The loop itself, for the rounds until `stopped_` is seen.
  pub run_serial_scheduler : Processor L → List Chance → Outcome (Processor L)
  unfolding serial_round
  run_serial_scheduler s [] = ok s
  run_serial_scheduler s (c ∷ cs) = do s' ← serial_round s c; run_serial_scheduler s' cs
