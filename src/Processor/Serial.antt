-- ===== src/Processor/Serial.antt =====
-- A round of `RunSerialScheduler` against the specification.
use cmcs624_fall.Common.{
  ℕ, ◌≡◌, ◌≢◌, refl, ap, ◌∙◌, true, false, List, [], ◌∷◌, ◌++◌, if◌then◌else◌, ok, Bool-cases, inl,
  inr, beq_refl, beq_of_ne,
}
use mathlib.Core.Path.{fun_ext}
use cmcs624_fall.Common.Map
use cmcs624_fall.Txn.{completed_c, completed_a, committed, aborted}
use cmcs624_fall.Txn.Programs.{run}
use cmcs624_fall.Txn.Programs.Runs.{insert_all}
use cmcs624_fall.Storage.{Storage}
use cmcs624_fall.Processor.{
  single, Chance, update, set_status, finish_as, apply_writes, Processor, execute_txn, finish_txn,
  push_result, serial_from, serial_round,
}
use cmcs624_fall.Processor.Phases.{apply_writes_lem}
use cmcs624_fall.Processor.Spec.{commits, after}
use cmcs624_fall.Processor.Execution.{view, IsFresh, ran, run-ran, status-ran, writes-committed_to}

-- What one round of the loop leaves behind, when it takes the request `p`.
pub record Served {L : Type 0} (s s' : Processor L) (st st' : Storage) (p : ℕ) : Type 0 where
  pub stored : s'.storage ≡ single st'
  pub database : view st' ≡ after (s.heap p).program (s.heap p).txn.writeset (view st)
  pub decided :
      (s'.heap p).txn.status ≡ (if commits (s.heap p).program (view st) then committed else aborted)
  pub others : (q : ℕ) → q ≢ p → s'.heap q ≡ s.heap q
  pub results : s'.txn_results ≡ s.txn_results ++ p ∷ []
  pub completed : s'.completed_txns ≡ s.completed_txns ++ p ∷ []

module _ {L : Type 0} (x : Processor L) (p : ℕ) (c : Chance) where
  pub finish_commit :
      (x.heap p).txn.status ≡ completed_c
      → finish_txn x p c
        ≡ ok (
            set_status (record x { storage = apply_writes x.storage c (x.heap p).txn }) p committed)
  unfolding finish_txn
  finish_commit e = rw (e, finish_as)

  pub finish_abort :
      (x.heap p).txn.status ≡ completed_a → finish_txn x p c ≡ ok (set_status x p aborted)
  unfolding finish_txn
  finish_abort e = rw (e, finish_as)

module _ {L : Type 0} (s : Processor L) (st : Storage) (p : ℕ) (rest : List ℕ) (c : Chance)
    (stored : s.storage ≡ single st) (fresh : IsFresh (s.heap p)) where
  popped : Processor L
  popped = record s { txn_requests = rest }

  executed : Processor L
  executed = record s {
    txn_requests = rest;
    heap = update s.heap p (record (s.heap p) { txn = ran st c (s.heap p) fresh });
    completed_txns = s.completed_txns ++ p ∷ [];
  }

  execute-executed : execute_txn popped p c ≡ ok executed
  unfolding execute_txn popped executed
  execute-executed = rw stored (rw (run-ran st c (s.heap p) fresh))

  heap-executed : executed.heap p ≡ record (s.heap p) { txn = ran st c (s.heap p) fresh }
  unfolding executed
  heap-executed = rw (beq_refl p)

  abbrev Serves : Type 0
  Serves =
      (st' : Storage) × (s' : Processor L) × (serial_from s (p ∷ rest) c ≡ ok s')
      × (s'.txn_requests ≡ rest)
      × Served s s' st st' p

  status-executed :
      (executed.heap p).txn.status
      ≡ (if commits (s.heap p).program (view st) then completed_c else completed_a)
  status-executed = rw heap-executed (status-ran st c (s.heap p) fresh)

  applied : Processor L
  applied = record executed { storage = apply_writes executed.storage c (executed.heap p).txn }

  run_commit :
      (executed.heap p).txn.status ≡ completed_c
      → serial_from s (p ∷ rest) c ≡ ok (push_result (set_status applied p committed) p)
  unfolding serial_from popped applied
  run_commit e = rw execute-executed (rw (finish_commit executed p c e))

  run_abort :
      (executed.heap p).txn.status ≡ completed_a
      → serial_from s (p ∷ rest) c ≡ ok (push_result (set_status executed p aborted) p)
  unfolding serial_from popped
  run_abort e = rw execute-executed (rw (finish_abort executed p c e))

  database-applied :
      commits (s.heap p).program (view st) ≡ true
      → (j : ℕ)
      → Map.lookup j (insert_all (executed.heap p).txn.writes st.records)
        ≡ after (s.heap p).program (s.heap p).txn.writeset (view st) j
  database-applied h j = rw (heap-executed, h) (writes-committed_to st c (s.heap p) fresh j)

  serves_commit : commits (s.heap p).program (view st) ≡ true → Serves
  unfolding push_result applied executed
  serves_commit h =
      let (times, e) = apply_writes_lem st c (executed.heap p).txn in
      let st' : Storage = record {
        records = insert_all (executed.heap p).txn.writes st.records;
        timestamps = times;
      } in
      (
        st',
        push_result (set_status applied p committed) p,
        run_commit (rw (status-executed, h)),
        refl,
        record {
          stored = rw stored e;
          database = fun_ext (database-applied h);
          decided = rw (h, beq_refl p);
          others = λ q ne. rw (beq_of_ne q p ne);
          results = refl;
          completed = refl;
        },
      )

  serves_abort : commits (s.heap p).program (view st) ≡ false → Serves
  unfolding push_result executed
  serves_abort h = (
    st,
    push_result (set_status executed p aborted) p,
    run_abort (rw (status-executed, h)),
    refl,
    record {
      stored = stored;
      database = fun_ext (λ j. rw h);
      decided = rw (h, beq_refl p);
      others = λ q ne. rw (beq_of_ne q p ne);
      results = refl;
      completed = refl;
    },
  )

  serves : Serves
  serves = elim (Bool-cases (commits (s.heap p).program (view st))) [
    | inl h ↦ serves_commit h
    | inr h ↦ serves_abort h
  ]

-- In a mode with the single-version storage, where the oldest request is fresh, as a client hands it in,
-- not run, with empty buffers and with the keys that its program touches in its sets: one round takes
-- it. Its transaction commits if the specification says so on the
-- database of that moment, and aborts otherwise; the database becomes what the specification says;
-- no other transaction changes, and the result goes to the end of the results. Nothing
-- is said of the multi-version storage, on which the scheduler of the MVCC mode runs the same loop.
pub serial_round_lem :
    {L : Type 0} (s : Processor L) (st : Storage) (p : ℕ) (rest : List ℕ) (c : Chance)
    → s.storage ≡ single st
    → s.txn_requests ≡ p ∷ rest
    → IsFresh (s.heap p)
    → (st' : Storage) × (s' : Processor L) × (serial_round s c ≡ ok s')
      × (s'.txn_requests ≡ rest)
      × Served s s' st st' p
unfolding serial_round
serial_round_lem s st p rest c stored queued fresh =
    let (st', s', run, left, v) = serves s st p rest c stored fresh in
    (st', s', ap (λ ps. serial_from s ps c) queued ∙ run, left, v)

-- With no request a round does nothing.
pub serial_round_idle :
    {L : Type 0} (s : Processor L) (c : Chance) → s.txn_requests ≡ [] → serial_round s c ≡ ok s
unfolding serial_round serial_from
serial_round_idle s c e = ap (λ ps. serial_from s ps c) e
