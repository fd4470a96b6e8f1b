-- ===== src/Processor/History.antt =====
-- Many rounds of `RunSerialScheduler`: the history of the requests against the specification.
use cmcs624_fall.Common.{
  ℕ, ◌≡◌, ◌≢◌, ◌≤◌, refl, sym, ◌∙◌, ap, arith, List, [], ◌∷◌, ◌++◌, if◌then◌else◌, ok, All, All-map,
  All-zip, length, subst,
}
use mathlib.Core.List.{append-nil, append_assoc}
use cmcs624_fall.Txn.{committed, aborted}
use cmcs624_fall.Txn.Programs.{Object}
use cmcs624_fall.Storage.{Storage}
use cmcs624_fall.Processor.{single, Chance, Processor, run_serial_scheduler}
use cmcs624_fall.Processor.Spec.{Database, commits, after}
use cmcs624_fall.Processor.Execution.{view, IsFresh}
use cmcs624_fall.Processor.Serial.{Served, serial_round_lem, serial_round_idle}

-- No transaction is queued twice.
abbrev pub Distinct : List ℕ → Type 0
Distinct [] = Unit
Distinct (p ∷ ps) = All (λ q. q ≢ p) ps × Distinct ps

-- The database after the transactions `ps`, one after the other.
abbrev pub after_all : (ℕ → Object) → List ℕ → Database → Database
after_all heap [] db = db
after_all heap (p ∷ ps) db = after_all heap ps (after (heap p).program (heap p).txn.writeset db)

-- Each of them has the status that the specification gives it, on the database of its turn.
abbrev pub Decided : (ℕ → Object) → (ℕ → Object) → List ℕ → Database → Type 0
Decided heap' heap [] db = Unit
Decided heap' heap (p ∷ ps) db =
    ((heap' p).txn.status ≡ (if commits (heap p).program db then committed else aborted))
    × Decided heap' heap ps (after (heap p).program (heap p).txn.writeset db)

pub record Finished {L : Type 0} (s s' : Processor L) (st st' : Storage) (ps : List ℕ)
    : Type 0 where
  pub stored : s'.storage ≡ single st'
  pub database : view st' ≡ after_all s.heap ps (view st)
  pub decided : Decided s'.heap s.heap ps (view st)
  pub others : (q : ℕ) → All (λ p. p ≢ q) ps → s'.heap q ≡ s.heap q
  pub results : s'.txn_results ≡ s.txn_results ++ ps
  pub drained : s'.txn_requests ≡ []

Decided-heap :
    (heap' heap heap₁ : ℕ → Object) (ps : List ℕ) (db : Database)
    → All (λ q. heap₁ q ≡ heap q) ps
    → Decided heap' heap₁ ps db
    → Decided heap' heap ps db
Decided-heap heap' heap heap₁ [] db h d = tt
Decided-heap heap' heap heap₁ (p ∷ ps) db h d =
    rw (← h.0) (d.0, Decided-heap heap' heap heap₁ ps _ h.1 d.1)

after_all-heap :
    (heap heap₁ : ℕ → Object) (ps : List ℕ) (db : Database)
    → All (λ q. heap₁ q ≡ heap q) ps
    → after_all heap₁ ps db ≡ after_all heap ps db
after_all-heap heap heap₁ [] db h = refl
after_all-heap heap heap₁ (p ∷ ps) db h = rw h.0 (after_all-heap heap heap₁ ps _ h.1)

idle_rounds :
    {L : Type 0} (s : Processor L) (cs : List Chance)
    → s.txn_requests ≡ []
    → run_serial_scheduler s cs ≡ ok s
unfolding run_serial_scheduler
idle_rounds s [] e = refl
idle_rounds s (c ∷ cs) e = rw (serial_round_idle s c e) (idle_rounds s cs e)

-- The first of the requests, then the others.
Finished-cons :
    {L : Type 0} {s s₁ s₂ : Processor L} {st st₁ st₂ : Storage} {p : ℕ} {ps : List ℕ}
    → All (λ q. q ≢ p) ps
    → Served s s₁ st st₁ p
    → Finished s₁ s₂ st₁ st₂ ps
    → Finished s s₂ st st₂ (p ∷ ps)
Finished-cons {s} {s₁} {s₂} {st} {st₁} {st₂} {p} {ps} apart v f = record {
  stored = f.stored;
  database =
      f.database ∙ after_all-heap s.heap s₁.heap ps _ same ∙ ap (after_all s.heap ps) v.database;
  decided = (
    rw (f.others p apart) v.decided,
    subst (Decided s₂.heap s.heap ps) v.database
        (Decided-heap s₂.heap s.heap s₁.heap ps _ same f.decided),
  );
  others = λ q h. f.others q h.1 ∙ v.others q (λ e. h.0 (sym e));
  results = f.results ∙ rw v.results (append_assoc s.txn_results (p ∷ []) ps);
  drained = f.drained;
}
  where
    same : All (λ q. s₁.heap q ≡ s.heap q) ps
    same = All-map (λ q. q ≢ p) (λ q. s₁.heap q ≡ s.heap q) v.others ps apart

IsFresh-left :
    {L : Type 0} {s s₁ : Processor L} {st st₁ : Storage} {p : ℕ} (ps : List ℕ)
    → All (λ q. q ≢ p) ps
    → Served s s₁ st st₁ p
    → All (λ q. IsFresh (s.heap q)) ps
    → All (λ q. IsFresh (s₁.heap q)) ps
IsFresh-left {s} {s₁} {p} ps apart v =
    All-zip (λ q. q ≢ p) (λ q. IsFresh (s.heap q)) (λ q. IsFresh (s₁.heap q))
      (λ q ne h. subst IsFresh (sym (v.others q ne)) h) ps apart

-- In a mode with the single-version storage, where each queued transaction is another and fresh, as a
-- client hands it in, not run, with empty buffers and with the keys that its program touches in its
-- sets: with a round for each request, in any number more, the scheduler serves all requests in the
-- order of their arrival: every transaction commits or aborts as the specification says on the database
-- that the earlier ones left, the storage ends as the specification's database, the results are the
-- requests in that order, and no other transaction changes. Nothing is said
-- of the multi-version storage, on which the scheduler of the MVCC mode runs the same loop.
pub run_serial_scheduler_lem :
    {L : Type 0} (s : Processor L) (st : Storage) (ps : List ℕ) (cs : List Chance)
    → s.storage ≡ single st
    → s.txn_requests ≡ ps
    → Distinct ps
    → All (λ p. IsFresh (s.heap p)) ps
    → length ps ≤ length cs
    → (st' : Storage) × (s' : Processor L) × (run_serial_scheduler s cs ≡ ok s')
      × Finished s s' st st' ps
unfolding run_serial_scheduler
run_serial_scheduler_lem s st [] cs stored queued distinct fresh rounds = (
  st,
  s,
  idle_rounds s cs queued,
  record {
    stored = stored;
    database = refl;
    decided = tt;
    others = λ q h. refl;
    results = sym (append-nil s.txn_results);
    drained = queued;
  },
)
run_serial_scheduler_lem s st (p ∷ ps) [] stored queued distinct fresh rounds = absurd (omega arith)
run_serial_scheduler_lem s st (p ∷ ps) (c ∷ cs) stored queued distinct fresh rounds =
    let (st₁, s₁, run, left, v) = serial_round_lem s st p ps c stored queued fresh.0 in
    let (st₂, s₂, runs, f) =
      run_serial_scheduler_lem s₁ st₁ ps cs v.stored left distinct.1
        (IsFresh-left ps distinct.0 v fresh.1) (omega arith) in
    (st₂, s₂, rw run runs, Finished-cons distinct.0 v f)
