-- ===== src/Processor/Locking/Requesting.antt =====
-- A client hands in a transaction while the locking scheduler runs.
use native.Mathlib.Decide.{ℕ_discrete}
use cmcs624_fall.Common.{
  ℕ, ◌+◌, ◌-◌, ◌^◌, ◌≡◌, ◌≢◌, ◌||◌, refl, sym, ap, subst, ◌∙◌, arith, Bool, true, false, ltb, ok,
  died, ◌>>◌, check, List, [], ◌∷◌, ◌++◌, if◌then◌else◌, count, count-append, count-apart,
}
use cmcs624_fall.Common.KeySet
use mathlib.Core.Option.{some-ne-none, some-injective}
use cmcs624_fall.Common.{some}
use cmcs624_fall.Processor.{result_from, get_txn_result}
use cmcs624_fall.LockManager.{LockManager}
use cmcs624_fall.Storage.{Storage}
use cmcs624_fall.Txn.{Txn, committed, aborted}
use cmcs624_fall.Txn.Programs.{Program, noop, expect, put, rmw, Object}
use cmcs624_fall.Txn.Programs.Runs.{IsDeclared}
use cmcs624_fall.Processor.Locking.Computed.{Computed}
use cmcs624_fall.Processor.{Processor, update, new_txn_request}
use cmcs624_fall.Processor.Spec.{Database, commits, after}
use cmcs624_fall.Processor.Execution.{view}
use cmcs624_fall.Processor.History.{after_all, Decided}
use cmcs624_fall.Processor.Locking.Contract.{Contract}
use cmcs624_fall.Processor.Locking.Places.{places, beq-count, miss}
use cmcs624_fall.Processor.Locking.Isolation.{
  Isolation, by_locks, by_keys, wanted_by, Apart, Isolated,
}
use cmcs624_fall.Processor.Locking.Executing.{ok-same}
use cmcs624_fall.Processor.Locking.Invariant.{
  IsRequestable, Inv, Decided-update, update-here, update-else,
}

abbrev pub identified : Object → ℕ → Object
identified o id = record o { txn = record (o.txn) { unique_id = id } }

abbrev pub requested : {L : Type 0} → Processor L → ℕ → Processor L
requested s p = record s {
  heap = update s.heap p (identified (s.heap p) s.next_unique_id);
  next_unique_id = s.next_unique_id + 1;
  txn_requests = s.txn_requests ++ p ∷ [];
}

pub died≢ok : {A : Type 0} {a : A} → died ≡ ok a → ⊥
died≢ok e = cc

checked : {A : Type 0} (b : Bool) (a a' : A) → (check b >> ok a) ≡ ok a' → a ≡ a'
checked true a a' e = ok-same e
checked false a a' e = absurd (died≢ok e)

-- A call that returns has given the transaction the next number and has put it in the queue.
pub new_txn_request-requested :
    {L : Type 0} (s s' : Processor L) (p : ℕ) → new_txn_request s p ≡ ok s' → requested s p ≡ s'
unfolding new_txn_request
new_txn_request-requested s s' p e =
    checked (ltb s.next_unique_id (2 ^ 31 - 1)) (requested s p) s' e

took :
    {L : Type 0} (s s' : Processor L) (p : ℕ) (results : List ℕ)
    → result_from s results ≡ some (p, s')
    → (rest : List ℕ) × (results ≡ p ∷ rest) × (record s { txn_results = rest } ≡ s')
took s s' p [] e = absurd (some-ne-none (p, s') (sym e))
took s s' p (q ∷ rest) e =
    let same = some-injective (q, record s { txn_results = rest }) (p, s') e in
    (rest, ap (λ x. x ∷ rest) (ap (λ x. x.0) same), ap (λ x. x.1) same)

-- A call that returns has taken the oldest result from the queue.
pub get_txn_result-took :
    {L : Type 0} (s s' : Processor L) (p : ℕ)
    → get_txn_result s ≡ some (p, s')
    → (rest : List ℕ) × (s.txn_results ≡ p ∷ rest) × (record s { txn_results = rest } ≡ s')
unfolding get_txn_result
get_txn_result-took s s' p e = took s s' p s.txn_results e

-- Objects that differ in the number of the transaction at most.
abbrev pub SameButIds : (ℕ → Object) → (ℕ → Object) → Type 0
SameButIds h₀ h = (q : ℕ) → (id : ℕ) × (h q ≡ identified (h₀ q) id)

pub SameButIds-refl : (h : ℕ → Object) → SameButIds h h
SameButIds-refl h q = ((h q).txn.unique_id, refl)

pub SameButIds-update :
    (h₀ h : ℕ → Object) (p n : ℕ)
    → SameButIds h₀ h
    → SameButIds h₀ (update h p (identified (h p) n))
SameButIds-update h₀ h p n same q = elim (ℕ_discrete q p) [
  | yes e ↦ (
    n,
    ap (update h p (identified (h p) n)) e
        ∙ update-here h p (identified (h p) n)
        ∙ ap (λ o. identified o n) (same p).1
        ∙ ap (λ x. identified (h₀ x) n) (sym e),
  )
  | no ne ↦ ((same q).0, update-else h p q (identified (h p) n) ne ∙ (same q).1)
]

pub SameButIds-sym : (h₀ h : ℕ → Object) → SameButIds h₀ h → SameButIds h h₀
SameButIds-sym h₀ h same q =
    ((h₀ q).txn.unique_id, ap (λ o. identified o (h₀ q).txn.unique_id) (sym (same q).1))

IsDeclared-id :
    (p : Program) (t : Txn) (n : ℕ) → IsDeclared p t → IsDeclared p (record t { unique_id = n })
IsDeclared-id noop t n d = d
IsDeclared-id (expect m) t n d = d
IsDeclared-id (put m) t n d = d
IsDeclared-id (rmw time) t n d = d

pub SameButIds-requestable :
    (h₀ h : ℕ → Object) → SameButIds h₀ h → (q : ℕ) → IsRequestable (h₀ q) → IsRequestable (h q)
SameButIds-requestable h₀ h same q r = subst IsRequestable (sym (same q).1) (record {
  fresh = record {
    runnable =
        (r.fresh.runnable.0, IsDeclared-id (h₀ q).program (h₀ q).txn (same q).0 r.fresh.runnable.1);
    no_reads = r.fresh.no_reads;
    no_writes = r.fresh.no_writes;
  };
  readset_ascending = r.readset_ascending;
  writeset_ascending = r.writeset_ascending;
  no_overlap = r.no_overlap;
})

-- The specification does not look at the numbers.
pub after_all-same :
    (h₀ h : ℕ → Object)
    → SameButIds h₀ h
    → (ps : List ℕ) (db : Database) → after_all h ps db ≡ after_all h₀ ps db
after_all-same h₀ h same [] db = refl
after_all-same h₀ h same (p ∷ ps) db =
    ap (after_all h ps) (ap (λ (o : Object). after o.program o.txn.writeset db) (same p).1)
    ∙ after_all-same h₀ h same ps _

pub Decided-ids :
    (heap h₀ h : ℕ → Object)
    → SameButIds h₀ h
    → (ps : List ℕ) (db : Database) → Decided heap h ps db
    → Decided heap h₀ ps db
Decided-ids heap h₀ h same [] db d = tt
Decided-ids heap h₀ h same (p ∷ ps) db d = (
  d.0 ∙ ap (λ (o : Object). if commits o.program db then committed else aborted) (same p).1,
  Decided-ids heap h₀ h same ps _ (
      subst (λ (o : Object). Decided heap h ps (after o.program o.txn.writeset db)) (same p).1 d.1),
)

pub requested-places :
    {L : Type 0} (waits : L → ℕ → ℕ) (s : Processor L) (p q : ℕ)
    → places waits (requested s p) q ≡ places waits s q + count q (p ∷ [])
requested-places waits s p q = omega (arith, count-append q s.txn_requests (p ∷ []))

Apart-same : (h₀ h : ℕ → Object) → SameButIds h₀ h → Apart h₀ → Apart h
Apart-same h₀ h same apart p q ne j declared =
    ap (λ (o : Object). KeySet.contains j o.txn.writeset) (same p).1
    ∙ apart p q ne j (
        sym (
          ap (λ (o : Object). KeySet.contains j o.txn.readset || KeySet.contains j o.txn.writeset)
            (same q).1)
        ∙ declared)

-- The call changes no lock and no queue that tells who has asked for one.
requested-Isolated :
    {L : Type 0} (lm : LockManager L) (contract : Contract L lm) (iso : Isolation lm)
    (s₀ : Processor L) (h : ℕ → Object) (s : Processor L) (p : ℕ)
    → SameButIds s₀.heap h
    → Isolated lm contract iso s₀ s
    → Isolated lm contract iso (record s₀ { heap = h }) (requested s p)
requested-Isolated lm contract (by_locks ex) s₀ h s p same locked = record {
  valid = locked.valid;
  unasked = locked.unasked;
  asking = λ q a j. locked.asking q a j ∙ ap (λ (x : Object). wanted_by lm ex x j) (sym (same q).1);
  holding = locked.holding;
}
requested-Isolated lm contract by_keys s₀ h s p same apart = Apart-same s₀.heap h same apart

module _ {L : Type 0} (lm : LockManager L) (contract : Contract L lm) (iso : Isolation lm)
    (s₀ : Processor L) (st₀ : Storage) (s : Processor L) (inv : Inv lm contract iso s₀ st₀ s)
    (p : ℕ) (nowhere : places contract.waits s p ≡ 0) where
  abbrev pub known : Processor L
  known = record s₀ { heap = update s₀.heap p (identified (s₀.heap p) s.next_unique_id) }

  pub requested-Inv : Inv lm contract iso known st₀ (requested s p)
  requested-Inv =
      let o = identified (s.heap p) s.next_unique_id in
      let o' = identified (s₀.heap p) s.next_unique_id in
      let same : SameButIds s₀.heap known.heap =
        SameButIds-update s₀.heap s₀.heap p s.next_unique_id (SameButIds-refl s₀.heap) in
      record {
        store = inv.store;
        done = inv.done;
        stored = inv.stored;
        results = inv.results;
        database = inv.database ∙ sym (after_all-same s₀.heap known.heap same inv.done (view st₀));
        decided =
            Decided-ids (update s.heap p o) known.heap s₀.heap
              (SameButIds-sym s₀.heap known.heap same) inv.done (view st₀)
              (Decided-update s.heap s₀.heap p o inv.done (view st₀)
                (count-apart p inv.done (
                  omega (
                    arith,
                    nowhere,
                    ap (count p) inv.results,
                    count-append p s₀.txn_results inv.done,
                  )))
                inv.decided);
        once = λ q. elim (ℕ_discrete q p) [
          | yes e ↦ omega (
            arith,
            requested-places contract.waits s p q,
            ap (places contract.waits s) e ∙ nowhere,
            ap (λ x. count x (p ∷ [])) e,
            sym (beq-count p),
          )
          | no ne ↦ omega (arith, requested-places contract.waits s p q, inv.once q, miss q p ne)
        ];
        untouched = λ q h. elim (ℕ_discrete q p) [
          | yes e ↦
              ap (update s.heap p o) e
              ∙ update-here s.heap p o
              ∙ ap (λ x. identified x s.next_unique_id) (inv.untouched p (omega (arith, nowhere)))
              ∙ sym (ap (update s₀.heap p o') e ∙ update-here s₀.heap p o')
          | no ne ↦
              update-else s.heap p q o ne ∙ inv.untouched q h ∙ sym (update-else s₀.heap p q o' ne)
        ];
        isolated = requested-Isolated lm contract iso s₀ known.heap s p same inv.isolated;
        computed = λ q h.
            let ne : q ≢ p = λ e. omega (arith, h, nowhere, ap (λ x. count x s.completed_txns) e) in
            subst (λ x. Computed x (update s.heap p o q) (view inv.store))
              (sym (update-else s₀.heap p q o' ne))
              (subst (λ x. Computed (s₀.heap q) x (view inv.store))
                (sym (update-else s.heap p q o ne)) (inv.computed q h));
      }
