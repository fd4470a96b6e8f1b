-- ===== src/Processor/Execution.antt =====
-- `ExecuteTxn` on one transaction that a client has just handed in, against the specification.
use cmcs624_fall.Common.{ℕ, ◌≡◌, refl, arith, [], ◌∷◌, if◌then◌else◌, Ascending, ok}
use cmcs624_fall.Common.Map
use cmcs624_fall.Common.Map.{Map}
use cmcs624_fall.Txn.{Txn, incomplete, completed_c, completed_a}
use cmcs624_fall.Txn.Programs.{Program, noop, expect, put, rmw, Object, run}
use cmcs624_fall.Txn.Programs.Runs.{
  insert_all, run_lem, written, votes_commit, matches, lookup-increments, keys-increments,
  lookup-insert_all, Declared, IsDeclared,
}
use cmcs624_fall.Txn.Programs.Constructors.{IsRunnable}
use cmcs624_fall.Storage.{Storage}
use cmcs624_fall.Processor.{single, Chance, read_phase}
use cmcs624_fall.Processor.Phases.{over, read_phase-lookup, insert_all-Ascending}
use cmcs624_fall.Processor.Spec.{Database, commits, committed_to, agrees}

abbrev pub view : Storage → Database
view s j = Map.lookup j s.records

-- A transaction as a client hands it in.
pub record IsFresh (o : Object) : Type 0 where
  pub runnable : IsRunnable o
  pub no_reads : o.txn.reads ≡ []
  pub no_writes : o.txn.writes ≡ []

module _ (s : Storage) (c : Chance) (o : Object) (fresh : IsFresh o) where
  abbrev pub seen : Txn
  seen = read_phase (single s) c o.txn

  matches-agrees :
      (m : Map ℕ) → Declared o.txn.readset (Map.keys m) → matches seen.reads m ≡ agrees m (view s)
  unfolding matches
  matches-agrees [] d = refl
  matches-agrees ((k, v) ∷ m) d =
      ground (arith, matches-agrees m d.1, read_phase-lookup s c o.txn k fresh.no_reads)

  pub votes_commit-commits :
      (p : Program) → IsDeclared p o.txn → votes_commit p seen ≡ commits p (view s)
  unfolding votes_commit
  votes_commit-commits noop d = refl
  votes_commit-commits (expect m) d = matches-agrees m d
  votes_commit-commits (put m) d = refl
  votes_commit-commits (rmw time) d = refl

  pub written-committed_to :
      (p : Program) (j : ℕ)
      → over (Map.lookup j (written p seen)) (view s j) ≡ committed_to p o.txn.writeset (view s) j
  unfolding written read_phase
  written-committed_to noop j = refl
  written-committed_to (expect m) j = refl
  written-committed_to (put m) j = refl
  written-committed_to (rmw time) j = ground (
    arith,
    lookup-increments seen.reads o.txn.writeset j,
    read_phase-lookup s c o.txn j fresh.no_reads,
  )

  pub written-Ascending : (p : Program) → IsDeclared p o.txn → Ascending (Map.keys (written p seen))
  unfolding written read_phase
  written-Ascending noop d = tt
  written-Ascending (expect m) d = tt
  written-Ascending (put m) d = d.1
  written-Ascending (rmw time) d = rw (keys-increments seen.reads o.txn.writeset) d.2

  -- The transaction when its `Run` has ended.
  unfoldable pub ran : Txn
  ran = record seen {
    writes = insert_all (written o.program seen) [];
    reads = insert_all (written o.program seen) seen.reads;
    status = if votes_commit o.program seen then completed_c else completed_a;
  }

  IsDeclared-seen : (p : Program) → IsDeclared p o.txn → IsDeclared p seen
  unfolding read_phase
  IsDeclared-seen noop d = d
  IsDeclared-seen (expect m) d = d
  IsDeclared-seen (put m) d = d
  IsDeclared-seen (rmw time) d = d

  no_writes-seen : seen.writes ≡ []
  unfolding read_phase
  no_writes-seen = fresh.no_writes

  status-seen : seen.status ≡ incomplete
  unfolding read_phase
  status-seen = fresh.runnable.0

  pub status-ran : ran.status ≡ (if commits o.program (view s) then completed_c else completed_a)
  unfolding ran
  status-ran = ground (arith, votes_commit-commits o.program fresh.runnable.1)

  pub run-ran : run o.program seen c.junk ≡ ok ran
  unfolding ran
  run-ran = ground (
    arith,
    run_lem o.program seen c.junk status-seen (IsDeclared-seen o.program fresh.runnable.1),
    no_writes-seen,
  )

  pub writes-committed_to :
      (j : ℕ)
      → Map.lookup j (insert_all ran.writes s.records)
        ≡ committed_to o.program o.txn.writeset (view s) j
  unfolding ran
  writes-committed_to j = ground (
    arith,
    lookup-insert_all j (insert_all (written o.program seen) []) s.records
        (insert_all-Ascending (written o.program seen) [] tt),
    lookup-insert_all j (written o.program seen) [] (written-Ascending o.program fresh.runnable.1),
    written-committed_to o.program j,
  )
