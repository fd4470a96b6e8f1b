-- ===== src/Processor/Locking/Computed.antt =====
-- What a transaction that has run and not yet committed keeps, while others commit.
use cmcs624_fall.Common.{
  ℕ, ◌≡◌, refl, sym, ap, ◌∙◌, arith, true, false, ◌||◌, ◌&&◌, none, some, List, [], ◌∷◌,
  if◌then◌else◌, Bool-cases, inl, inr, Ascending,
}
use cmcs624_fall.Common.KeySet
use cmcs624_fall.Common.Map
use cmcs624_fall.Common.Map.{Map}
use cmcs624_fall.Txn.{Txn, completed_c, completed_a}
use cmcs624_fall.Txn.Programs.{Program, noop, expect, put, rmw, Object}
use cmcs624_fall.Txn.Programs.Runs.{
  written, lookup-increments, lookup-insert_all, Declared, IsDeclared, bumped,
}
use cmcs624_fall.Storage.{Storage}
use cmcs624_fall.Processor.{Chance, read_phase}
use cmcs624_fall.Processor.Phases.{over, insert_all-Ascending}
use cmcs624_fall.Processor.Spec.{Database, commits, committed_to, agrees, holds}
use cmcs624_fall.Processor.Execution.{
  view, IsFresh, seen, ran, status-ran, written-Ascending, written-committed_to,
}

lookup_outside :
    (ws : List ℕ) (j : ℕ) (m : Map ℕ)
    → KeySet.contains j ws ≡ false
    → Declared ws (Map.keys m)
    → Map.lookup j m ≡ none
lookup_outside ws j [] out d = refl
lookup_outside ws j ((k, v) ∷ m) out d = ground (arith, lookup_outside ws j m out d.1)

-- A transaction writes only what it declares.
pub committed_to-outside :
    (o : Object) (p : Program) (db : Database) (j : ℕ)
    → IsDeclared p o.txn
    → KeySet.contains j o.txn.writeset ≡ false
    → committed_to p o.txn.writeset db j ≡ db j
committed_to-outside o noop db j d out = refl
committed_to-outside o (expect m) db j d out = refl
committed_to-outside o (put m) db j d out = rw (lookup_outside o.txn.writeset j m out d.0) refl
committed_to-outside o (rmw time) db j d out = rw out refl

committed_to-same :
    (p : Program) (ws : List ℕ) (db db' : Database) (j : ℕ)
    → db' j ≡ db j
    → committed_to p ws db' j ≡ committed_to p ws db j
committed_to-same noop ws db db' j e = e
committed_to-same (expect m) ws db db' j e = e
committed_to-same (put m) ws db db' j e = ap (over (Map.lookup j m)) e
committed_to-same (rmw time) ws db db' j e =
    ap (λ v. if KeySet.contains j ws then some (bumped v) else v) e

-- Two databases hold the same under all keys that the transaction declares.
abbrev pub SameOn : Txn → Database → Database → Type 0
SameOn t db db' =
    (j : ℕ) → (KeySet.contains j t.readset || KeySet.contains j t.writeset) ≡ true → db' j ≡ db j

agrees-same :
    (t : Txn) (m : Map ℕ) (db db' : Database)
    → SameOn t db db'
    → Declared t.readset (Map.keys m)
    → agrees m db' ≡ agrees m db
agrees-same t [] db db' same d = refl
agrees-same t ((k, v) ∷ m) db db' same d =
    ap (λ w. holds w v && agrees m db') (same k (ground arith))
    ∙ ap (λ b. holds (db k) v && b) (agrees-same t m db db' same d.1)

commits-same :
    (o : Object) (p : Program) (db db' : Database)
    → IsDeclared p o.txn
    → SameOn o.txn db db'
    → commits p db' ≡ commits p db
commits-same o noop db db' d same = refl
commits-same o (expect m) db db' d same = agrees-same o.txn m db db' same d
commits-same o (put m) db db' d same = refl
commits-same o (rmw time) db db' d same = refl

-- `o` is the object `o₀` after its program has run, and what it has computed is what the specification
-- says on the database `db`.
pub record Computed (o₀ o : Object) (db : Database) : Type 0 where
  pub readset : o.txn.readset ≡ o₀.txn.readset
  pub writeset : o.txn.writeset ≡ o₀.txn.writeset
  pub status : o.txn.status ≡ (if commits o₀.program db then completed_c else completed_a)
  pub sorted : Ascending (Map.keys o.txn.writes)
  pub outside :
      (j : ℕ) → KeySet.contains j o₀.txn.writeset ≡ false → Map.lookup j o.txn.writes ≡ none
  pub inside :
      (j : ℕ)
      → over (Map.lookup j o.txn.writes) (db j) ≡ committed_to o₀.program o₀.txn.writeset db j

-- It stays so while nobody changes the records that it declares.
pub Computed-same :
    (o₀ o : Object) (db db' : Database)
    → IsDeclared o₀.program o₀.txn
    → SameOn o₀.txn db db'
    → Computed o₀ o db
    → Computed o₀ o db'
Computed-same o₀ o db db' d same c = record {
  readset = c.readset;
  writeset = c.writeset;
  status =
      c.status
      ∙ ap (λ b. if b then completed_c else completed_a)
          (sym (commits-same o₀ o₀.program db db' d same));
  sorted = c.sorted;
  outside = c.outside;
  inside = λ j. elim (Bool-cases (KeySet.contains j o₀.txn.writeset)) [
    | inl e ↦
        let here : db' j ≡ db j = same j (ground arith) in
        ap (over (Map.lookup j o.txn.writes)) here
        ∙ c.inside j
        ∙ sym (committed_to-same o₀.program o₀.txn.writeset db db' j here)
    | inr e ↦
        ap (λ v. over v (db' j)) (c.outside j e)
        ∙ sym (committed_to-outside o₀ o₀.program db' j d e)
  ];
}

module _ (s : Storage) (c : Chance) (o : Object) (fresh : IsFresh o) where
  written-outside :
      (p : Program) (j : ℕ)
      → IsDeclared p o.txn
      → KeySet.contains j o.txn.writeset ≡ false
      → Map.lookup j (written p (seen s c o fresh)) ≡ none
  unfolding written read_phase
  written-outside noop j d out = refl
  written-outside (expect m) j d out = refl
  written-outside (put m) j d out = lookup_outside o.txn.writeset j m out d.0
  written-outside (rmw time) j d out =
      lookup-increments (seen s c o fresh).reads o.txn.writeset j ∙ rw out refl

  lookup-ran :
      (j : ℕ)
      → Map.lookup j (ran s c o fresh).writes ≡ Map.lookup j (written o.program (seen s c o fresh))
  unfolding ran
  lookup-ran j = ground (
    arith,
    lookup-insert_all j (written o.program (seen s c o fresh)) []
        (written-Ascending s c o fresh o.program fresh.runnable.1),
  )

  pub ran-Computed : Computed o (record o { txn = ran s c o fresh }) (view s)
  unfolding ran read_phase
  ran-Computed = record {
    readset = refl;
    writeset = refl;
    status = status-ran s c o fresh;
    sorted = insert_all-Ascending (written o.program (seen s c o fresh)) [] tt;
    outside = λ j out. lookup-ran j ∙ written-outside o.program j fresh.runnable.1 out;
    inside = λ j.
        ap (λ v. over v (view s j)) (lookup-ran j) ∙ written-committed_to s c o fresh o.program j;
  }
