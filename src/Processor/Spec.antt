-- ===== src/Processor/Spec.antt =====
-- What the processor promises, with no queue, buffer or object: a database is a partial function,
-- and a transaction is one step of it.
use cmcs624_fall.Common.{
  ℕ, Bool, true, false, Option, none, some, List, [], ◌∷◌, ◌&&◌, if◌then◌else◌, ◌==◌,
}
use cmcs624_fall.Common.Map
use cmcs624_fall.Common.Map.{Map}
use cmcs624_fall.Common.KeySet
use cmcs624_fall.Txn.Programs.{Program, noop, expect, put, rmw}
use cmcs624_fall.Txn.Programs.Runs.{bumped}
use cmcs624_fall.Processor.Phases.{over}

abbrev pub Database : Type 0
Database = ℕ → Option ℕ

abbrev pub holds : Option ℕ → ℕ → Bool
holds none v = false
holds (some w) v = w == v

-- Every pair of the map is a record.
abbrev pub agrees : Map ℕ → Database → Bool
agrees [] db = true
agrees ((k, v) ∷ m) db = holds (db k) v && agrees m db

abbrev pub commits : Program → Database → Bool
commits (expect m) db = agrees m db
commits noop db = true
commits (put m) db = true
commits (rmw time) db = true

-- The database after a transaction with the write set `ws` commits.
abbrev pub committed_to : Program → List ℕ → Database → Database
committed_to noop ws db j = db j
committed_to (expect m) ws db j = db j
committed_to (put m) ws db j = over (Map.lookup j m) (db j)
committed_to (rmw time) ws db j = if KeySet.contains j ws then some (bumped (db j)) else db j

-- One transaction, all or nothing.
abbrev pub after : Program → List ℕ → Database → Database
after p ws db j = if commits p db then committed_to p ws db j else db j
