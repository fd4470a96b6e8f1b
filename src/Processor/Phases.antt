-- ===== src/Processor/Phases.antt =====
-- The read phase and the writes of a transaction on a single-version storage.
use cmcs624_fall.Common.{
  ℕ, suc, ◌≡◌, refl, inl, inr, Option-cases, arith, ◌||◌, Option, none, some, List, [], ◌∷◌,
  if◌then◌else◌, Ascending,
}
use cmcs624_fall.Common.Map
use cmcs624_fall.Common.Map.{Map}
use cmcs624_fall.Common.KeySet
use cmcs624_fall.Txn.{Txn}
use cmcs624_fall.Txn.Programs.Runs.{insert_all}
use cmcs624_fall.Storage.{Storage, read, write}
use cmcs624_fall.Processor.{
  single, store_read, store_write, Chance, read_keys, read_phase, apply_loop, apply_writes,
}

abbrev pub over : Option ℕ → Option ℕ → Option ℕ
over (some v) old = some v
over none old = old

read_keys-lookup :
    (s : Storage) (junk : ℕ) (ks : List ℕ) (reads : Map ℕ) (j : ℕ)
    → Map.lookup j (read_keys (single s) junk ks reads) ≡ (
        if KeySet.contains j ks
        then over (Map.lookup j s.records) (Map.lookup j reads)
        else Map.lookup j reads)
unfolding read_keys store_read read
read_keys-lookup s junk [] reads j = refl
read_keys-lookup s junk (k ∷ ks) reads j = elim (Option-cases (Map.lookup k s.records)) [
  | inl e ↦ ground (arith, read_keys-lookup s junk ks reads j)
  | inr (v, e) ↦
      ground
        (arith, read_keys-lookup s junk ks (Map.insert k v reads) j, Map.lookup-insert j k v reads)
]

-- A transaction sees exactly the records under the keys that it declares.
pub read_phase-lookup :
    (s : Storage) (c : Chance) (t : Txn) (j : ℕ)
    → t.reads ≡ []
    → Map.lookup j (read_phase (single s) c t).reads ≡ (
        if KeySet.contains j t.readset || KeySet.contains j t.writeset
        then Map.lookup j s.records
        else none)
unfolding read_phase
read_phase-lookup s c t j e = ground (
  arith,
  read_keys-lookup s c.junk t.writeset (read_keys (single s) c.junk t.readset t.reads) j,
  read_keys-lookup s c.junk t.readset t.reads j,
)

apply_loop_lem :
    (s : Storage) (clock : ℕ → ℕ) (id i : ℕ) (m : Map ℕ)
    → (times : Map ℕ) × (apply_loop (single s) clock id i m
        ≡ single (record { records = insert_all m s.records; timestamps = times }))
unfolding apply_loop store_write write insert_all
apply_loop_lem s clock id i [] = (s.timestamps, refl)
apply_loop_lem s clock id i ((k, v) ∷ m) = apply_loop_lem (write s k v (clock i)) clock id (suc i) m

pub insert_all-Ascending :
    (m w : Map ℕ) → Ascending (Map.keys w) → Ascending (Map.keys (insert_all m w))
unfolding insert_all
insert_all-Ascending [] w a = a
insert_all-Ascending ((k, v) ∷ m) w a =
    insert_all-Ascending m (Map.insert k v w) (Map.insert-Ascending k v w a)

pub apply_writes_lem :
    (s : Storage) (c : Chance) (t : Txn)
    → (times : Map ℕ) × (apply_writes (single s) c t
        ≡ single (record { records = insert_all t.writes s.records; timestamps = times }))
unfolding apply_writes
apply_writes_lem s c t = apply_loop_lem s c.write_time t.unique_id 0 t.writes
