-- ===== src/Txn/Programs/Runs.antt =====
-- What `Run` does, for each program of a2/txn/txn_types.h on a transaction that has not run yet.
use cmcs624_fall.Common.{
  ℕ, ◌+◌, ◌%◌, ◌^◌, ◌≡◌, refl, ap, ◌↔◌, ◌<◌, Option-cases, inl, inr, Bool, true, false, Option,
  none, some, List, [], ◌∷◌, ◌&&◌, if◌then◌else◌, ◌==◌, ok, All, Ascending, arith,
}
use cmcs624_fall.Common.Map
use cmcs624_fall.Common.Map.{Map}
use cmcs624_fall.Common.KeySet
use cmcs624_fall.Txn.{Txn, completed_c, completed_a, incomplete, read, write}
use cmcs624_fall.Txn.Programs.{
  Program, noop, expect, put, rmw, expect_loop, put_loop, read_loop, increment_loop, run, commit,
  abort,
}

abbrev pub Declared : List ℕ → List ℕ → Type 0
Declared set ks = All (λ k. KeySet.contains k set ≡ true) ks

-- `over m w` is `w` with the pairs of `m` written over it.
unfoldable pub insert_all : Map ℕ → Map ℕ → Map ℕ
insert_all [] w = w
insert_all ((k, v) ∷ m) w = insert_all m (Map.insert k v w)

pub lookup-insert_all :
    (j : ℕ) (m w : Map ℕ)
    → Ascending (Map.keys m)
    → Map.lookup j (insert_all m w)
      ≡ elim (Map.lookup j m) [ none ↦ Map.lookup j w | some v ↦ some v ]
unfolding insert_all
lookup-insert_all j [] w a = refl
lookup-insert_all j ((k, v) ∷ m) w a = ground (
  arith,
  lookup-insert_all j m (Map.insert k v w) a.1,
  Map.lookup-insert j k v w,
  Map.lookup_below k m a.0,
)

put_loop_lem :
    (t : Txn) (m : Map ℕ)
    → t.status ≡ incomplete
    → Declared t.writeset (Map.keys m)
    → put_loop t m ≡ ok (record t { writes = insert_all m t.writes; reads = insert_all m t.reads })
unfolding put_loop insert_all write
put_loop_lem t [] inc d = refl
put_loop_lem t ((k, v) ∷ m) inc d = ground (
  arith,
  put_loop_lem (record t { writes = Map.insert k v t.writes; reads = Map.insert k v t.reads }) m inc
      d.1,
)

-- Every pair of the map is what the transaction read.
abbrev pub Matches : Map ℕ → Map ℕ → Type 0
Matches reads [] = Unit
Matches reads ((k, v) ∷ m) = (Map.lookup k reads ≡ some v) × Matches reads m

has_value : Option ℕ → ℕ → Bool
has_value none v = false
has_value (some w) v = w == v

unfoldable pub matches : Map ℕ → Map ℕ → Bool
unfolding has_value
matches reads [] = true
matches reads ((k, v) ∷ m) = has_value (Map.lookup k reads) v && matches reads m

matches_iff : (reads m : Map ℕ) → (matches reads m ≡ true) ↔ Matches reads m
unfolding matches
matches_iff reads [] = (λ _. tt, λ _. refl)
matches_iff reads ((k, v) ∷ m) =
    (λ h. ground (arith, (matches_iff reads m).0), λ h. ground (arith, (matches_iff reads m).1 h.1))

-- The value of the local variable `result` has no part in the decision.
expect_loop_lem :
    (t : Txn) (m : Map ℕ) (result : ℕ)
    → t.status ≡ incomplete
    → Declared t.readset (Map.keys m)
    → expect_loop t m result ≡ ok (if matches t.reads m then commit t else abort t)
unfolding expect_loop read matches
expect_loop_lem t [] result inc d = refl
expect_loop_lem t ((k, v) ∷ m) result inc d = elim (Option-cases (Map.lookup k t.reads)) [
  | inl e ↦ ground arith
  | inr (w, e) ↦ ground (arith, expect_loop_lem t m w inc d.1)
]

-- The value that `Read` leaves in a variable that held 0.
abbrev pub read_or_zero : Option ℕ → ℕ
read_or_zero none = 0
read_or_zero (some v) = v

abbrev pub bumped : Option ℕ → ℕ
bumped seen = (read_or_zero seen + 1) % 2 ^ 64

-- The pairs that `RMW` writes.
unfoldable pub increments : Map ℕ → List ℕ → Map ℕ
increments reads [] = []
increments reads (k ∷ ks) = (k, bumped (Map.lookup k reads)) ∷ increments reads ks

increments-insert :
    (k v : ℕ) (reads : Map ℕ) (ks : List ℕ)
    → All (λ j. k < j) ks
    → increments (Map.insert k v reads) ks ≡ increments reads ks
unfolding increments
increments-insert k v reads [] a = refl
increments-insert k v reads (j ∷ ks) a =
    ground (arith, increments-insert k v reads ks a.1, Map.lookup-insert j k v reads)

pub keys-increments : (reads : Map ℕ) (ks : List ℕ) → Map.keys (increments reads ks) ≡ ks
unfolding increments
keys-increments reads [] = refl
keys-increments reads (k ∷ ks) = ap (◌∷◌ k) (keys-increments reads ks)

pub lookup-increments :
    (reads : Map ℕ) (ks : List ℕ) (j : ℕ)
    → Map.lookup j (increments reads ks)
      ≡ (if KeySet.contains j ks then some (bumped (Map.lookup j reads)) else none)
unfolding increments
lookup-increments reads [] j = refl
lookup-increments reads (k ∷ ks) j = ground (arith, lookup-increments reads ks j)

increment_loop_lem :
    (t : Txn) (ks : List ℕ)
    → t.status ≡ incomplete
    → Declared t.writeset ks
    → Ascending ks
    → increment_loop t ks
      ≡ ok (record t {
        writes = insert_all (increments t.reads ks) t.writes;
        reads = insert_all (increments t.reads ks) t.reads;
      })
unfolding increment_loop insert_all increments read write
increment_loop_lem t [] inc d a = refl
increment_loop_lem t (k ∷ ks) inc d a =
    let v : ℕ = bumped (Map.lookup k t.reads) in
    let t' : Txn = record t { writes = Map.insert k v t.writes; reads = Map.insert k v t.reads } in
    ground (arith, increment_loop_lem t' ks inc d.1 a.1, increments-insert k v t.reads ks a.0)

read_loop_lem :
    (t : Txn) (ks : List ℕ) (result : ℕ) → Declared t.readset ks → read_loop t ks result ≡ ok tt
unfolding read_loop read
read_loop_lem t [] result d = refl
read_loop_lem t (k ∷ ks) result d = elim (Option-cases (Map.lookup k t.reads)) [
  | inl e ↦ ground (arith, read_loop_lem t ks result d.1)
  | inr (w, e) ↦ ground (arith, read_loop_lem t ks w d.1, read_loop_lem t ks result d.1)
]

-- What a program asks of the sets that its transaction declares.
abbrev pub IsDeclared : Program → Txn → Type 0
IsDeclared noop t = Unit
IsDeclared (expect m) t = Declared t.readset (Map.keys m)
IsDeclared (put m) t = Declared t.writeset (Map.keys m) × Ascending (Map.keys m)
IsDeclared (rmw time) t =
    Declared t.readset t.readset × Declared t.writeset t.writeset × Ascending t.writeset

-- What a program writes, of what its transaction has read.
unfoldable pub written : Program → Txn → Map ℕ
unfolding increments
written noop t = []
written (expect m) t = []
written (put m) t = m
written (rmw time) t = increments t.reads t.writeset

-- Whether a program votes to commit.
unfoldable pub votes_commit : Program → Txn → Bool
unfolding matches
votes_commit noop t = true
votes_commit (expect m) t = matches t.reads m
votes_commit (put m) t = true
votes_commit (rmw time) t = true

-- Every program whose keys are declared runs to its end without stopping the process: it buffers
-- exactly the pairs of `written` over the earlier writes and reads, votes as `votes_commit` says,
-- and changes nothing else of the transaction. The uninitialised `result` has no part in it.
pub run_lem :
    (p : Program) (t : Txn) (result : ℕ)
    → t.status ≡ incomplete
    → IsDeclared p t
    → run p t result
      ≡ ok (record t {
        writes = insert_all (written p t) t.writes;
        reads = insert_all (written p t) t.reads;
        status = if votes_commit p t then completed_c else completed_a;
      })
unfolding run written votes_commit insert_all
run_lem noop t result inc d = refl
run_lem (expect m) t result inc d = ground (arith, expect_loop_lem t m result inc d)
run_lem (put m) t result inc d = ground (arith, put_loop_lem t m inc d.0)
run_lem (rmw time) t result inc d =
    ground
      (arith, read_loop_lem t t.readset result d.0, increment_loop_lem t t.writeset inc d.1 d.2)

-- `Expect` votes to commit exactly when every pair of its map is what the transaction read, and
-- `RMW` writes to each key of its write set one more than was read there, modulo 2^64, a missing
-- record counting as 0, and to no other key.
pub votes_and_increments :
    (t : Txn) (m : Map ℕ) (time j : ℕ)
    → ((votes_commit (expect m) t ≡ true) ↔ Matches t.reads m)
      × (Map.lookup j (written (rmw time) t)
          ≡ (if KeySet.contains j t.writeset then some (bumped (Map.lookup j t.reads)) else none))
unfolding votes_commit written
votes_and_increments t m time j = (matches_iff t.reads m, lookup-increments t.reads t.writeset j)
