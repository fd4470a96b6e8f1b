-- ===== src/Txn/Programs/Constructors.antt =====
-- What the constructors and `clone` of a2/txn/txn_types.h promise.
use cmcs624_fall.Common.{ℕ, ◌≡◌, refl, true, List, [], ◌∷◌, All-map, Ascending, arith, ap}
use cmcs624_fall.Common.Map
use cmcs624_fall.Common.Map.{Map}
use cmcs624_fall.Common.KeySet
use cmcs624_fall.Txn.{Txn, incomplete}
use cmcs624_fall.Txn.Programs.{
  Program, noop, expect, put, rmw, Object, insert_keys, new_noop, new_expect, new_put, new_rmw,
  clone_program, clone,
}
use cmcs624_fall.Txn.Programs.Runs.{Declared, IsDeclared}

insert_keys-contains :
    (m : Map ℕ) (s : List ℕ) (j : ℕ)
    → KeySet.contains j s ≡ true
    → KeySet.contains j (insert_keys m s) ≡ true
unfolding insert_keys
insert_keys-contains [] s j h = h
insert_keys-contains ((k, v) ∷ m) s j h =
    ground (arith, insert_keys-contains m (KeySet.insert k s) j, KeySet.contains-insert j k s)

insert_keys-Declared : (m : Map ℕ) (s : List ℕ) → Declared (insert_keys m s) (Map.keys m)
unfolding insert_keys
insert_keys-Declared [] s = tt
insert_keys-Declared ((k, v) ∷ m) s = (
  insert_keys-contains m (KeySet.insert k s) k (ground (arith, KeySet.contains-insert k k s)),
  insert_keys-Declared m (KeySet.insert k s),
)

Declared-self : (s : List ℕ) → Declared s s
Declared-self [] = tt
Declared-self (j ∷ s) = (
  ground arith,
  All-map (λ k. KeySet.contains k s ≡ true) (λ k. KeySet.contains k (j ∷ s) ≡ true)
      (λ k h. ground arith) s (Declared-self s),
)

abbrev pub IsRunnable : Object → Type 0
IsRunnable o = (o.txn.status ≡ incomplete) × IsDeclared o.program o.txn

-- Every constructor makes a transaction that has not run and whose program stays within the keys
-- that it declares, whatever its memory held before.
pub new-IsRunnable :
    (m : Map ℕ) (readset writeset : List ℕ) (time : ℕ) (unset : Txn)
    → Ascending (Map.keys m)
    → Ascending writeset
    → IsRunnable (new_noop unset)
      × IsRunnable (new_expect m unset)
      × IsRunnable (new_put m unset)
      × IsRunnable (new_rmw readset writeset time unset)
unfolding new_noop new_expect new_put new_rmw
new-IsRunnable m readset writeset time unset am aw = (
  (refl, tt),
  (refl, insert_keys-Declared m []),
  (refl, (insert_keys-Declared m [], am)),
  (refl, (Declared-self readset, Declared-self writeset, aw)),
)

clone_program-program : (p : Program) (unset : Txn) → (clone_program p unset).program ≡ p
unfolding clone_program
clone_program-program noop unset = refl
clone_program-program (expect m) unset = refl
clone_program-program (put m) unset = refl
clone_program-program (rmw time) unset = refl

-- A clone is equal to the object that it was made of, also in what its constructor had set.
pub clone_lem : (o : Object) (unset : Txn) → clone o unset ≡ o
unfolding clone
clone_lem o unset =
    ap (λ p. record { program = p; txn = o.txn }) (clone_program-program o.program unset)
