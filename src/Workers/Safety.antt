-- ===== src/Workers/Safety.antt =====
-- The invariant at every state that the workers reach, and who has which lock.
use native.Mathlib.Decide.{ℕ_discrete}
use cmcs624_fall.Common.{
  ℕ, ◌*◌, ◌<◌, ◌≡◌, refl, arith, true, not, ◌&&◌, List, Ascending, beq_refl, beq_of_ne,
}
use cmcs624_fall.Common.KeySet
use cmcs624_fall.Common.Sort.{Distinct, sort-Ascending}
use cmcs624_fall.Common.Sums.{total-zero}
use cmcs624_fall.Mutex.{held}
use cmcs624_fall.Words.{Bytes, load64-lt}
use cmcs624_fall.Database.{field_size}
use cmcs624_fall.Request.{Request}
use cmcs624_fall.Request.Order.{AllBytes}
use cmcs624_fall.Workers.{locking, keys, holds, System, Step, pick, init, Reach, start, later}
use cmcs624_fall.Workers.Keys.{IsRest-all}
use cmcs624_fall.Workers.Changes.{LockChange, FieldChange, lock_change, field_change}
use cmcs624_fall.Workers.Invariant.{Inv, amount}
use cmcs624_fall.Workers.Moves.{Move-Wf, locked-change, covered-change, unique-change}
use cmcs624_fall.Workers.Records.{others-Wf, fields-change, gaps-change, bytes-change}

init-holds : (ks : List ℕ) (k : ℕ) → (KeySet.contains k ks && not (KeySet.contains k ks)) ≡ true → ⊥
init-holds ks k h = ground arith

ascending :
    (requests : ℕ → Request)
    → ((i : ℕ) → Distinct (requests i).writeset)
    → (i : ℕ) → Ascending (keys (requests i))
ascending requests distinct i = sort-Ascending (requests i).writeset (distinct i)

module _ {n : ℕ} {requests : ℕ → Request} {base : ℕ → Bytes}
    (distinct : (i : ℕ) → Distinct (requests i).writeset) (bytes : AllBytes base) where
  Inv-init : Inv n requests base (init requests base)
  Inv-init = record {
    wf = λ i. IsRest-all (keys (requests i)) (ascending requests distinct i);
    locked = λ i k h. absurd (init-holds (keys (requests i)) k h);
    covered = λ k h. cc;
    unique = λ i j k h h'. absurd (init-holds (keys (requests i)) k h);
    fields = λ k m lt. omega (
      arith,
      load64-lt (base k) (m * field_size) (bytes k),
      total-zero n (λ i. amount (requests i) (locking (keys (requests i))) k m) (λ j h. refl),
    );
    gaps = λ k j g. refl;
    bytes = bytes;
  }

  pub Step-Inv :
      {s t : System} → Inv n requests base s → Step n requests s t → Inv n requests base t
  Step-Inv {s} inv (pick i {m} {stage = p'} lt mv) = record {
    wf = λ j. elim (ℕ_discrete j i) [
      | yes same ↦ rw (same, beq_refl i) (Move-Wf (ascending requests distinct i) mv (inv.wf i))
      | no ne ↦ rw (beq_of_ne j i ne) (others-Wf inv i lt p' fc j ne)
    ];
    locked = locked-change inv i lt p' lc;
    covered = covered-change inv i lt p' lc;
    unique = unique-change inv i lt p' lc;
    fields = fields-change inv i lt p' fc;
    gaps = gaps-change inv i lt p' fc;
    bytes = bytes-change inv i lt p' fc;
  }
    where
      lc : LockChange (requests i) s.mem m (s.stage i) p'
      lc = lock_change mv (inv.wf i)

      fc : FieldChange (requests i) s.mem m (s.stage i) p'
      fc = field_change mv (inv.wf i)

  pub Reach-Inv : {s : System} → Reach n requests base s → Inv n requests base s
  Reach-Inv start = Inv-init
  Reach-Inv (later r st) = Step-Inv (Reach-Inv r) st

-- In every interleaving of requests with distinct keys no two workers have the lock of one record,
-- and the mutex of a record is held if, and only if, some worker has it.
pub mutual_exclusion :
    {n : ℕ} {requests : ℕ → Request} {base : ℕ → Bytes} {s : System}
    → ((i : ℕ) → Distinct (requests i).writeset)
    → AllBytes base
    → Reach n requests base s
    → ((i j k : ℕ)
        → holds (requests i) (s.stage i) k ≡ true
        → holds (requests j) (s.stage j) k ≡ true
        → i ≡ j)
      × ((k : ℕ)
          → (s.mem.locks k ≡ held → (i : ℕ) × (i < n) × (holds (requests i) (s.stage i) k ≡ true))
            × ((i : ℕ) → holds (requests i) (s.stage i) k ≡ true → s.mem.locks k ≡ held))
mutual_exclusion distinct bytes reached =
    let inv = Reach-Inv distinct bytes reached in
    (inv.unique, λ k. (inv.covered k, λ i. inv.locked i k))
