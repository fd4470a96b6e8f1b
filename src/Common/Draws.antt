-- ===== src/Common/Draws.antt =====
-- Keys that are drawn at random until one is new.
use Prim.Native.Nat.{ℕ, zero, suc, ◌+◌, ◌%◌, ◌≤◌, ◌<◌}
use mathlib.Core.Path.{◌≡◌, refl}
use mathlib.Core.Logic.{inl, inr}
use mathlib.Core.Bool.{true, false, ◌||◌}
use mathlib.Core.List.{List, [], ◌∷◌, ◌++◌}
use native.Mathlib.Omega.{arith}
use cmcs624_fall.Common.Tests.{Bool-cases}
use cmcs624_fall.Common.Lists.{length}
use cmcs624_fall.Common.KeySet

length-erase_le : (k : ℕ) (s : List ℕ) → length (KeySet.erase k s) ≤ length s
length-erase_le k [] = omega arith
length-erase_le k (j ∷ s) = ground (arith, length-erase_le k s)

length-erase :
    (k : ℕ) (s : List ℕ) → KeySet.contains k s ≡ true → length (KeySet.erase k s) < length s
length-erase k [] h = cc
length-erase k (j ∷ s) h = ground (arith, length-erase k s, length-erase_le k s)

pub length-insert : (k : ℕ) (s : List ℕ) → length (KeySet.insert k s) ≤ suc (length s)
length-insert k [] = omega arith
length-insert k (j ∷ s) = ground (arith, length-insert k s)

-- A key that is new makes the set one larger.
pub length-insert_new :
    (k : ℕ) (s : List ℕ) → KeySet.contains k s ≡ false → length (KeySet.insert k s) ≡ suc (length s)
length-insert_new k [] h = omega arith
length-insert_new k (j ∷ s) h = ground (arith, length-insert_new k s)

pub contains-append :
    (k : ℕ) (s t : List ℕ)
    → KeySet.contains k (s ++ t) ≡ (KeySet.contains k s || KeySet.contains k t)
contains-append k [] t = refl
contains-append k (j ∷ s) t = ground (arith, contains-append k s t)

-- A set with fewer keys than there are numbers below `max` misses one of them.
pub fresh_key :
    (max : ℕ) (s : List ℕ) → length s < max → (k : ℕ) × (k < max) × (KeySet.contains k s ≡ false)
fresh_key zero s h = absurd (omega arith)
fresh_key (suc m) s h = elim (Bool-cases (KeySet.contains m s)) [
  | inr e ↦ (m, omega arith, e)
  | inl e ↦
      let (k, below, out) = fresh_key m (KeySet.erase m s) (omega (arith, length-erase m s e)) in
      (k, omega arith, ground (arith, KeySet.contains-erase k m s))
]

-- Every key below `max` is drawn in each stretch of `fuel` draws.
abbrev pub Covers : (ℕ → ℕ) → ℕ → ℕ → Type 0
Covers rand max fuel = (pos k : ℕ) → k < max → (d : ℕ) × (d < fuel) × (rand (pos + d) % max ≡ k)
