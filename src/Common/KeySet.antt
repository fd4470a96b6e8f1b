-- ===== src/Common/KeySet.antt =====
-- `std::set` of numbers: a list in ascending order, the order in which it is iterated.
use Prim.Native.Nat.{ℕ, ◌<◌}
use mathlib.Core.Path.{◌≡◌, refl, sym, subst}
use native.Mathlib.Decide.{ℕ_discrete}
use mathlib.Core.Bool.{Bool, true, false, false≢true}
use mathlib.Core.List.{List, [], ◌∷◌}
use native.Mathlib.Omega.{arith}
use cmcs624_fall.Common.Tests.{ltb, ◌==◌, if◌then◌else◌}
use cmcs624_fall.Common.Lists.{All, Ascending}

-- `s.count(k) > 0`
abbrev pub contains : ℕ → List ℕ → Bool
contains k [] = false
contains k (j ∷ s) = if k == j then true else contains k s

abbrev pub insert : ℕ → List ℕ → List ℕ
insert k [] = k ∷ []
insert k (j ∷ s) = if k == j then j ∷ s else (if ltb k j then k ∷ j ∷ s else j ∷ insert k s)

abbrev pub erase : ℕ → List ℕ → List ℕ
erase k [] = []
erase k (j ∷ s) = let rest = erase k s in if k == j then rest else j ∷ rest

pub contains-insert :
    (j k : ℕ) (s : List ℕ) → contains j (insert k s) ≡ (if j == k then true else contains j s)
contains-insert j k [] = refl
contains-insert j k (i ∷ s) = ground (arith, contains-insert j k s)

pub contains-erase :
    (j k : ℕ) (s : List ℕ) → contains j (erase k s) ≡ (if j == k then false else contains j s)
contains-erase j k [] = ground arith
contains-erase j k (i ∷ s) = ground (arith, contains-erase j k s)

pub All-insert : (n k : ℕ) (s : List ℕ) → n < k → All (λ j. n < j) s → All (λ j. n < j) (insert k s)
All-insert n k [] h a = (h, tt)
All-insert n k (j ∷ s) h a = ground (arith, All-insert n k s h a.1)

All-lower : (m n : ℕ) (s : List ℕ) → m < n → All (λ j. n < j) s → All (λ j. m < j) s
All-lower m n [] h a = tt
All-lower m n (j ∷ s) h a = (omega arith, All-lower m n s h a.1)

pub insert-Ascending : (k : ℕ) (s : List ℕ) → Ascending s → Ascending (insert k s)
insert-Ascending k [] a = (tt, tt)
insert-Ascending k (j ∷ s) a =
    ground (arith, insert-Ascending k s a.1, All-insert j k s, All-lower k j s)

pub erase-Ascending : (k : ℕ) (s : List ℕ) → Ascending s → Ascending (erase k s)
erase-Ascending k [] a = tt
erase-Ascending k (j ∷ s) a = ground (arith, erase-Ascending k s a.1, All-erase j k s)
  where
    All-erase : (n k : ℕ) (s : List ℕ) → All (λ j. n < j) s → All (λ j. n < j) (erase k s)
    All-erase n k [] h = tt
    All-erase n k (j ∷ s) h = ground (arith, All-erase n k s h.1)

pub All-contains {κ} : (P : ℕ → Type κ) (s : List ℕ) (k : ℕ) → All P s → contains k s ≡ true → P k
All-contains P [] k a c = absurd (false≢true c)
All-contains P (j ∷ s) k a c = elim (ℕ_discrete k j) [
  | yes e ↦ subst P (sym e) a.0
  | no ne ↦ All-contains P s k a.1 (ground arith)
]
