-- ===== src/Common/Sort.antt =====
-- `std::sort` on numbers: the result is determined by its contents, so any algorithm will do.
use mathlib.Core.Path.{◌≡◌, refl}
use mathlib.Core.Logic.{◌≢◌, inl, inr}
use mathlib.Core.Bool.{true, false}
use mathlib.Core.List.{List, [], ◌∷◌, Perm}
use mathlib.Core.List.Perm
use Prim.Native.Nat.{ℕ, ◌<◌}
use native.Mathlib.Omega.{arith}
use cmcs624_fall.Common.Tests.{leb, ◌==◌, if◌then◌else◌, Bool-cases}
use cmcs624_fall.Common.KeySet
use cmcs624_fall.Common.Lists.{All, All-map, Ascending}

place : ℕ → List ℕ → List ℕ
place k [] = k ∷ []
place k (j ∷ s) = if leb k j then k ∷ j ∷ s else j ∷ place k s

unfoldable pub sort : List ℕ → List ℕ
unfolding place
sort [] = []
sort (k ∷ s) = place k (sort s)

-- `k` is none of them.
abbrev pub Absent : ℕ → List ℕ → Type 0
Absent k s = All (λ j. k ≢ j) s

abbrev pub Distinct : List ℕ → Type 0
Distinct [] = Unit
Distinct (k ∷ s) = Absent k s × Distinct s

place-perm : (k : ℕ) (s : List ℕ) → Perm (place k s) (k ∷ s)
unfolding place
place-perm k [] = Perm.refl _
place-perm k (j ∷ s) = elim (Bool-cases (leb k j)) [
  | inl h ↦ rw h (Perm.refl _)
  | inr h ↦ rw h (Perm.trans (Perm.cons j (place-perm k s)) (Perm.swap k j s))
]

pub sort-perm : (s : List ℕ) → Perm (sort s) s
unfolding sort
sort-perm [] = Perm.refl _
sort-perm (k ∷ s) = Perm.trans (place-perm k (sort s)) (Perm.cons k (sort-perm s))

place-All {κ} : (P : ℕ → Type κ) (k : ℕ) (s : List ℕ) → P k → All P s → All P (place k s)
unfolding place
place-All P k [] h a = (h, tt)
place-All P k (j ∷ s) h a = elim (Bool-cases (leb k j)) [
  | inl e ↦ rw e (h, a)
  | inr e ↦ rw e (a.0, place-All P k s h a.1)
]

pub sort-All {κ} : (P : ℕ → Type κ) (s : List ℕ) → All P s → All P (sort s)
unfolding sort
sort-All P [] a = tt
sort-All P (k ∷ s) a = place-All P k (sort s) a.0 (sort-All P s a.1)

All-above : (k j : ℕ) (s : List ℕ) → k < j → All (λ i. j < i) s → All (λ i. k < i) s
All-above k j [] h a = tt
All-above k j (i ∷ s) h a = (omega arith, All-above k j s h a.1)

place-Ascending : (k : ℕ) (s : List ℕ) → Absent k s → Ascending s → Ascending (place k s)
unfolding place
place-Ascending k [] n a = (tt, tt)
place-Ascending k (j ∷ s) n a = elim (Bool-cases (leb k j)) [
  | inl e ↦ rw e (let h : k < j = ground arith in ((h, All-above k j s h a.0), a))
  | inr e ↦ rw e (place-All (λ i. j < i) k s (ground arith) a.0, place-Ascending k s n.1 a.1)
]

-- Distinct keys come out strictly ascending.
pub sort-Ascending : (s : List ℕ) → Distinct s → Ascending (sort s)
unfolding sort
sort-Ascending [] d = tt
sort-Ascending (k ∷ s) d =
    place-Ascending k (sort s) (sort-All (λ j. k ≢ j) s d.0) (sort-Ascending s d.1)

contains-place :
    (j k : ℕ) (s : List ℕ)
    → KeySet.contains j (place k s) ≡ (if j == k then true else KeySet.contains j s)
unfolding place
contains-place j k [] = refl
contains-place j k (i ∷ s) = ground (arith, contains-place j k s)

pub contains-sort : (j : ℕ) (s : List ℕ) → KeySet.contains j (sort s) ≡ KeySet.contains j s
unfolding sort
contains-sort j [] = refl
contains-sort j (k ∷ s) = ground (arith, contains-place j k (sort s), contains-sort j s)

pub contains-Absent : (k : ℕ) (s : List ℕ) → Absent k s → KeySet.contains k s ≡ false
contains-Absent k [] a = refl
contains-Absent k (j ∷ s) a = ground (arith, contains-Absent k s a.1)

pub Absent-of_contains : (k : ℕ) (s : List ℕ) → KeySet.contains k s ≡ false → Absent k s
Absent-of_contains k [] h = tt
Absent-of_contains k (j ∷ s) h = (ground arith, Absent-of_contains k s (ground arith))

pub Ascending-Distinct : (s : List ℕ) → Ascending s → Distinct s
Ascending-Distinct [] a = tt
Ascending-Distinct (k ∷ s) a =
    (All-map (λ j. k < j) (λ j. k ≢ j) (λ j h. omega arith) s a.0, Ascending-Distinct s a.1)
