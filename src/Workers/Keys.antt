-- ===== src/Workers/Keys.antt =====
-- The keys that a loop has still to go through: the end of an ascending list.
use native.Mathlib.Decide.{ℕ_discrete}
use cmcs624_fall.Common.{
  ℕ, ◌<◌, ◌≡◌, ◌≢◌, arith, true, false, List, [], ◌∷◌, All, All-map, Ascending,
}
use cmcs624_fall.Common.KeySet
use cmcs624_fall.Common.Sort.{contains-Absent}

pub record IsRest (left all : List ℕ) : Type 0 where
  pub ascending : Ascending left
  pub among : All (λ k. KeySet.contains k all ≡ true) left
  pub before :
      (j : ℕ)
      → KeySet.contains j all ≡ true
      → KeySet.contains j left ≡ false
      → All (λ k. j < k) left

contains_self : (all : List ℕ) → All (λ k. KeySet.contains k all ≡ true) all
contains_self [] = tt
contains_self (k ∷ all) = (
  ground arith,
  All-map (λ j. KeySet.contains j all ≡ true) (λ j. KeySet.contains j (k ∷ all) ≡ true)
      (λ j h. ground arith) all (contains_self all),
)

pub IsRest-all : (all : List ℕ) → Ascending all → IsRest all all
IsRest-all all a = record { ascending = a; among = contains_self all; before = λ j h e. cc }

pub head_absent :
    {k : ℕ} {left all : List ℕ} → IsRest (k ∷ left) all → KeySet.contains k left ≡ false
head_absent {k} {left} r =
    contains-Absent k left
      (All-map (λ j. k < j) (λ j. k ≢ j) (λ j h. omega arith) left r.ascending.0)

pub IsRest-tail : {k : ℕ} {left all : List ℕ} → IsRest (k ∷ left) all → IsRest left all
IsRest-tail {k} {left} {all} r = record {
  ascending = r.ascending.1;
  among = r.among.1;
  before = λ j h e. elim (ℕ_discrete j k) [
    | yes same ↦ rw same r.ascending.0
    | no ne ↦ (r.before j h (ground arith)).1
  ];
}
