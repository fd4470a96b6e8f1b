-- ===== src/Common/Lists.antt =====
-- Lists over the native numbers, and predicates by recursion.
use Prim.Native.Nat.{ℕ, suc, ◌+◌, ◌<◌}
use mathlib.Core.Path.{◌≡◌, sym, ap}
use mathlib.Core.List.{List, [], ◌∷◌, ◌++◌}
use mathlib.Core.Logic.{◌≢◌, ◌⊎◌, inl, inr}
use native.Mathlib.Decide.{ℕ_discrete}
use native.Mathlib.Omega.{arith}
use cmcs624_fall.Common.Tests.{◌==◌, if◌then◌else◌}

module _ {ℓ} {A : Type ℓ} where
  abbrev pub length : List A → ℕ
  length [] = 0
  length (x ∷ xs) = suc (length xs)

  pub length-append : (xs ys : List A) → length (xs ++ ys) ≡ length xs + length ys
  length-append [] ys = omega arith
  length-append (x ∷ xs) ys = omega (arith, length-append xs ys)

  abbrev pub All {κ} : (A → Type κ) → List A → Type κ
  All P [] = Unit
  All P (x ∷ xs) = P x × All P xs

  pub All-append {κ} : (P : A → Type κ) (xs ys : List A) → All P xs → All P ys → All P (xs ++ ys)
  All-append P [] ys hx hy = hy
  All-append P (x ∷ xs) ys hx hy = (hx.0, All-append P xs ys hx.1 hy)

  pub All-map {κ μ} :
      (P : A → Type κ) (Q : A → Type μ)
      → ((x : A) → P x → Q x)
      → (xs : List A) → All P xs
      → All Q xs
  All-map P Q f [] h = tt
  All-map P Q f (x ∷ xs) h = (f x h.0, All-map P Q f xs h.1)

module _ {ℓ} {A : Type ℓ} where
  pub All-zip {κ μ ν} :
      (P : A → Type κ) (Q : A → Type μ) (R : A → Type ν)
      → ((x : A) → P x → Q x → R x)
      → (xs : List A) → All P xs
      → All Q xs
      → All R xs
  All-zip P Q R f [] p q = tt
  All-zip P Q R f (x ∷ xs) p q = (f x p.0 q.0, All-zip P Q R f xs p.1 q.1)

-- `a` stands in the list.
abbrev pub In : ℕ → List ℕ → Type 0
In a [] = ⊥
In a (x ∷ xs) = (a ≡ x) ⊎ In a xs

abbrev pub Ascending : List ℕ → Type 0
Ascending [] = Unit
Ascending (x ∷ xs) = All (λ y. x < y) xs × Ascending xs

-- How often `a` stands in the list.
abbrev pub count : ℕ → List ℕ → ℕ
count a [] = 0
count a (x ∷ xs) = count a xs + (if a == x then 1 else 0)

pub count-append :
    (k : ℕ) (before after : List ℕ) → count k (before ++ after) ≡ count k before + count k after
count-append k before after =
    elim before as (λ bs. count k (bs ++ after) ≡ count k bs + count k after) [
      | [] ↦ omega arith
      | b ∷ (rest → ih) ↦ omega (arith, ih)
    ]

pub In-count : (a : ℕ) (xs : List ℕ) → In a xs → 0 < count a xs
In-count a [] i = absurd i
In-count a (x ∷ xs) (inl e) = ground arith
In-count a (x ∷ xs) (inr i) = omega (arith, In-count a xs i)

pub count-In : (a : ℕ) (xs : List ℕ) → 0 < count a xs → In a xs
count-In a [] h = absurd (omega arith)
count-In a (x ∷ xs) h = elim (ℕ_discrete a x) [
  | yes e ↦ inl e
  | no ne ↦ inr (count-In a xs (ground arith))
]

pub count-apart : (a : ℕ) (xs : List ℕ) → count a xs ≡ 0 → All (λ x. x ≢ a) xs
count-apart a [] h = tt
count-apart a (x ∷ xs) h = (λ e. ground arith, count-apart a xs (omega arith))

pub count-split :
    (a : ℕ) (xs : List ℕ)
    → 0 < count a xs
    → (before : List ℕ) × (after : List ℕ) × (xs ≡ before ++ a ∷ after)
count-split a [] h = absurd (omega arith)
count-split a (x ∷ xs) h = elim (ℕ_discrete a x) [
  | yes e ↦ ([], xs, ap (λ y. y ∷ xs) (sym e))
  | no ne ↦
      let (before, after, e) = count-split a xs (ground arith) in
      (x ∷ before, after, ap (λ ys. x ∷ ys) e)
]
