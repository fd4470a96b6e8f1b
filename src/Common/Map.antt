-- ===== src/Common/Map.antt =====
-- `std::map` and `std::unordered_map` with numbers for keys: an association list in ascending order
-- of the keys, which is the order in which a `std::map` is iterated.
use Prim.Native.Nat.{ℕ, ◌<◌}
use mathlib.Core.Path.{◌≡◌, refl}
use mathlib.Core.Bool.{Bool, true, false}
use mathlib.Core.Option.{Option, none, some}
use mathlib.Core.List.{List, [], ◌∷◌}
use native.Mathlib.Omega.{arith}
use cmcs624_fall.Common.Tests.{ltb, ◌==◌, if◌then◌else◌}
use cmcs624_fall.Common.Lists.{All, Ascending}

abbrev pub Map {ℓ} : Type ℓ → Type ℓ
Map V = List (ℕ × V)

All-lower : (m n : ℕ) (s : List ℕ) → m < n → All (λ j. n < j) s → All (λ j. m < j) s
All-lower m n [] h a = tt
All-lower m n (j ∷ s) h a = (omega arith, All-lower m n s h a.1)

module _ {ℓ} {V : Type ℓ} where
  abbrev pub lookup : ℕ → Map V → Option V
  lookup k [] = none
  lookup k ((j, v) ∷ m) = if k == j then some v else lookup k m

  -- `m.count(k) > 0`
  abbrev pub contains : ℕ → Map V → Bool
  contains k m = elim (lookup k m) [ none ↦ false | some _ ↦ true ]

  -- `m[k] = v`
  abbrev pub insert : ℕ → V → Map V → Map V
  insert k v [] = (k, v) ∷ []
  insert k v ((j, w) ∷ m) =
      if k == j
      then (k, v) ∷ m
      else (if ltb k j then (k, v) ∷ (j, w) ∷ m else (j, w) ∷ insert k v m)

  -- `m.erase(k)`
  abbrev pub erase : ℕ → Map V → Map V
  erase k [] = []
  erase k ((j, w) ∷ m) = let rest = erase k m in if k == j then rest else (j, w) ∷ rest

  abbrev pub keys : Map V → List ℕ
  keys [] = []
  keys ((j, w) ∷ m) = j ∷ keys m

  pub lookup-insert :
      (j k : ℕ) (v : V) (m : Map V)
      → lookup j (insert k v m) ≡ (if j == k then some v else lookup j m)
  lookup-insert j k v [] = refl
  lookup-insert j k v ((i, w) ∷ m) = ground (arith, lookup-insert j k v m)

  pub lookup-erase :
      (j k : ℕ) (m : Map V) → lookup j (erase k m) ≡ (if j == k then none else lookup j m)
  lookup-erase j k [] = ground arith
  lookup-erase j k ((i, w) ∷ m) = ground (arith, lookup-erase j k m)

  -- A key below all the others is not there.
  pub lookup_below : (k : ℕ) (m : Map V) → All (λ j. k < j) (keys m) → lookup k m ≡ none
  lookup_below k [] h = refl
  lookup_below k ((j, w) ∷ m) h = ground (arith, lookup_below k m h.1)

  All-keys-insert :
      (n k : ℕ) (v : V) (m : Map V)
      → n < k
      → All (λ j. n < j) (keys m)
      → All (λ j. n < j) (keys (insert k v m))
  All-keys-insert n k v [] h a = (h, tt)
  All-keys-insert n k v ((j, w) ∷ m) h a = ground (arith, All-keys-insert n k v m h a.1)

  -- A map keeps the order of its keys.
  pub insert-Ascending :
      (k : ℕ) (v : V) (m : Map V) → Ascending (keys m) → Ascending (keys (insert k v m))
  insert-Ascending k v [] a = (tt, tt)
  insert-Ascending k v ((j, w) ∷ m) a =
      ground (arith, insert-Ascending k v m a.1, All-keys-insert j k v m, All-lower k j (keys m))
