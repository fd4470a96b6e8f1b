-- ===== src/Request/Copy/Arrays.antt =====
-- Arrays of 64-bit numbers in memory.
use cmcs624_fall.Common.{
  ℕ, zero, suc, ◌+◌, ◌*◌, ◌^◌, ◌≤◌, ◌<◌, ◌≡◌, ◌⊎◌, inl, inr, refl, ◌∙◌, arith, List, [], ◌∷◌,
  length, All,
}
use cmcs624_fall.Words.{Bytes, load64, store64, load64-store64, store64-out}
use cmcs624_fall.Request.Copy.{store_array, load_array}

-- No byte outside the array changes.
pub store_array-out :
    (vs : List ℕ) (o : ℕ) (b : Bytes) (j : ℕ)
    → (j < o) ⊎ (o + 8 * length vs ≤ j)
    → store_array vs o b j ≡ b j
unfolding store_array
store_array-out [] o b j h = refl
store_array-out (v ∷ vs) o b j (inl h) =
    store_array-out vs (o + 8) (store64 b o v) j (inl (omega arith)) ∙ store64-out b o v j (inl h)
store_array-out (v ∷ vs) o b j (inr h) =
    store_array-out vs (o + 8) (store64 b o v) j (inr (omega arith))
    ∙ store64-out b o v j (inr (omega arith))

-- The bytes from `o` on, `n` of them, agree.
abbrev pub SameFrom : ℕ → ℕ → Bytes → Bytes → Type 0
SameFrom o n b c = (j : ℕ) → o ≤ j → j < o + n → b j ≡ c j

pub load64-same : (o : ℕ) (b c : Bytes) → SameFrom o 8 b c → load64 b o ≡ load64 c o
unfolding load64
load64-same o b c h = omega (
  arith,
  h o (omega arith) (omega arith),
  h (o + 1) (omega arith) (omega arith),
  h (o + 2) (omega arith) (omega arith),
  h (o + 3) (omega arith) (omega arith),
  h (o + 4) (omega arith) (omega arith),
  h (o + 5) (omega arith) (omega arith),
  h (o + 6) (omega arith) (omega arith),
  h (o + 7) (omega arith) (omega arith),
)

pub load_array-same :
    (n o : ℕ) (b c : Bytes) → SameFrom o (8 * n) b c → load_array n o b ≡ load_array n o c
unfolding load_array
load_array-same zero o b c h = refl
load_array-same (suc n) o b c h = cc (
  load64-same o b c (λ j l u. h j l (omega arith)),
  load_array-same n (o + 8) b c (λ j l u. h j (omega arith) (omega arith)),
)

-- An array that was stored is read back.
pub load_array-store_array :
    (vs : List ℕ) (o : ℕ) (b : Bytes)
    → All (λ v. v < 2 ^ 64) vs
    → load_array (length vs) o (store_array vs o b) ≡ vs
unfolding load_array store_array
load_array-store_array [] o b h = refl
load_array-store_array (v ∷ vs) o b h = cc (
  load64-same o (store_array vs (o + 8) (store64 b o v)) (store64 b o v)
      (λ j l u. store_array-out vs (o + 8) (store64 b o v) j (inl u)),
  load64-store64 b o v h.0,
  load_array-store_array vs (o + 8) (store64 b o v) h.1,
)
