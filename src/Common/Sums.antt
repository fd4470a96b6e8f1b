-- ===== src/Common/Sums.antt =====
-- Sums over the workers below a bound.
use Prim.Native.Nat.{ℕ, zero, suc, ◌+◌, ◌<◌}
use mathlib.Core.Path.{◌≡◌, refl}
use mathlib.Core.Logic.{◌≢◌}
use native.Mathlib.Decide.{dec_lt}
use native.Mathlib.Omega.{arith}

unfoldable pub total : ℕ → (ℕ → ℕ) → ℕ
total zero f = 0
total (suc n) f = total n f + f n

pub total-same : (n : ℕ) (f g : ℕ → ℕ) → ((j : ℕ) → j < n → f j ≡ g j) → total n f ≡ total n g
unfolding total
total-same zero f g h = refl
total-same (suc n) f g h =
    omega (arith, total-same n f g (λ j lt. h j (omega arith)), h n (omega arith))

-- A change at one worker.
pub total-change :
    (n : ℕ) (f g : ℕ → ℕ) (i : ℕ)
    → i < n
    → ((j : ℕ) → j ≢ i → f j ≡ g j)
    → total n g + f i ≡ total n f + g i
unfolding total
total-change zero f g i lt h = absurd (omega arith)
total-change (suc n) f g i lt h = elim (dec_lt i n) [
  | yes below ↦ omega (arith, total-change n f g i below h, h n (omega arith))
  | no last ↦
      let e : i ≡ n = omega arith in
      rw e (omega (arith, total-same n f g (λ j l. h j (omega arith))))
]

pub total-zero : (n : ℕ) (f : ℕ → ℕ) → ((j : ℕ) → j < n → f j ≡ 0) → total n f ≡ 0
unfolding total
total-zero zero f h = refl
total-zero (suc n) f h =
    omega (arith, total-zero n f (λ j lt. h j (omega arith)), h n (omega arith))
