-- ===== src/Common/Faults.antt =====
-- A run that may stop the program: `DIE`, a failed `assert`, `exit`.
use mathlib.Core.Path.{◌≡◌, refl}
use mathlib.Core.Logic.{◌⊎◌, inl, inr}
use mathlib.Core.Bool.{Bool, true, false}

pub data Outcome {ℓ} (A : Type ℓ) : Type ℓ where
  ok : A → Outcome A
  died : Outcome A

infixl 5 ◌>>=◌ ◌>>◌
abbrev pub ◌>>=◌ {ℓ κ} : {A : Type ℓ} {B : Type κ} → Outcome A → (A → Outcome B) → Outcome B
ok a >>= f = f a
died >>= f = died

abbrev pub ◌>>◌ {ℓ} : {B : Type ℓ} → Outcome (Unit {0}) → Outcome B → Outcome B
m >> k = m >>= λ _. k

-- `if (!b) DIE(...)` and `assert(b)`
abbrev pub check : Bool → Outcome (Unit {0})
check true = ok tt
check false = died

pub Outcome-cases {ℓ} : {A : Type ℓ} (o : Outcome A) → (o ≡ died) ⊎ ((a : A) × (o ≡ ok a))
Outcome-cases (ok a) = inr (a, refl)
Outcome-cases died = inl refl
