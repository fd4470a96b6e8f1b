-- ===== src/Mutex.antt =====
-- a2/utils/mutex.h, and the mutexes of pthread that a1 uses without a wrapper.
use cmcs624_fall.Common.{Bool, true, false, Option, none, some, ◌≡◌, refl, ◌⊎◌, inl, inr}

-- A `Mutex` is free or held. `Lock` waits while it is held: `none` is a call that does not return
-- in this state.
pub data Mutex : Type 0 where
  free held : Mutex

unfoldable pub lock : Mutex → Option Mutex
lock free = some held
lock held = none

unfoldable pub try_lock : Mutex → Mutex × Bool
try_lock free = (held, true)
try_lock held = (held, false)

unfoldable pub unlock : Mutex → Mutex
unlock m = free

-- A run that may also fail an assertion, or wait for a mutex that its own thread does not free.
pub data Attempt {ℓ} (A : Type ℓ) : Type ℓ where
  returned : A → Attempt A
  failed : Attempt A
  waiting : Attempt A

infixl 5 ◌>>=◌ ◌>>◌
abbrev pub ◌>>=◌ {ℓ κ} : {A : Type ℓ} {B : Type κ} → Attempt A → (A → Attempt B) → Attempt B
returned a >>= f = f a
failed >>= f = failed
waiting >>= f = waiting

abbrev pub ◌>>◌ {ℓ} : {B : Type ℓ} → Attempt (Unit {0}) → Attempt B → Attempt B
m >> k = m >>= λ _. k

abbrev pub assert : Bool → Attempt (Unit {0})
assert true = returned tt
assert false = failed

abbrev pub from_lock {ℓ} : {A : Type ℓ} → Option A → Attempt A
from_lock none = waiting
from_lock (some a) = returned a

pub Mutex-cases : (m : Mutex) → (m ≡ free) ⊎ (m ≡ held)
Mutex-cases free = inl refl
Mutex-cases held = inr refl
