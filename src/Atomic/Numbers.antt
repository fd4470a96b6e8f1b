-- ===== src/Atomic/Numbers.antt =====
-- `Atomic` of a2/utils/atomic.h, for an unsigned number of `w` bits.
use cmcs624_fall.Common.{
  ℕ, ◌+◌, ◌-◌, ◌*◌, ◌/◌, ◌%◌, ◌^◌, ◌≡◌, ◌≢◌, Bool, true, false, if◌then◌else◌, ◌==◌, beq_refl,
  beq_of_ne, not,
}
use cmcs624_fall.Mutex.{
  Mutex, free, lock, unlock, Attempt, returned, from_lock, assert, ◌>>=◌, ◌>>◌,
}

pub record Atomic : Type 0 where
  pub value : ℕ
  pub mutex : Mutex

abbrev changes : (ℕ → ℕ) → Atomic → Attempt Atomic
changes f a = do
  m ← from_lock (lock a.mutex)
  returned (record a { value = f a.value; mutex = unlock m })

module _ (w : ℕ) where
  pub increment : Atomic → Attempt Atomic
  increment a = changes (λ v. (v + 1) % 2 ^ w) a

  pub add : Atomic → ℕ → Attempt Atomic
  add a x = changes (λ v. (v + x) % 2 ^ w) a

  pub decrement : Atomic → Attempt Atomic
  decrement a = changes (λ v. (v + (2 ^ w - 1)) % 2 ^ w) a

  -- `x` is below `2 ^ w`.
  pub subtract : Atomic → ℕ → Attempt Atomic
  subtract a x = changes (λ v. (v + (2 ^ w - x)) % 2 ^ w) a

  pub multiply : Atomic → ℕ → Attempt Atomic
  multiply a x = changes (λ v. v * x % 2 ^ w) a

-- Division by 0 is not defined: `failed`.
pub divide : Atomic → ℕ → Attempt Atomic
divide a x = do assert (not (x == 0)); changes (λ v. v / x) a

pub remainder : Atomic → ℕ → Attempt Atomic
remainder a x = do assert (not (x == 0)); changes (λ v. v % x) a

pub assign : Atomic → ℕ → Attempt Atomic
assign a x = changes (λ v. x) a

-- `CAS`: the object, `*old_value` afterwards, and what is returned.
unfoldable pub cas : Atomic → ℕ → ℕ → Attempt (Atomic × ℕ × Bool)
unfolding lock unlock
cas a old_value new_value = do
  m ← from_lock (lock a.mutex)
  returned (
      if a.value == old_value
      then (record { value = new_value; mutex = unlock m }, old_value, true)
      else (record a { mutex = unlock m }, a.value, false))

-- Of two `CAS` calls that expect the value which a free object has, and of which the first writes
-- another value, the first succeeds; the second fails, is told the value that the first wrote, and
-- changes nothing.
pub cas_once :
    (v x y : ℕ)
    → x ≢ v
    → (cas (record { value = v; mutex = free }) v x
        ≡ returned (record { value = x; mutex = free }, v, true))
      × (cas (record { value = x; mutex = free }) v y
          ≡ returned (record { value = x; mutex = free }, x, false))
unfolding cas
cas_once v x y ne = (rw (beq_refl v), rw (beq_of_ne x v ne))
