-- ===== src/Atomic/Maps.antt =====
-- `AtomicMap` of a2/utils/atomic.h, with numbers as its keys and values.
use cmcs624_fall.Common.{
  ℕ, ◌≡◌, ap, Bool, true, false, Option, none, some, if◌then◌else◌, ◌==◌, length,
}
use cmcs624_fall.Common.Map
use cmcs624_fall.Common.Map.{Map}
use cmcs624_fall.Mutex.{Attempt, returned, ◌>>=◌}
use cmcs624_fall.Atomic.{idle, Guarded, reads, writes}

pub size : Guarded (Map ℕ) → Attempt (Guarded (Map ℕ) × ℕ)
size g = reads length g

pub contains : Guarded (Map ℕ) → ℕ → Attempt (Guarded (Map ℕ) × Bool)
contains g key = reads (Map.contains key) g

abbrev pub found_or : Option ℕ → ℕ → ℕ × Bool
found_or none value = (value, false)
found_or (some v) value = (v, true)

-- `value` is what `*value` holds before the call; the pair is `*value` after it and what is returned.
pub lookup : Guarded (Map ℕ) → ℕ → ℕ → Attempt (Guarded (Map ℕ) × (ℕ × Bool))
lookup g key value = reads (λ m. found_or (Map.lookup key m) value) g

pub insert : Guarded (Map ℕ) → ℕ → ℕ → Attempt (Guarded (Map ℕ))
insert g key value = writes (Map.insert key value) g

pub set : Guarded (Map ℕ) → ℕ → ℕ → Attempt (Guarded (Map ℕ))
unfolding insert
set g key value = insert g key value

pub erase : Guarded (Map ℕ) → ℕ → Attempt (Guarded (Map ℕ))
erase g key = writes (Map.erase key) g

-- On a map that nobody has locked: a lookup after `Insert` finds the new value at its key and the
-- old content elsewhere, and after `Erase` nothing at the key; each call leaves the map unlocked.
pub lookup-changes :
    (m : Map ℕ) (key v : ℕ)
    → ((j value : ℕ)
        → (insert (record { content = m; mutex = idle }) key v >>= λ g. lookup g j value)
          ≡ returned (
            record { content = Map.insert key v m; mutex = idle },
            found_or (if j == key then some v else Map.lookup j m) value,
          ))
      × ((j value : ℕ)
          → (erase (record { content = m; mutex = idle }) key >>= λ g. lookup g j value)
            ≡ returned (
              record { content = Map.erase key m; mutex = idle },
              found_or (if j == key then none else Map.lookup j m) value,
            ))
unfolding insert erase lookup
lookup-changes m key v = (
  λ j value.
      ap (λ o. returned (record { content = Map.insert key v m; mutex = idle }, found_or o value))
        (Map.lookup-insert j key v m),
  λ j value.
      ap (λ o. returned (record { content = Map.erase key m; mutex = idle }, found_or o value))
        (Map.lookup-erase j key m),
)
