-- ===== src/Atomic.antt =====
-- `MutexRW` of a2/utils/mutex.h, and how the containers of a2/utils/atomic.h use it.
pub mod Sets
pub mod Maps
pub mod Queues
pub mod Numbers
use cmcs624_fall.Common.{
  ℕ, zero, suc, ◌+◌, ◌-◌, ◌*◌, ◌/◌, ◌%◌, ◌^◌, Bool, true, false, Option, none, some, List, [], ◌∷◌,
  ◌++◌, if◌then◌else◌, ◌==◌, ltb, length,
}
use cmcs624_fall.Common.KeySet
use cmcs624_fall.Common.Map
use cmcs624_fall.Common.Map.{Map}
use cmcs624_fall.Mutex.{
  Mutex, free, held, lock, try_lock, unlock, Attempt, returned, failed, waiting, from_lock, ◌>>=◌,
}

-- `MutexRW`: idle, with some readers (one more than the number), or with a writer.
pub data MutexRw : Type 0 where
  idle : MutexRw
  reading : ℕ → MutexRw
  writing : MutexRw

-- `none` is a call that waits.
abbrev pub read_lock : MutexRw → Option MutexRw
read_lock idle = some (reading 0)
read_lock (reading n) = some (reading (suc n))
read_lock writing = none

abbrev pub write_lock : MutexRw → Option MutexRw
write_lock idle = some writing
write_lock _ = none

abbrev pub unlock_rw : MutexRw → MutexRw
unlock_rw (reading (suc n)) = reading n
unlock_rw _ = idle

-- A container guarded by a `MutexRW`.
pub record Guarded (C : Type 0) : Type 0 where
  pub content : C
  pub mutex : MutexRw

module _ {C B : Type 0} where
  -- Lock for reading, compute, unlock.
  abbrev pub reads : (C → B) → Guarded C → Attempt (Guarded C × B)
  reads f g = do
    m ← from_lock (read_lock g.mutex)
    let result = f g.content
    returned (record g { mutex = unlock_rw m }, result)

module _ {C : Type 0} where
  -- Lock for writing, change, unlock.
  abbrev pub writes : (C → C) → Guarded C → Attempt (Guarded C)
  writes f g = do
    m ← from_lock (write_lock g.mutex)
    returned (record g { content = f g.content; mutex = unlock_rw m })
