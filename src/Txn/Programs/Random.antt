-- ===== src/Txn/Programs/Random.antt =====
-- The constructor of `RMW` in a2/txn/txn_types.h that draws its read and write sets.
pub mod Draws
use cmcs624_fall.Common.{
  ℕ, zero, suc, ◌+◌, ◌%◌, Bool, ◌||◌, List, [], ◌∷◌, if◌then◌else◌, leb, length,
}
use cmcs624_fall.Common.KeySet
use cmcs624_fall.Mutex.{Attempt, returned, failed, waiting, assert, ◌>>=◌, ◌>>◌}
use cmcs624_fall.Txn.{Txn}
use cmcs624_fall.Txn.Programs.{Object, new_rmw}

-- `do { key = rand() % dbsize; } while (taken);` for at most `fuel` draws, from the one at `pos` on:
-- the key, and the position after it. `waiting` is a loop that is still drawing.
draw : (ℕ → ℕ) → ℕ → (ℕ → Bool) → ℕ → ℕ → Attempt (ℕ × ℕ)
draw rand dbsize taken zero pos = waiting
draw rand dbsize taken (suc fuel) pos =
    let again = draw rand dbsize taken fuel (suc pos) in
    let key = rand pos % dbsize in if taken key then again else returned (key, suc pos)

-- A loop of the constructor, with `n` keys to go; `other` is the set that is complete.
draw_keys : (ℕ → ℕ) → ℕ → ℕ → List ℕ → ℕ → List ℕ → ℕ → Attempt (List ℕ × ℕ)
unfolding draw
draw_keys rand dbsize fuel other zero set pos = returned (set, pos)
draw_keys rand dbsize fuel other (suc n) set pos = do
  (key, pos') ← draw rand dbsize (λ k. KeySet.contains k other || KeySet.contains k set) fuel pos
  draw_keys rand dbsize fuel other n (KeySet.insert key set) pos'

-- The object, and the position of `rand` after it. The sizes are not negative.
pub new_random_rmw : (ℕ → ℕ) → ℕ → ℕ → ℕ → ℕ → ℕ → ℕ → Txn → Attempt (Object × ℕ)
unfolding draw_keys
new_random_rmw rand fuel pos dbsize readsetsize writesetsize time unset = do
  assert (leb (readsetsize + writesetsize) dbsize)
  (readset, pos') ← draw_keys rand dbsize fuel [] readsetsize [] pos
  (writeset, pos'') ← draw_keys rand dbsize fuel readset writesetsize [] pos'
  returned (new_rmw readset writeset time unset, pos'')
