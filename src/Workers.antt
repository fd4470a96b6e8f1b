-- ===== src/Workers.antt =====
-- Requests of a1/src/request.cc that run at once on one database, in threads or processes: every
-- access to a mutex and every load and store of a field is a step of its own, in any interleaving.
pub mod Keys
pub mod Changes
pub mod Invariant
pub mod Moves
pub mod Records
pub mod Safety
pub mod Progress
pub mod Results
use cmcs624_fall.Common.{
  ℕ, suc, ◌+◌, ◌*◌, ◌%◌, ◌^◌, ◌<◌, ◌≡◌, Bool, true, false, not, ◌&&◌, List, [], ◌∷◌,
}
use cmcs624_fall.Common.KeySet
use cmcs624_fall.Common.Sort.{sort}
use cmcs624_fall.Mutex.{Mutex, free, held}
use cmcs624_fall.Words.{Bytes, load64, store64}
use cmcs624_fall.Database.{field_size, nfields, update}
use cmcs624_fall.Request.{Request}

-- Where a worker stands in `Execute`, with the keys that its loop has still to go through.
pub data Stage : Type 0 where
  locking : List ℕ → Stage  -- the loop of `LockRecords`
  writing : List ℕ → ℕ → Stage  -- the loops of `Txn` and `DoWrite`: the keys, and the field of the first
  loaded : List ℕ → ℕ → ℕ → Stage  -- between the load and the store of `*rec_ptr += updates[i]`
  unlocking : List ℕ → Stage  -- the loop of `UnlockRecords`
  finished : Stage

-- What the workers share.
pub record Memory : Type 0 where
  pub locks : ℕ → Mutex
  pub records : ℕ → Bytes

-- The write set, as `LockRecords` sorts it.
abbrev pub keys : Request → List ℕ
keys r = sort r.writeset

-- The store of field `i` of record `k`, when `v` was loaded from it.
abbrev pub store_field : Memory → Request → ℕ → ℕ → ℕ → Memory
store_field m r k i v = record m {
  records =
      update m.records k (store64 (m.records k) (i * field_size) ((v + r.updates i) % 2 ^ 64));
}

-- One step of the worker that runs `r`.
pub data Move (r : Request) (m : Memory) : Stage → Memory → Stage → Type 0 where
  take :
      {k : ℕ} {left : List ℕ}
      → m.locks k ≡ free
      → Move r m (locking (k ∷ left)) (record m { locks = update m.locks k held }) (locking left)
  all_locked : Move r m (locking []) m (writing (keys r) 0)
  load :
      {k i : ℕ} {left : List ℕ}
      → i < nfields
      → Move r m
          (writing (k ∷ left) i)
          m
          (loaded (k ∷ left) i (load64 (m.records k) (i * field_size)))
  store :
      {k i v : ℕ} {left : List ℕ}
      → Move r m (loaded (k ∷ left) i v) (store_field m r k i v) (writing (k ∷ left) (suc i))
  next_key :
      {k i : ℕ} {left : List ℕ} → i ≡ nfields → Move r m (writing (k ∷ left) i) m (writing left 0)
  all_written : {i : ℕ} → Move r m (writing [] i) m (unlocking (keys r))
  release :
      {k : ℕ} {left : List ℕ}
      → Move r m
          (unlocking (k ∷ left))
          (record m { locks = update m.locks k free })
          (unlocking left)
  exit : Move r m (unlocking []) m finished

-- Whether the worker has the lock of `k`.
abbrev pub holds : Request → Stage → ℕ → Bool
holds r (locking left) k = KeySet.contains k (keys r) && not (KeySet.contains k left)
holds r (writing left i) k = KeySet.contains k (keys r)
holds r (loaded left i v) k = KeySet.contains k (keys r)
holds r (unlocking left) k = KeySet.contains k left
holds r finished k = false

-- Worker `i` runs `requests i`; an index from `n` on names no worker and never moves.
pub record System : Type 0 where
  pub mem : Memory
  pub stage : ℕ → Stage

pub data Step (n : ℕ) (requests : ℕ → Request) (s : System) : System → Type 0 where
  pick :
      (i : ℕ) {m : Memory} {stage : Stage}
      → i < n
      → Move (requests i) s.mem (s.stage i) m stage
      → Step n requests s (record { mem = m; stage = update s.stage i stage })

-- No lock is held, and every worker is at the start of its `LockRecords`, its write set sorted.
abbrev pub init : (ℕ → Request) → (ℕ → Bytes) → System
init requests base = record {
  mem = record { locks = λ _. free; records = base };
  stage = λ i. locking (keys (requests i));
}

pub data Reach (n : ℕ) (requests : ℕ → Request) (base : ℕ → Bytes) : System → Type 0 where
  start : Reach n requests base (init requests base)
  later : {s t : System} → Reach n requests base s → Step n requests s t → Reach n requests base t
