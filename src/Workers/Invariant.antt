-- ===== src/Workers/Invariant.antt =====
-- What holds of the workers in every interleaving.
use cmcs624_fall.Common.{ℕ, ◌+◌, ◌%◌, ◌^◌, ◌<◌, ◌≡◌, true, if◌then◌else◌}
use cmcs624_fall.Common.Sums.{total}
use cmcs624_fall.Mutex.{held}
use cmcs624_fall.Words.{Bytes}
use cmcs624_fall.Database.{nfields}
use cmcs624_fall.Request.{Request}
use cmcs624_fall.Request.Fields.{field, IsGap}
use cmcs624_fall.Request.Order.{AllBytes}
use cmcs624_fall.Workers.{Stage, System, holds}
use cmcs624_fall.Workers.Changes.{Wf, added}

-- What the worker has added to field `m` of record `k` so far.
abbrev pub amount : Request → Stage → ℕ → ℕ → ℕ
amount r p k m = if added r p k m then r.updates m else 0

pub record Inv (n : ℕ) (requests : ℕ → Request) (base : ℕ → Bytes) (s : System) : Type 0 where
  pub wf : (i : ℕ) → Wf (requests i) s.mem.records (s.stage i)
  pub locked : (i k : ℕ) → holds (requests i) (s.stage i) k ≡ true → s.mem.locks k ≡ held
  pub covered :
      (k : ℕ) → s.mem.locks k ≡ held → (i : ℕ) × (i < n) × (holds (requests i) (s.stage i) k ≡ true)
  pub unique :
      (i j k : ℕ)
      → holds (requests i) (s.stage i) k ≡ true
      → holds (requests j) (s.stage j) k ≡ true
      → i ≡ j
  pub fields :
      (k m : ℕ)
      → m < nfields
      → field (s.mem.records k) m
        ≡ (field (base k) m + total n (λ i. amount (requests i) (s.stage i) k m)) % 2 ^ 64
  pub gaps : (k j : ℕ) → IsGap j → s.mem.records k j ≡ base k j
  pub bytes : AllBytes s.mem.records
