-- ===== src/Workers/Changes.antt =====
-- What one step of a worker changes: a lock that it takes or frees, or a field that it adds to.
use cmcs624_fall.Common.{
  ℕ, ◌+◌, ◌*◌, ◌%◌, ◌^◌, ◌<◌, ◌≤◌, ◌≡◌, refl, ap, arith, Bool, true, false, not, ◌&&◌, ◌||◌, List,
  [], ◌∷◌, ◌==◌, ltb, if◌then◌else◌,
}
use cmcs624_fall.Common.KeySet
use cmcs624_fall.Mutex.{free, held}
use cmcs624_fall.Words.{Bytes, store64}
use cmcs624_fall.Database.{field_size, nfields, update}
use cmcs624_fall.Request.{Request}
use cmcs624_fall.Request.Fields.{field}
use cmcs624_fall.Workers.{
  Stage, locking, writing, loaded, unlocking, finished, Memory, keys, store_field, Move, take,
  all_locked, load, store, next_key, all_written, release, exit, holds,
}
use cmcs624_fall.Workers.Keys.{IsRest, head_absent}

-- A value that was loaded is still the value of its field.
abbrev pub IsCurrent : (ℕ → Bytes) → List ℕ → ℕ → ℕ → Type 0
IsCurrent records [] i v = ⊥
IsCurrent records (k ∷ _) i v = v ≡ field (records k) i

abbrev pub Wf : Request → (ℕ → Bytes) → Stage → Type 0
Wf r records (locking left) = IsRest left (keys r)
Wf r records (writing left i) = IsRest left (keys r) × (i ≤ nfields)
Wf r records (loaded left i v) = IsRest left (keys r) × (i < nfields) × IsCurrent records left i v
Wf r records (unlocking left) = IsRest left (keys r)
Wf r records finished = Unit

abbrev pub is_head : ℕ → List ℕ → Bool
is_head k [] = false
is_head k (j ∷ _) = k == j

-- Whether the worker has added its update to field `m` of record `k`.
abbrev pub added : Request → Stage → ℕ → ℕ → Bool
added r (locking left) k m = false
added r (writing left i) k m =
    KeySet.contains k (keys r) && (not (KeySet.contains k left) || (is_head k left && ltb m i))
added r (loaded left i v) k m =
    KeySet.contains k (keys r) && (not (KeySet.contains k left) || (is_head k left && ltb m i))
added r (unlocking left) k m = KeySet.contains k (keys r)
added r finished k m = KeySet.contains k (keys r)

pub data LockChange (r : Request) (m m' : Memory) (p p' : Stage) : Type 0 where
  gains :
      (k : ℕ)
      → m.locks k ≡ free
      → m'.locks ≡ update m.locks k held
      → ((j : ℕ) → holds r p' j ≡ (if j == k then true else holds r p j))
      → LockChange r m m' p p'
  loses :
      (k : ℕ)
      → holds r p k ≡ true
      → m'.locks ≡ update m.locks k free
      → ((j : ℕ) → holds r p' j ≡ (if j == k then false else holds r p j))
      → LockChange r m m' p p'
  keeps : m'.locks ≡ m.locks → ((j : ℕ) → holds r p' j ≡ holds r p j) → LockChange r m m' p p'

pub lock_change :
    {r : Request} {m m' : Memory} {p p' : Stage}
    → Move r m p m' p'
    → Wf r m.records p
    → LockChange r m m' p p'
lock_change (take {k} {left} e) w =
    gains k e refl (λ j. ground (arith, head_absent w, w.among.0, w.among.0))
lock_change all_locked w = keeps refl (λ j. ground arith)
lock_change (load lt) w = keeps refl (λ j. refl)
lock_change store w = keeps refl (λ j. refl)
lock_change (next_key e) w = keeps refl (λ j. refl)
lock_change all_written w = keeps refl (λ j. refl)
lock_change (release {k} {left}) w =
    loses k (ground arith) refl (λ j. ground (arith, head_absent w))
lock_change exit w = keeps refl (λ j. refl)

pub data FieldChange (r : Request) (m m' : Memory) (p p' : Stage) : Type 0 where
  adds :
      (k f : ℕ)
      → f < nfields
      → holds r p k ≡ true
      → added r p k f ≡ false
      → m'.records ≡ (store_field m r k f (field (m.records k) f)).records
      → ((j g : ℕ) → added r p' j g ≡ (if j == k && g == f then true else added r p j g))
      → FieldChange r m m' p p'
  leaves :
      m'.records ≡ m.records
      → ((j g : ℕ) → g < nfields → added r p' j g ≡ added r p j g)
      → FieldChange r m m' p p'

pub field_change :
    {r : Request} {m m' : Memory} {p p' : Stage}
    → Move r m p m' p'
    → Wf r m.records p
    → FieldChange r m m' p p'
field_change (take e) w = leaves refl (λ j g lt. refl)
field_change all_locked w = leaves refl (λ j g lt. ground arith)
field_change (load lt) w = leaves refl (λ j g lt'. refl)
field_change {r} {m} (store {k} {i} {v} {left}) w =
    adds k i w.1 w.0.among.0 (ground arith)
      (ap
        (λ x.
          update m.records k (store64 (m.records k) (i * field_size) ((x + r.updates i) % 2 ^ 64)))
        w.2)
      (λ j g. ground (arith, w.0.among.0, λ (e : j ≡ k). ap (λ x. KeySet.contains x (keys r)) e))
field_change (next_key {k} {i} {left} e) w =
    leaves refl (λ j g lt.
      ground (arith, head_absent w.0, λ (e' : j ≡ k). ap (λ x. KeySet.contains x left) e'))
field_change all_written w = leaves refl (λ j g lt. ground arith)
field_change release w = leaves refl (λ j g lt. refl)
field_change exit w = leaves refl (λ j g lt. refl)
