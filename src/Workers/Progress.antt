-- ===== src/Workers/Progress.antt =====
-- The progress of requests that run at once.
use mathlib.Core.Bool.{false≢true}
use cmcs624_fall.Common.{
  ℕ, suc, ◌+◌, ◌-◌, ◌*◌, ◌<◌, ◌≤◌, ◌≡◌, ◌≢◌, refl, sym, ap, ◌∙◌, subst, arith, true, List, [], ◌∷◌,
  All, beq_refl, beq_of_ne, inl, inr, length, zero,
}
use native.Mathlib.Decide.{dec_lt}
use cmcs624_fall.Common.KeySet
use cmcs624_fall.Common.Sort.{Distinct, sort-All}
use cmcs624_fall.Common.Sums.{total, total-change}
use cmcs624_fall.Mutex.{held, Mutex-cases}
use cmcs624_fall.Words.{Bytes}
use cmcs624_fall.Database.{nfields, update}
use cmcs624_fall.Request.{Request}
use cmcs624_fall.Request.Order.{AllBytes}
use cmcs624_fall.Workers.{
  Stage, locking, writing, loaded, unlocking, finished, Memory, keys, Move, take, all_locked, load,
  store, next_key, all_written, release, exit, holds, System, Step, pick, init, Reach, start, later,
}
use cmcs624_fall.Workers.Keys.{IsRest}
use cmcs624_fall.Workers.Changes.{Wf}
use cmcs624_fall.Workers.Invariant.{Inv}
use cmcs624_fall.Workers.Safety.{Reach-Inv}

-- What the worker can do: a step, or it waits for a lock, or it is done.
data Situation (r : Request) (m : Memory) (p : Stage) : Type 0 where
  can_move : (m' : Memory) (p' : Stage) → Move r m p m' p' → Situation r m p
  waits : (k : ℕ) (left : List ℕ) → p ≡ locking (k ∷ left) → m.locks k ≡ held → Situation r m p
  done : p ≡ finished → Situation r m p

situation :
    (r : Request) (m : Memory) (records : ℕ → Bytes) (p : Stage) → Wf r records p → Situation r m p
situation r m b (locking []) w = can_move _ _ all_locked
situation r m b (locking (k ∷ left)) w = elim (Mutex-cases (m.locks k)) [
  | inl e ↦ can_move _ _ (take e)
  | inr e ↦ waits k left refl e
]
situation r m b (writing [] i) w = can_move _ _ all_written
situation r m b (writing (k ∷ left) i) w = elim (dec_lt i nfields) [
  | yes lt ↦ can_move _ _ (load lt)
  | no ge ↦ can_move _ _ (next_key (omega (arith, w.1)))
]
situation r m b (loaded [] i v) w = absurd w.2
situation r m b (loaded (k ∷ left) i v) w = can_move _ _ store
situation r m b (unlocking []) w = can_move _ _ exit
situation r m b (unlocking (k ∷ left)) w = can_move _ _ release
situation r m b finished w = done refl

-- A worker that has one key and waits for another waits for a higher one.
waits-above :
    (r : Request) (k k' : ℕ) (left : List ℕ)
    → IsRest (k' ∷ left) (keys r)
    → holds r (locking (k' ∷ left)) k ≡ true
    → k < k'
waits-above r k k' left w h = (w.before k (ground arith) (ground arith)).0

module _ {n : ℕ} {requests : ℕ → Request} {base : ℕ → Bytes} {s : System}
    (inv : Inv n requests base s) (size : ℕ)
    (in_range : (i : ℕ) → All (λ k. k < size) (requests i).writeset) where
  low : (j k : ℕ) → KeySet.contains k (keys (requests j)) ≡ true → k < size
  low j k h =
      KeySet.All-contains (λ x. x < size) (keys (requests j)) k
        (sort-All (λ x. x < size) (requests j).writeset (in_range j)) h

  rest :
      (j : ℕ) {k : ℕ} {left : List ℕ}
      → s.stage j ≡ locking (k ∷ left)
      → IsRest (k ∷ left) (keys (requests j))
  rest j e = subst (Wf (requests j) s.mem.records) e (inv.wf j)

  hold-at :
      (j k : ℕ) {p : Stage}
      → s.stage j ≡ p
      → holds (requests j) (s.stage j) k ≡ true
      → holds (requests j) p k ≡ true
  hold-at j k e h = sym (ap (λ q. holds (requests j) q k) e) ∙ h

  finished-free : (j k : ℕ) → s.stage j ≡ finished → holds (requests j) (s.stage j) k ≡ true → ⊥
  finished-free j k e h = false≢true (hold-at j k e h)

  -- From a worker that waits, along the owners of the keys that are waited for, to one that moves.
  chase :
      (fuel k : ℕ)
      → k < size
      → size ≤ fuel + k
      → s.mem.locks k ≡ held
      → (t : System) × Step n requests s t
  chase zero k below bound locked = absurd (omega arith)
  chase (suc fuel) k below bound locked =
      let (j, lt, hold) = inv.covered k locked in
      elim (situation (requests j) s.mem s.mem.records (s.stage j) (inv.wf j)) [
        | can_move m' p' mv ↦ (_, pick j lt mv)
        | done e ↦ absurd (finished-free j k e hold)
        | waits k' left' e locked' ↦
            let above : k < k' =
              waits-above (requests j) k k' left' (rest j e) (hold-at j k e hold) in
            chase fuel k' (low j k' (rest j e).among.0) (omega arith) locked'
      ]

  some-Step : (i : ℕ) → i < n → s.stage i ≢ finished → (t : System) × Step n requests s t
  some-Step i lt ne = elim (situation (requests i) s.mem s.mem.records (s.stage i) (inv.wf i)) [
    | can_move m' p' mv ↦ (_, pick i lt mv)
    | done e ↦ absurd (ne e)
    | waits k left e locked ↦ chase size k (low i k (rest i e).among.0) (omega arith) locked
  ]

-- In every interleaving of requests with distinct keys in range: as long as some worker is not
-- finished, some worker can take a step.
pub no_deadlock :
    {n : ℕ} {requests : ℕ → Request} {base : ℕ → Bytes} {s : System}
    → (size : ℕ) → ((i : ℕ) → Distinct (requests i).writeset)
    → ((i : ℕ) → All (λ k. k < size) (requests i).writeset)
    → AllBytes base
    → Reach n requests base s
    → (i : ℕ) → i < n
    → s.stage i ≢ finished
    → (t : System) × Step n requests s t
no_deadlock size distinct in_range bytes reached i lt ne =
    some-Step (Reach-Inv distinct bytes reached) size in_range i lt ne

-- A bound on the steps that a worker has still to take: two for each field of a record, one to go to
-- the next record, two for each lock, and three between the loops.
abbrev pub steps_left : Request → Stage → ℕ
steps_left r (locking left) =
    length left + 2 + length (keys r) * (2 * nfields + 1) + length (keys r) + 1
steps_left r (writing left i) = 1 + (length left * (2 * nfields + 1) - 2 * i) + length (keys r) + 1
steps_left r (loaded left i v) = length left * (2 * nfields + 1) - 2 * i + length (keys r) + 1
steps_left r (unlocking left) = length left + 1
steps_left r finished = 0

Move-steps_left :
    {r : Request} {m m' : Memory} {p p' : Stage}
    → Move r m p m' p'
    → Wf r m.records p
    → steps_left r p' < steps_left r p
Move-steps_left (take e) w = omega arith
Move-steps_left {r} all_locked w = omega arith
Move-steps_left (load lt) w = omega arith
Move-steps_left store w = omega (arith, w.1)
Move-steps_left (next_key e) w = omega arith
Move-steps_left {r} {p} all_written w = omega (arith, w.1)
Move-steps_left release w = omega arith
Move-steps_left exit w = omega arith

-- The number of steps of a run.
abbrev pub steps :
    {n : ℕ} {requests : ℕ → Request} {base : ℕ → Bytes} {s : System} → Reach n requests base s → ℕ
steps start = 0
steps (later r st) = suc (steps r)

abbrev pub all_left : ℕ → (ℕ → Request) → System → ℕ
all_left n requests s = total n (λ i. steps_left (requests i) (s.stage i))

Step-all_left :
    {n : ℕ} {requests : ℕ → Request} {base : ℕ → Bytes} {s t : System}
    → Inv n requests base s
    → Step n requests s t
    → all_left n requests t < all_left n requests s
Step-all_left {n} {requests} {s} inv (pick i {stage = p'} lt mv) =
    let changed : all_left n requests (record s { stage = update s.stage i p' })
          + steps_left (requests i) (s.stage i)
        ≡ all_left n requests s + steps_left (requests i) p' =
      total-change n (λ j. steps_left (requests j) (s.stage j))
        (λ j. steps_left (requests j) (update s.stage i p' j)) i lt
        (λ j ne. ap (steps_left (requests j)) (sym (rw (beq_of_ne j i ne))))
      ∙ ap (λ q. all_left n requests s + steps_left (requests i) q) (rw (beq_refl i)) in
    omega (arith, changed, Move-steps_left mv (inv.wf i))

-- No interleaving of requests with distinct keys has more steps than the bounds of its workers add
-- up to: with `no_deadlock`, every worker finishes.
pub steps-bounded :
    {n : ℕ} {requests : ℕ → Request} {base : ℕ → Bytes} {s : System}
    → ((i : ℕ) → Distinct (requests i).writeset)
    → AllBytes base
    → (reached : Reach n requests base s)
    → steps reached + all_left n requests s ≤ all_left n requests (init requests base)
steps-bounded distinct bytes start = omega arith
steps-bounded {n} {requests} distinct bytes (later r st) =
    omega (arith, steps-bounded distinct bytes r, Step-all_left (Reach-Inv distinct bytes r) st)
