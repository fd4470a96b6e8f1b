-- ===== src/Atomic/Queues.antt =====
-- `AtomicQueue` of a2/utils/atomic.h.
use mathlib.Core.List.{map, append-nil, append_assoc}
use cmcs624_fall.Common.{
  ℕ, zero, suc, ◌+◌, ◌-◌, ◌<◌, ◌≡◌, refl, sym, ap, ◌∙◌, arith, Bool, true, false, List, [], ◌∷◌,
  ◌++◌, if◌then◌else◌, length, length-append,
}
use cmcs624_fall.Mutex.{
  Mutex, free, held, lock, try_lock, unlock, Attempt, returned, from_lock, ◌>>=◌,
}

-- A call that does not block, with the mutex as it finds it. `result` is what `*result` holds before.
pub data Call {ℓ} (A : Type ℓ) : Type ℓ where
  pushes pops : Mutex → A → Call A

-- What came of some calls: what is in the queue after them, what was pushed and popped by those that
-- returned true, and the mutex after each.
pub record Outcomes {ℓ} (A : Type ℓ) : Type ℓ where
  pub left : List A
  pub pushed : List A
  pub popped : List A
  pub mutexes : List Mutex

pub record AtomicQueue {ℓ} (A : Type ℓ) : Type ℓ where
  pub queue : List A
  pub mutex : Mutex

module _ {ℓ} {A : Type ℓ} where
  pub size : AtomicQueue A → Attempt (AtomicQueue A × ℕ)
  size q = do m ← from_lock (lock q.mutex); returned (record q { mutex = unlock m }, length q.queue)

  unfoldable pub push : AtomicQueue A → A → Attempt (AtomicQueue A)
  unfolding lock unlock
  push q item = do
    m ← from_lock (lock q.mutex)
    returned (record q { queue = q.queue ++ item ∷ []; mutex = unlock m })

  -- `result` is what `*result` holds before the call.
  pop_from : AtomicQueue A → List A → A → AtomicQueue A × A × Bool
  unfolding unlock
  pop_from q [] result = (record q { mutex = unlock q.mutex }, result, false)
  pop_from q (x ∷ rest) result = (record q { queue = rest; mutex = unlock q.mutex }, x, true)

  unfoldable pub pop : AtomicQueue A → A → Attempt (AtomicQueue A × A × Bool)
  unfolding pop_from lock
  pop q result = do
    m ← from_lock (lock q.mutex)
    returned (pop_from (record q { mutex = m }) q.queue result)

  push_if : AtomicQueue A → A → Mutex × Bool → AtomicQueue A × Bool
  unfolding unlock
  push_if q item (m, true) = (record q { queue = q.queue ++ item ∷ []; mutex = unlock m }, true)
  push_if q item (m, false) = (record q { mutex = m }, false)

  unfoldable pub push_non_blocking : AtomicQueue A → A → AtomicQueue A × Bool
  unfolding push_if try_lock
  push_non_blocking q item = push_if q item (try_lock q.mutex)

  pop_if : AtomicQueue A → A → Mutex × Bool → AtomicQueue A × A × Bool
  unfolding pop_from
  pop_if q result (m, true) = pop_from (record q { mutex = m }) q.queue result
  pop_if q result (m, false) = (record q { mutex = m }, result, false)

  unfoldable pub pop_non_blocking : AtomicQueue A → A → AtomicQueue A × A × Bool
  unfolding pop_if try_lock
  pop_non_blocking q result = pop_if q result (try_lock q.mutex)

  -- Pushes one after the other.
  pub push_all : AtomicQueue A → List A → Attempt (AtomicQueue A)
  unfolding push
  push_all q [] = returned q
  push_all q (x ∷ xs) = do q' ← push q x; push_all q' xs

  keep : A → Attempt (AtomicQueue A × List A) → Attempt (AtomicQueue A × List A)
  keep x m = do (q, xs) ← m; returned (q, x ∷ xs)

  -- Pops until one returns false, at most `n` of them: what they gave.
  pub pop_all : ℕ → AtomicQueue A → A → Attempt (AtomicQueue A × List A)
  unfolding pop keep
  pop_all zero q result = returned (q, [])
  pop_all (suc n) q result = do
    (q', x, got) ← pop q result
    let rest = keep x (pop_all n q' x)
    if got then rest else returned (q', [])

  push_all_lem :
      (xs ys : List A)
      → push_all (record { queue = xs; mutex = free }) ys
        ≡ returned (record { queue = xs ++ ys; mutex = free })
  unfolding push_all lock unlock
  push_all_lem xs [] = ap (λ l. returned (record { queue = l; mutex = free })) (sym (append-nil xs))
  push_all_lem xs (y ∷ ys) =
      push_all_lem (xs ++ y ∷ []) ys
      ∙ ap (λ l. returned (record { queue = l; mutex = free })) (append_assoc xs (y ∷ []) ys)

  pop_all_lem :
      (n : ℕ) (xs : List A) (result : A)
      → length xs < n
      → pop_all n (record { queue = xs; mutex = free }) result
        ≡ returned (record { queue = []; mutex = free }, xs)
  unfolding pop_all lock unlock
  pop_all_lem zero xs result h = absurd (omega arith)
  pop_all_lem (suc n) [] result h = refl
  pop_all_lem (suc n) (x ∷ xs) result h = rw (pop_all_lem n xs x (omega arith)) refl

  -- First in, first out: items pushed onto a queue that nobody has locked come out in their order,
  -- after those that were there; then the queue is empty and unlocked.
  pub pop_all-push_all :
      (xs ys : List A) (n : ℕ) (result : A)
      → length xs + length ys < n
      → (push_all (record { queue = xs; mutex = free }) ys >>= λ q. pop_all n q result)
        ≡ returned (record { queue = []; mutex = free }, xs ++ ys)
  pop_all-push_all xs ys n result h =
      ap (λ m. m >>= λ q. pop_all n q result) (push_all_lem xs ys)
      ∙ pop_all_lem n (xs ++ ys) result (omega (arith, length-append xs ys))

  abbrev after_push : A → AtomicQueue A × Bool → Outcomes A → Outcomes A
  after_push x (q, done) rest = record rest {
    pushed = if done then x ∷ rest.pushed else rest.pushed;
    mutexes = q.mutex ∷ rest.mutexes;
  }

  abbrev after_pop : AtomicQueue A × A × Bool → Outcomes A → Outcomes A
  after_pop (q, x, done) rest = record rest {
    popped = if done then x ∷ rest.popped else rest.popped;
    mutexes = q.mutex ∷ rest.mutexes;
  }

  -- The calls one after the other. Between two of them others may lock and unlock.
  pub run_calls : List A → List (Call A) → Outcomes A
  run_calls xs [] = record { left = xs; pushed = []; popped = []; mutexes = [] }
  run_calls xs (pushes m x ∷ cs) =
      let r = push_non_blocking (record { queue = xs; mutex = m }) x in
      after_push x r (run_calls r.0.queue cs)
  run_calls xs (pops m result ∷ cs) =
      let r = pop_non_blocking (record { queue = xs; mutex = m }) result in
      after_pop r (run_calls r.0.queue cs)

  abbrev pub found : Call A → Mutex
  found (pushes m x) = m
  found (pops m x) = m

  abbrev pub free_pushes : List (Call A) → List A
  free_pushes [] = []
  free_pushes (pushes free x ∷ cs) = x ∷ free_pushes cs
  free_pushes (pushes held x ∷ cs) = free_pushes cs
  free_pushes (pops m x ∷ cs) = free_pushes cs

  -- How long the queue is after calls that take effect exactly where the mutex is free.
  abbrev pub length_after : ℕ → List (Call A) → ℕ
  length_after n [] = n
  length_after n (pushes free x ∷ cs) = length_after (n + 1) cs
  length_after n (pops free x ∷ cs) = length_after (n - 1) cs
  length_after n (pushes held x ∷ cs) = length_after n cs
  length_after n (pops held x ∷ cs) = length_after n cs

  -- For any calls that do not block, each of which finds the mutex free or held: what those that return
  -- true have popped, and then what is left, is what was in the queue, and then what those that return
  -- true have pushed. The pushes that return true are those that find the mutex free, and a pop returns
  -- true exactly if it finds the mutex free and an item in the queue, so the queue is as long as that
  -- makes it. Each call leaves the mutex as it found it.
  pub non_blocking_lem :
      (xs : List A) (cs : List (Call A))
      → ((run_calls xs cs).popped ++ (run_calls xs cs).left ≡ xs ++ (run_calls xs cs).pushed)
        × ((run_calls xs cs).pushed ≡ free_pushes cs)
        × (length (run_calls xs cs).left ≡ length_after (length xs) cs)
        × ((run_calls xs cs).mutexes ≡ map found cs)
  unfolding run_calls push_non_blocking pop_non_blocking
  non_blocking_lem xs [] = (sym (append-nil xs), refl, refl, refl)
  non_blocking_lem xs (pushes free x ∷ cs) =
      let (kept, taken, len, same) = non_blocking_lem (xs ++ x ∷ []) cs in
      (
        kept ∙ append_assoc xs (x ∷ []) _,
        ap (λ l. x ∷ l) taken,
        len ∙ ap (λ n. length_after n cs) (length-append xs (x ∷ [])),
        ap (λ l. free ∷ l) same,
      )
  non_blocking_lem xs (pushes held x ∷ cs) =
      let (kept, taken, len, same) = non_blocking_lem xs cs in
      (kept, taken, len, ap (λ l. held ∷ l) same)
  non_blocking_lem xs (pops held x ∷ cs) =
      let (kept, taken, len, same) = non_blocking_lem xs cs in
      (kept, taken, len, ap (λ l. held ∷ l) same)
  non_blocking_lem [] (pops free x ∷ cs) =
      let (kept, taken, len, same) = non_blocking_lem [] cs in
      (kept, taken, len, ap (λ l. free ∷ l) same)
  non_blocking_lem (y ∷ ys) (pops free x ∷ cs) =
      let (kept, taken, len, same) = non_blocking_lem ys cs in
      (
        ap (λ l. y ∷ l) kept,
        taken,
        len ∙ ap (λ n. length_after n cs) (omega arith),
        ap (λ l. free ∷ l) same,
      )
