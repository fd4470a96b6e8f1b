-- ===== src/Txn/Programs/Random/Draws.antt =====
-- The sets that the constructor of `RMW` draws.
use cmcs624_fall.Common.{
  ℕ, zero, suc, ◌+◌, ◌%◌, ◌≤◌, ◌<◌, ◌≡◌, refl, sym, subst, ap, ◌∙◌, arith, Bool, true, false, ◌||◌,
  List, [], ◌∷◌, ◌++◌, leb, length, length-append, All, All-map, All-append, Ascending, In,
  Bool-cases, inl, inr, ok,
}
use cmcs624_fall.Common.KeySet
use cmcs624_fall.Common.Draws.{Covers, length-insert_new, contains-append, fresh_key}
use cmcs624_fall.Mutex.{returned, failed}
use cmcs624_fall.Txn.{Txn, check_read_write_sets}
use cmcs624_fall.Txn.Access.{check_read_write_sets_lem}
use cmcs624_fall.Txn.Programs.{Object, new_rmw}
use cmcs624_fall.Txn.Programs.Constructors.{IsRunnable, new-IsRunnable}
use cmcs624_fall.Txn.Programs.Random.{draw, draw_keys, new_random_rmw}

All-insert {κ} : (P : ℕ → Type κ) (k : ℕ) (s : List ℕ) → P k → All P s → All P (KeySet.insert k s)
All-insert P k [] p a = (p, tt)
All-insert P k (j ∷ s) p a = ground (arith, All-insert P k s p a.1)

All-In {κ} : (P : ℕ → Type κ) (s : List ℕ) (k : ℕ) → All P s → In k s → P k
All-In P [] k a m = absurd m
All-In P (j ∷ s) k a (inl e) = subst P (sym e) a.0
All-In P (j ∷ s) k a (inr m) = All-In P s k a.1 m

module _ (rand : ℕ → ℕ) (dbsize : ℕ) where
  draw_lem :
      (taken : ℕ → Bool) (fuel d pos : ℕ)
      → d < fuel
      → 0 < dbsize
      → taken (rand (pos + d) % dbsize) ≡ false
      → (key pos' : ℕ) × (draw rand dbsize taken fuel pos ≡ returned (key, pos'))
        × (key < dbsize)
        × (taken key ≡ false)
  unfolding draw
  draw_lem taken zero d pos h z out = absurd (omega arith)
  draw_lem taken (suc fuel) zero pos h z out =
      let e : taken (rand pos % dbsize) ≡ false =
        ap (λ p. taken (rand p % dbsize)) (omega arith) ∙ out in
      (rand pos % dbsize, suc pos, rw e, omega arith, e)
  draw_lem taken (suc fuel) (suc d) pos h z out = elim (Bool-cases (taken (rand pos % dbsize))) [
    | inr e ↦ (rand pos % dbsize, suc pos, rw e, omega arith, e)
    | inl e ↦
        let (key, pos', run, below, new) =
          draw_lem taken fuel d (suc pos) (omega arith) z
            (ap (λ p. taken (rand p % dbsize)) (omega arith) ∙ out) in
        (key, pos', rw e run, below, new)
  ]

  -- A key that a loop may add, when the other set is `other`.
  abbrev pub IsDrawn : List ℕ → ℕ → Type 0
  IsDrawn other k = (k < dbsize) × (KeySet.contains k other ≡ false)

  module _ (fuel : ℕ) (covers : Covers rand dbsize fuel) (other : List ℕ) where
    draw_keys_lem :
        (n pos : ℕ) (set : List ℕ)
        → length other + length set + n ≤ dbsize
        → Ascending set
        → All (IsDrawn other) set
        → (set' : List ℕ) × (pos' : ℕ) × (draw_keys rand dbsize fuel other n set pos
            ≡ returned (set', pos'))
          × Ascending set'
          × All (IsDrawn other) set'
          × (length set' ≡ length set + n)
    unfolding draw_keys
    draw_keys_lem zero pos set room a drawn = (set, pos, refl, a, drawn, omega arith)
    draw_keys_lem (suc n) pos set room a drawn =
        let (k, below, out) =
          fresh_key dbsize (other ++ set) (omega (arith, length-append other set)) in
        let (d, lt, e) = covers pos k below in
        let free : (KeySet.contains k other || KeySet.contains k set) ≡ false =
          sym (contains-append k other set) ∙ out in
        let (key, pos', run, below', new) =
          draw_lem (λ j. KeySet.contains j other || KeySet.contains j set) fuel d pos lt
            (omega arith) (ap (λ j. KeySet.contains j other || KeySet.contains j set) e ∙ free) in
        let absent : KeySet.contains key set ≡ false = ground arith in
        let (set', pos'', runs, a', drawn', len) =
          draw_keys_lem n pos' (KeySet.insert key set)
            (omega (arith, length-insert_new key set absent)) (KeySet.insert-Ascending key set a)
            (All-insert (IsDrawn other) key set (below', ground arith) drawn) in
        (set', pos'', rw run runs, a', drawn', omega (arith, len, length-insert_new key set absent))

-- What the constructor promises of its object.
pub record IsRandom (dbsize readsetsize writesetsize : ℕ) (o : Object) : Type 0 where
  pub readset_length : length o.txn.readset ≡ readsetsize
  pub writeset_length : length o.txn.writeset ≡ writesetsize
  pub in_range : All (λ k. k < dbsize) (o.txn.readset ++ o.txn.writeset)
  pub no_overlap : check_read_write_sets o.txn ≡ ok tt
  pub runnable : IsRunnable o

-- With a generator that draws every key below `dbsize` in each stretch of `fuel` draws, and with sizes
-- that fit into `dbsize`, the constructor returns: its sets have those sizes, their keys are below
-- `dbsize`, no key is in both, so that `CheckReadWriteSets` returns, and its program can run.
pub new_random_rmw_lem :
    (rand : ℕ → ℕ) (fuel pos dbsize readsetsize writesetsize time : ℕ) (unset : Txn)
    → Covers rand dbsize fuel
    → readsetsize + writesetsize ≤ dbsize
    → (o : Object) × (pos' : ℕ) × (new_random_rmw rand fuel pos dbsize readsetsize writesetsize time
          unset
        ≡ returned (o, pos'))
      × IsRandom dbsize readsetsize writesetsize o
unfolding new_random_rmw new_rmw
new_random_rmw_lem rand fuel pos dbsize rs ws time unset covers fits =
    let (readset, pos', run, a, drawn, len) =
      draw_keys_lem rand dbsize fuel covers [] rs pos [] (omega arith) tt tt in
    let (writeset, pos'', run', a', drawn', len') =
      draw_keys_lem rand dbsize fuel covers readset ws pos' [] (omega (arith, len)) tt tt in
    let fit : leb (rs + ws) dbsize ≡ true = ground arith in
    (
      new_rmw readset writeset time unset,
      pos'',
      rw (fit, run, run') refl,
      record {
        readset_length = omega (arith, len);
        writeset_length = omega (arith, len');
        in_range =
            All-append (λ k. k < dbsize) readset writeset
              (All-map (IsDrawn rand dbsize []) (λ k. k < dbsize) (λ k x. x.0) readset drawn)
              (All-map (IsDrawn rand dbsize readset) (λ k. k < dbsize) (λ k x. x.0) writeset
                drawn');
        no_overlap =
            (check_read_write_sets_lem (new_rmw readset writeset time unset).txn).0.1
              (λ k m. (All-In (IsDrawn rand dbsize readset) writeset k drawn' m).1);
        runnable = (new-IsRunnable [] readset writeset time unset tt a').3;
      },
    )

-- Sizes that do not fit fail the assertion.
pub new_random_rmw_fails :
    (rand : ℕ → ℕ) (fuel pos dbsize readsetsize writesetsize time : ℕ) (unset : Txn)
    → dbsize < readsetsize + writesetsize
    → new_random_rmw rand fuel pos dbsize readsetsize writesetsize time unset ≡ failed
unfolding new_random_rmw
new_random_rmw_fails rand fuel pos dbsize rs ws time unset over = ground arith
