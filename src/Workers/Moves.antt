-- ===== src/Workers/Moves.antt =====
-- A step of worker `i` keeps each field of `Inv`.
use native.Mathlib.Decide.{ℕ_discrete}
use cmcs624_fall.Common.{
  ℕ, ◌<◌, ◌≡◌, ◌≢◌, refl, sym, ap, ◌∙◌, subst, arith, true, Ascending, beq_refl, beq_of_ne,
}
use cmcs624_fall.Mutex.{free, held}
use cmcs624_fall.Words.{Bytes}
use cmcs624_fall.Database.{update}
use cmcs624_fall.Request.{Request}
use cmcs624_fall.Workers.{
  Stage, Memory, keys, Move, take, all_locked, load, store, next_key, all_written, release, exit,
  holds, System,
}
use cmcs624_fall.Workers.Keys.{IsRest-all, IsRest-tail}
use cmcs624_fall.Workers.Changes.{Wf, LockChange, gains, loses, keeps}
use cmcs624_fall.Workers.Invariant.{Inv}

pub Move-Wf :
    {r : Request} {m m' : Memory} {p p' : Stage}
    → Ascending (keys r)
    → Move r m p m' p'
    → Wf r m.records p
    → Wf r m'.records p'
Move-Wf a (take e) w = IsRest-tail w
Move-Wf {r} a all_locked w = (IsRest-all (keys r) a, omega arith)
Move-Wf a (load lt) w = (w.0, lt, refl)
Move-Wf a store w = (w.0, omega arith)
Move-Wf a (next_key e) w = (IsRest-tail w.0, omega arith)
Move-Wf {r} a all_written w = IsRest-all (keys r) a
Move-Wf a release w = IsRest-tail w
Move-Wf a exit w = tt

free-held : free ≡ held → ⊥
free-held e = cc

module _ {n : ℕ} {requests : ℕ → Request} {base : ℕ → Bytes} {s : System}
    (inv : Inv n requests base s) (i : ℕ) (lt : i < n) (p' : Stage) where
  abbrev p : Stage
  p = s.stage i

  abbrev r : Request
  r = requests i

  abbrev stage' : ℕ → Stage
  stage' = update s.stage i p'

  -- The others stand where they stood.
  stage-ne : (j : ℕ) → j ≢ i → stage' j ≡ s.stage j
  stage-ne j ne = rw (beq_of_ne j i ne)

  stage_self : stage' i ≡ p'
  stage_self = rw (beq_refl i)

  holds-ne : (j k : ℕ) → j ≢ i → holds (requests j) (stage' j) k ≡ holds (requests j) (s.stage j) k
  holds-ne j k ne = ap (λ q. holds (requests j) q k) (stage-ne j ne)

  holds_self : (j k : ℕ) → j ≡ i → holds (requests j) (stage' j) k ≡ holds r p' k
  holds_self j k e =
      subst (λ x. holds (requests x) (stage' x) k ≡ holds r p' k) (sym e)
        (ap (λ q. holds r q k) stage_self)

  -- A worker that held a lock holds it still, unless it is the one that moved.
  forth :
      (j k : ℕ)
      → holds (requests j) (s.stage j) k ≡ true
      → (holds r p k ≡ true → holds r p' k ≡ true)
      → holds (requests j) (stage' j) k ≡ true
  forth j k h f = elim (ℕ_discrete j i) [
    | yes same ↦
        holds_self j k same ∙ f (subst (λ x. holds (requests x) (s.stage x) k ≡ true) same h)
    | no ne ↦ holds-ne j k ne ∙ h
  ]

  back :
      (j k : ℕ)
      → holds (requests j) (stage' j) k ≡ true
      → (holds r p' k ≡ true → holds r p k ≡ true)
      → holds (requests j) (s.stage j) k ≡ true
  back j k h f = elim (ℕ_discrete j i) [
    | yes same ↦
        subst (λ x. holds (requests x) (s.stage x) k ≡ true) (sym same)
          (f (sym (holds_self j k same) ∙ h))
    | no ne ↦ sym (holds-ne j k ne) ∙ h
  ]

  pub locked-change :
      {m' : Memory}
      → LockChange r s.mem m' p p'
      → (j k : ℕ) → holds (requests j) (stage' j) k ≡ true
      → m'.locks k ≡ held
  locked-change (gains k fr e h) j k' hold = elim (ℕ_discrete k' k) [
    | yes same ↦ ground (arith, ap (λ f. f k') e, same)
    | no ne ↦
        let old = inv.locked j k' (back j k' hold (λ x. ground (arith, h k'))) in
        ground (arith, ap (λ f. f k') e, old, ne)
  ]
  locked-change (loses k hd e h) j k' hold = elim (ℕ_discrete j i) [
    | yes same ↦ ground (arith, ap (λ f. f k') e, inv.locked i k', h k', holds_self j k' same)
    | no ne ↦ ground (
      arith,
      ap (λ f. f k') e,
      inv.locked j k',
      holds-ne j k' ne,
      inv.unique j i k',
      λ (x : k' ≡ k). ap (λ y. holds r p y) x,
    )
  ]
  locked-change (keeps e h) j k' hold =
      ap (λ f. f k') e ∙ inv.locked j k' (back j k' hold (λ x. sym (h k') ∙ x))

  pub covered-change :
      {m' : Memory}
      → LockChange r s.mem m' p p'
      → (k : ℕ) → m'.locks k ≡ held
      → (j : ℕ) × (j < n) × (holds (requests j) (stage' j) k ≡ true)
  covered-change (gains k fr e h) k' q = elim (ℕ_discrete k' k) [
    | yes same ↦ (i, lt, holds_self i k' refl ∙ ground (arith, h k', same))
    | no ne ↦
        let (j, below, hold) = inv.covered k' (ground (arith, ap (λ f. f k') e, ne)) in
        (j, below, forth j k' hold (λ x. ground (arith, h k')))
  ]
  covered-change (loses k hd e h) k' q =
      let ne : k' ≢ k = λ x. ground (arith, ap (λ f. f k') e) in
      let (j, below, hold) = inv.covered k' (ground (arith, ap (λ f. f k') e)) in
      (j, below, forth j k' hold (λ x. ground (arith, h k')))
  covered-change (keeps e h) k' q =
      let (j, below, hold) = inv.covered k' (sym (ap (λ f. f k') e) ∙ q) in
      (j, below, forth j k' hold (λ x. h k' ∙ x))

  -- Nobody holds a lock that is free.
  none_holds : (k j : ℕ) → s.mem.locks k ≡ free → holds (requests j) (s.stage j) k ≡ true → ⊥
  none_holds k j fr hold = free-held (sym fr ∙ inv.locked j k hold)

  only_mover : (k j : ℕ) → s.mem.locks k ≡ free → holds (requests j) (stage' j) k ≡ true → j ≡ i
  only_mover k j fr hold = elim (ℕ_discrete j i) [
    | yes same ↦ same
    | no ne ↦ absurd (none_holds k j fr (sym (holds-ne j k ne) ∙ hold))
  ]

  pub unique-change :
      {m' : Memory}
      → LockChange r s.mem m' p p'
      → (a b k : ℕ) → holds (requests a) (stage' a) k ≡ true
      → holds (requests b) (stage' b) k ≡ true
      → a ≡ b
  unique-change (gains k fr e h) a b k' ha hb = elim (ℕ_discrete k' k) [
    | yes same ↦
        let fr' : s.mem.locks k' ≡ free = ap s.mem.locks same ∙ fr in
        only_mover k' a fr' ha ∙ sym (only_mover k' b fr' hb)
    | no ne ↦
        inv.unique a b k' (back a k' ha (λ x. ground (arith, h k')))
          (back b k' hb (λ x. ground (arith, h k')))
  ]
  unique-change (loses k hd e h) a b k' ha hb =
      inv.unique a b k' (back a k' ha (λ x. ground (arith, h k')))
        (back b k' hb (λ x. ground (arith, h k')))
  unique-change (keeps e h) a b k' ha hb =
      inv.unique a b k' (back a k' ha (λ x. sym (h k') ∙ x)) (back b k' hb (λ x. sym (h k') ∙ x))
