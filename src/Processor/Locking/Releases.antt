-- ===== src/Processor/Locking/Releases.antt =====
-- The loops of the locking scheduler that release the locks of one transaction.
use cmcs624_fall.Common.{ℕ, ◌≡◌, ◌≢◌, ◌⊎◌, refl, sym, ◌∙◌, List, [], ◌∷◌, inl, inr, In}
use cmcs624_fall.LockManager.{LockManager, unlocked}
use cmcs624_fall.Processor.Locking.{release_keys, release_locks}
use cmcs624_fall.Processor.{Processor}
use cmcs624_fall.Processor.Locking.Exclusion.{AllHeld, Exclusion}

module _ {L : Type 0} (lm : LockManager L) (ex : Exclusion L lm) where
  -- `release_keys` for `p`, from `l` and the ready queue `ready`.
  pub record Released (p : ℕ) (l : L) (ready : List ℕ) (l' : L) (ready' : List ℕ) : Type 0 where
    pub valid : ex.IsValid l'
    pub asked_else : (q j : ℕ) → q ≢ p → ex.asked l' q j ≡ ex.asked l q j
    pub still :
        (q : ℕ) → q ≢ p → AllHeld (ex.asked l) (ex.held l) q → AllHeld (ex.asked l') (ex.held l') q
    pub ready_new :
        (q : ℕ) → q ≢ p → In q ready' → In q ready ⊎ AllHeld (ex.asked l') (ex.held l') q

  release-still :
      (l : L) (ready : List ℕ) (p k q : ℕ)
      → ex.IsValid l
      → q ≢ p
      → AllHeld (ex.asked l) (ex.held l) q
      → AllHeld (ex.asked (lm.release l ready p k).0) (ex.held (lm.release l ready p k).0) q
  release-still l ready p k q v ne all j has =
      let e = ex.release_asked l ready p k q j v ne in
      let had : ex.asked l q j ≢ unlocked = λ none. has (e ∙ none) in
      ex.release_held l ready p k q j v ne (λ none. had (sym (all j had) ∙ none))
      ∙ all j had
      ∙ sym e

  release_keys-Released :
      (l : L) (ready : List ℕ) (p : ℕ) (ks : List ℕ)
      → ex.IsValid l
      → Released p l ready (release_keys lm l ready p ks).0 (release_keys lm l ready p ks).1
  unfolding release_keys
  release_keys-Released l ready p [] v = record {
    valid = v;
    asked_else = λ q j ne. refl;
    still = λ q ne all. all;
    ready_new = λ q ne here. inl here;
  }
  release_keys-Released l ready p (k ∷ ks) v =
      let r =
        release_keys-Released (lm.release l ready p k).0 (lm.release l ready p k).1 p ks
          (ex.release_valid l ready p k v) in
      record {
        valid = r.valid;
        asked_else = λ q j ne. r.asked_else q j ne ∙ ex.release_asked l ready p k q j v ne;
        still = λ q ne all. r.still q ne (release-still l ready p k q v ne all);
        ready_new = λ q ne here. elim (r.ready_new q ne here) [
          | inl before ↦ elim (ex.release_ready l ready p k q v ne before) [
            | inl first ↦ inl first
            | inr all ↦ inr (r.still q ne all)
          ]
          | inr all ↦ inr all
        ];
      }

  Released-trans :
      {p : ℕ} {l l₁ l₂ : L} {ready ready₁ ready₂ : List ℕ}
      → Released p l ready l₁ ready₁
      → Released p l₁ ready₁ l₂ ready₂
      → Released p l ready l₂ ready₂
  Released-trans a b = record {
    valid = b.valid;
    asked_else = λ q j ne. b.asked_else q j ne ∙ a.asked_else q j ne;
    still = λ q ne all. b.still q ne (a.still q ne all);
    ready_new = λ q ne here. elim (b.ready_new q ne here) [
      | inl before ↦ elim (a.ready_new q ne before) [
        | inl first ↦ inl first
        | inr all ↦ inr (b.still q ne all)
      ]
      | inr all ↦ inr all
    ];
  }

  pub release_locks-Released :
      (s : Processor L) (p : ℕ)
      → ex.IsValid s.locks
      → Released p s.locks s.ready_txns
          (release_locks lm s p).locks
          (release_locks lm s p).ready_txns
  unfolding release_locks
  release_locks-Released s p v =
      let t = (s.heap p).txn in
      let first = release_keys-Released s.locks s.ready_txns p t.readset v in
      Released-trans first (release_keys-Released _ _ p t.writeset first.valid)
