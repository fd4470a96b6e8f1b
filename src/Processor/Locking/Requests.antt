-- ===== src/Processor/Locking/Requests.antt =====
-- The loops of the locking scheduler that request the locks of one transaction.
use native.Mathlib.Decide.{ℕ_discrete}
use cmcs624_fall.Common.{
  ℕ, ◌<◌, ◌≡◌, ◌≢◌, refl, sym, ap, ◌∙◌, arith, Bool, true, false, List, [], ◌∷◌, if◌then◌else◌,
  ◌==◌, Bool-cases, inl, inr, beq_refl, beq_of_ne, All, All-zip, All-map, Ascending,
}
use cmcs624_fall.Common.KeySet
use cmcs624_fall.LockManager.{LockManager, LockMode, unlocked, shared, exclusive}
use cmcs624_fall.Processor.Locking.{lock_keys, request_locks}
use cmcs624_fall.Processor.Locking.Exclusion.{AllHeld, IsRequest, Exclusion}

true≢false : true ≡ false → ⊥
true≢false e = cc

All-all : {P : ℕ → Type 0} → ((k : ℕ) → P k) → (ks : List ℕ) → All P ks
All-all h [] = tt
All-all h (k ∷ ks) = (h k, All-all h ks)

chosen : (c : Bool) (m n : LockMode) → n ≡ m → (if c then m else n) ≡ m
chosen true m n e = refl
chosen false m n e = e

module _ {L : Type 0} (lm : LockManager L) (ex : Exclusion L lm) where
  -- `lock_keys` for the transaction `p`, from the locks `l` to the locks `l'`.
  record Asks (mode : LockMode) (p : ℕ) (ks : List ℕ) (l l' : L) : Type 0 where
    pub valid : ex.IsValid l'
    pub asked_here :
        (j : ℕ) → ex.asked l' p j ≡ (if KeySet.contains j ks then mode else ex.asked l p j)
    pub asked_else : (q j : ℕ) → q ≢ p → ex.asked l' q j ≡ ex.asked l q j
    pub held_else : (q j : ℕ) → q ≢ p → ex.held l' q j ≡ ex.held l q j

  module _ (mode : LockMode) (lock : L → ℕ → ℕ → L × Bool)
      (law : IsRequest ex.IsValid ex.asked ex.held mode lock) (p : ℕ) where
    lock-AllHeld :
        (l : L) (k : ℕ)
        → ex.IsValid l
        → ex.asked l p k ≡ unlocked
        → (lock l p k).1 ≡ true
        → AllHeld (ex.asked l) (ex.held l) p
        → AllHeld (ex.asked (lock l p k).0) (ex.held (lock l p k).0) p
    lock-AllHeld l k v new granted all j has = elim (ℕ_discrete j k) [
      | yes e ↦
          ap (ex.held (lock l p k).0 p) e
          ∙ law.grants l p k v new granted
          ∙ sym (ap (ex.asked (lock l p k).0 p) e ∙ law.asks l p k v new)
      | no ne ↦
          law.held_else l p k v new p j (inr ne)
          ∙ all j (λ none. has (law.asked_else l p k v new p j (inr ne) ∙ none))
          ∙ sym (law.asked_else l p k v new p j (inr ne))
    ]

    asked-cons :
        (l : L) (k : ℕ) (ks : List ℕ) (j : ℕ)
        → ex.IsValid l
        → ex.asked l p k ≡ unlocked
        → (if KeySet.contains j ks then mode else ex.asked (lock l p k).0 p j)
          ≡ (if KeySet.contains j (k ∷ ks) then mode else ex.asked l p j)
    asked-cons l k ks j v new = elim (ℕ_discrete j k) [
      | yes e ↦
          chosen (KeySet.contains j ks) mode _
            (ap (ex.asked (lock l p k).0 p) e ∙ law.asks l p k v new)
          ∙ ap (λ c. if c then mode else ex.asked l p j)
              (sym (
                ap (λ c. if c then true else KeySet.contains j ks)
                  (ap (λ i. j == i) (sym e) ∙ beq_refl j)))
      | no ne ↦
          ap (λ m. if KeySet.contains j ks then mode else m)
            (law.asked_else l p k v new p j (inr ne))
          ∙ ap (λ c. if c then mode else ex.asked l p j)
              (sym (ap (λ c. if c then true else KeySet.contains j ks) (beq_of_ne j k ne)))
    ]

    lock_keys-Asks :
        (l : L) (ks : List ℕ) (blocked : Bool)
        → ex.IsValid l
        → Ascending ks
        → All (λ k. ex.asked l p k ≡ unlocked) ks
        → Asks mode p ks l (lock_keys lm lock l p ks blocked).0
          × ((blocked ≡ false → AllHeld (ex.asked l) (ex.held l) p)
              → (lock_keys lm lock l p ks blocked).1 ≡ false
              → AllHeld
                  (ex.asked (lock_keys lm lock l p ks blocked).0)
                  (ex.held (lock_keys lm lock l p ks blocked).0)
                  p)
    unfolding lock_keys
    lock_keys-Asks l [] blocked v asc new = (
      record {
        valid = v;
        asked_here = λ j. refl;
        asked_else = λ q j ne. refl;
        held_else = λ q j ne. refl;
      },
      λ h e. h e,
    )
    lock_keys-Asks l (k ∷ ks) blocked v asc new =
        let l' : L = (lock l p k).0 in
        let b : Bool = if (lock l p k).1 then blocked else true in
        let rest = lock_keys-Asks l' ks b (law.valid l p k v new.0) asc.1 (
          All-zip (λ j. k < j) (λ j. ex.asked l p j ≡ unlocked) (λ j. ex.asked l' p j ≡ unlocked)
            (λ j above none. law.asked_else l p k v new.0 p j (inr (λ e. omega arith)) ∙ none) ks
            asc.0 new.1) in
        let r = rest.0 in
        (
          record {
            valid = r.valid;
            asked_here = λ j. r.asked_here j ∙ asked-cons l k ks j v new.0;
            asked_else = λ q j ne. r.asked_else q j ne ∙ law.asked_else l p k v new.0 q j (inl ne);
            held_else = λ q j ne. r.held_else q j ne ∙ law.held_else l p k v new.0 q j (inl ne);
          },
          λ h e.
              rest.1
                (λ quiet. elim (Bool-cases (lock l p k).1) [
                  | inl granted ↦
                      lock-AllHeld l k v new.0 granted
                        (h (ap (λ c. if c then blocked else true) (sym granted) ∙ quiet))
                  | inr refused ↦
                      absurd
                        (true≢false (ap (λ c. if c then blocked else true) (sym refused) ∙ quiet))
                ])
                e,
        )

  -- The modes that a transaction asks for.
  abbrev pub wanted : List ℕ → List ℕ → ℕ → LockMode
  wanted readset writeset j =
      if KeySet.contains j writeset
      then exclusive
      else (if KeySet.contains j readset then shared else unlocked)

  -- What `request_locks` leaves of the locks `l`.
  pub record Requested (p : ℕ) (readset writeset : List ℕ) (l l' : L) : Type 0 where
    pub valid : ex.IsValid l'
    pub asked_here : (j : ℕ) → ex.asked l' p j ≡ wanted readset writeset j
    pub asked_else : (q j : ℕ) → q ≢ p → ex.asked l' q j ≡ ex.asked l q j
    pub held_else : (q j : ℕ) → q ≢ p → ex.held l' q j ≡ ex.held l q j

  -- A transaction that has asked for nothing requests its locks; if it is not blocked, it holds them.
  pub request_locks-Requested :
      (l : L) (p : ℕ) (readset writeset : List ℕ)
      → ex.IsValid l
      → Ascending readset
      → Ascending writeset
      → All (λ k. KeySet.contains k readset ≡ false) writeset
      → ((j : ℕ) → ex.asked l p j ≡ unlocked)
      → Requested p readset writeset l (request_locks lm l p readset writeset).0
        × ((request_locks lm l p readset writeset).1 ≡ false
            → AllHeld
                (ex.asked (request_locks lm l p readset writeset).0)
                (ex.held (request_locks lm l p readset writeset).0)
                p)
  unfolding request_locks
  request_locks-Requested l p readset writeset v ar aw apart new =
      let r = lock_keys lm lm.read_lock l p readset false in
      let (reads, quiet) =
        lock_keys-Asks shared lm.read_lock ex.reads p l readset false v ar
          (All-all (λ k. new k) readset) in
      let (writes, all) =
        lock_keys-Asks exclusive lm.write_lock ex.writes p r.0 writeset r.1 reads.valid aw (
          All-map (λ k. KeySet.contains k readset ≡ false) (λ k. ex.asked r.0 p k ≡ unlocked)
            (λ k out.
              reads.asked_here k ∙ ap (λ c. if c then shared else ex.asked l p k) out ∙ new k)
            writeset apart) in
      (
        record {
          valid = writes.valid;
          asked_here = λ j.
              writes.asked_here j
              ∙ ap (λ m. if KeySet.contains j writeset then exclusive else m)
                  (reads.asked_here j
                    ∙ ap (λ m. if KeySet.contains j readset then shared else m) (new j));
          asked_else = λ q j ne. writes.asked_else q j ne ∙ reads.asked_else q j ne;
          held_else = λ q j ne. writes.held_else q j ne ∙ reads.held_else q j ne;
        },
        all (quiet (λ _ k has. absurd (has (new k)))),
      )
