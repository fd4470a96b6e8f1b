-- ===== src/Processor/Interleaved/Agreement.antt =====
-- What a thread finds in a storage under change, beside one that is not.
use cmcs624_fall.Common.{
  ℕ, ◌<◌, ◌≡◌, ◌≢◌, refl, sym, ap, ◌∙◌, arith, Bool, true, false, List, [], ◌∷◌, ◌++◌,
  if◌then◌else◌, ◌||◌, beq_refl, count,
}
use cmcs624_fall.Common.KeySet
use cmcs624_fall.Common.Map.{Map}
use cmcs624_fall.LockManager.{LockManager}
use cmcs624_fall.Storage.{Storage, read}
use cmcs624_fall.Processor.{Processor, Store, single, store_read, keep_read, read_keys}
use cmcs624_fall.Processor.Execution.{view}
use cmcs624_fall.Common.Draws.{contains-append}
use cmcs624_fall.Processor.Locking.Places.{beq-count}
use cmcs624_fall.Processor.Locking.Contract.{Contract}
use cmcs624_fall.Processor.Locking.Isolation.{Isolation}
use cmcs624_fall.Processor.Locking.Invariant.{Inv, keys-apart}
use cmcs624_fall.Processor.Interleaved.{Machine, Point, at, applying}
use cmcs624_fall.Processor.Interleaved.Simulation.{Ghost, abstract, Storing}

pub read_keys-append :
    (st : Store) (junk : ℕ) (ks ls : List ℕ) (reads : Map ℕ)
    → read_keys st junk (ks ++ ls) reads ≡ read_keys st junk ls (read_keys st junk ks reads)
unfolding read_keys
read_keys-append st junk [] ls reads = refl
read_keys-append st junk (k ∷ ks) ls reads =
    read_keys-append st junk ks ls (keep_read (store_read st k junk 0) k reads)

pub store_read-same :
    (st st' : Storage) (k junk : ℕ)
    → view st k ≡ view st' k
    → store_read (single st) k junk 0 ≡ store_read (single st') k junk 0
unfolding store_read read
store_read-same st st' k junk e = rw e refl

or_true : (b : Bool) → (b || true) ≡ true
or_true true = refl
or_true false = refl

pub declared-part :
    (done : List ℕ) (k : ℕ) (ks rs ws : List ℕ)
    → done ++ k ∷ ks ≡ rs ++ ws
    → (KeySet.contains k rs || KeySet.contains k ws) ≡ true
declared-part done k ks rs ws e =
    sym (contains-append k rs ws)
    ∙ ap (KeySet.contains k) (sym e)
    ∙ contains-append k done (k ∷ ks)
    ∙ ap (λ b. KeySet.contains k done || (if b then true else KeySet.contains k ks)) (beq_refl k)
    ∙ or_true (KeySet.contains k done)

module _ {L : Type 0} (lm : LockManager L) (contract : Contract L lm) (iso : Isolation lm)
    (s₀ : Processor L) (st₀ : Storage) (m : Machine L) (g : Ghost)
    (inv : Inv lm contract iso s₀ st₀ (abstract m g)) where
  -- A transaction that runs reads from a storage under change what it would read from the other one.
  pub agree :
      (point : Point)
      → Storing s₀.heap point m.processor.storage m.processor.completed_txns g
      → (q k : ℕ) → 0 < count q g.tasks
      → (KeySet.contains k (s₀.heap q).txn.readset || KeySet.contains k (s₀.heap q).txn.writeset)
        ≡ true
      → (junk : ℕ) → store_read m.processor.storage k junk 0 ≡ store_read (single g.store) k junk 0
  agree (at phase) storing q k h declared junk = ap (λ st. store_read st k junk 0) storing.0
  agree (applying p c i left) storing q k h declared junk =
      let mine : 0 < count p g.completed =
        omega (arith, ap (count p) storing.popped, sym (beq-count p)) in
      let ne : p ≢ q =
        λ same. omega (arith, inv.once q, h, ap (λ x. count x g.completed) same, mine) in
      ap (λ st. store_read st k junk 0) storing.stored
      ∙ store_read-same storing.written g.store k junk
          (storing.outside k (
            keys-apart lm contract iso s₀ st₀ (abstract m g) inv p q ne (omega (arith, mine))
              (omega (arith, h)) k declared)).0
