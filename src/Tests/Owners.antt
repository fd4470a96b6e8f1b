-- ===== src/Tests/Owners.antt =====
-- A small lock manager: a key has one owner, and whoever asks for a key that is owned waits.
use native.Mathlib.Decide.{ℕ_discrete}
use mathlib.Core.Bool.{false≢true}
use cmcs624_fall.Common.{
  ◌⊎◌, ℕ, ◌≡◌, ◌≢◌, refl, sym, ap, ◌∙◌, arith, Bool, true, false, ◌&&◌, Option, none, some, List,
  if◌then◌else◌, ◌==◌, inl, inr, beq_refl, beq_of_ne,
}
use cmcs624_fall.LockManager.{LockManager, LockMode, unlocked, shared, exclusive}
use cmcs624_fall.Processor.Locking.Contract.{Contract}
use cmcs624_fall.Processor.Locking.Exclusion.{Modes, SameBut, Exclusion, IsRequest}

pub record Owners : Type 0 where
  pub owner : ℕ → Option ℕ
  pub asked : Modes
  pub waits : ℕ → ℕ

abbrev pub owns : Option ℕ → ℕ → Bool
owns none p = false
owns (some q) p = q == p

abbrev pub set_mode : Modes → ℕ → ℕ → LockMode → Modes
set_mode asked p k mode q j = if (q == p) && (j == k) then mode else asked q j

abbrev pub request : LockMode → Option ℕ → Owners → ℕ → ℕ → Owners × Bool
request mode none l p k = (
  record l { owner = λ j. if j == k then some p else l.owner j; asked = set_mode l.asked p k mode },
  true,
)
request mode (some q) l p k = (
  record l { asked = set_mode l.asked p k mode; waits = λ q. if q == p then 1 else l.waits q },
  false,
)

abbrev pub lock_as : LockMode → Owners → ℕ → ℕ → Owners × Bool
lock_as mode l p k = request mode (l.owner k) l p k

abbrev pub unlock_key : Owners → List ℕ → ℕ → ℕ → Owners × List ℕ
unlock_key l ready p k = (
  record l {
    owner = λ j. if (j == k) && owns (l.owner j) p then none else l.owner j;
    asked = set_mode l.asked p k unlocked;
  },
  ready,
)

abbrev pub owners : LockManager Owners
owners = record {
  read_lock = lock_as shared;
  write_lock = lock_as exclusive;
  release = unlock_key;
  status = λ l k found. (unlocked, found);
}

abbrev pub held : Owners → Modes
held l p k = if owns (l.owner k) p then l.asked p k else unlocked

pub request-IsLock :
    (mode : LockMode) (o : Option ℕ) (l : Owners) (p k : ℕ)
    → ((q : ℕ) → q ≢ p → (request mode o l p k).0.waits q ≡ l.waits q)
      × ((request mode o l p k).1 ≡ true → (request mode o l p k).0.waits p ≡ l.waits p)
      × ((request mode o l p k).1 ≡ false → (request mode o l p k).0.waits p ≡ 1)
request-IsLock mode none l p k = (λ q ne. refl, λ e. refl, λ e. cc)
request-IsLock mode (some o) l p k = (λ q ne. ground arith, λ e. cc, λ e. ground arith)

unfoldable pub owners-Contract : Contract Owners owners
owners-Contract = record {
  waits = λ l. l.waits;
  read_law = λ l p k. request-IsLock shared (l.owner k) l p k;
  write_law = λ l p k. request-IsLock exclusive (l.owner k) l p k;
  release_law = λ l ready p k q. refl;
}

request-asked :
    (mode : LockMode) (o : Option ℕ) (l : Owners) (p k : ℕ)
    → (request mode o l p k).0.asked p k ≡ mode
request-asked mode none l p k = ground arith
request-asked mode (some q) l p k = ground arith

asked-else :
    (mode : LockMode) (o : Option ℕ) (l : Owners) (p k : ℕ)
    → SameBut p k l.asked (request mode o l p k).0.asked
asked-else mode none l p k q j (inl ne) = ground arith
asked-else mode none l p k q j (inr ne) = ground arith
asked-else mode (some o) l p k q j (inl ne) = ground arith
asked-else mode (some o) l p k q j (inr ne) = ground arith

owner-else :
    (o : Option ℕ) (l : Owners) (p k q j : ℕ)
    → l.owner k ≡ o
    → (q ≢ p) ⊎ (j ≢ k)
    → (mode : LockMode) → owns ((request mode o l p k).0.owner j) q ≡ owns (l.owner j) q
owner-else none l p k q j e (inr ne) mode =
    ap (λ b. owns (if b then some p else l.owner j) q) (beq_of_ne j k ne)
owner-else none l p k q j e (inl ne) mode = elim (ℕ_discrete j k) [
  | yes same ↦
      ap (λ i. owns (if i == k then some p else l.owner i) q) same
      ∙ ap (λ b. owns (if b then some p else l.owner k) q) (beq_refl k)
      ∙ beq_of_ne p q (λ back. ne (sym back))
      ∙ sym (ap (λ i. owns (l.owner i) q) same ∙ ap (λ x. owns x q) e)
  | no other ↦ ap (λ b. owns (if b then some p else l.owner j) q) (beq_of_ne j k other)
]
owner-else (some o) l p k q j e apart mode = refl

request-grants :
    (mode : LockMode) (o : Option ℕ) (l : Owners) (p k : ℕ)
    → (request mode o l p k).1 ≡ true
    → held (request mode o l p k).0 p k ≡ mode
request-grants mode none l p k granted = ground arith
request-grants mode (some o) l p k granted = absurd (false≢true granted)

unlocked≢exclusive : unlocked ≡ exclusive → ⊥
unlocked≢exclusive e = cc

pub release-held :
    (o : Option ℕ) (asked : Modes) (p k q j : ℕ)
    → q ≢ p
    → (if owns o q then asked q j else unlocked) ≢ unlocked
    → (if owns (if (j == k) && owns o p then none else o) q
        then set_mode asked p k unlocked q j
        else unlocked)
      ≡ (if owns o q then asked q j else unlocked)
release-held none asked p k q j ne has = absurd (has refl)
release-held (some r) asked p k q j ne has = elim (ℕ_discrete r q) [
  | yes same ↦ rw (same, beq_of_ne q p ne) (ground arith)
  | no other ↦ absurd (has (ap (λ b. if b then asked q j else unlocked) (beq_of_ne r q other)))
]

pub one_owner :
    (o : Option ℕ) (a b : LockMode) (p q : ℕ)
    → p ≢ q
    → (if owns o p then a else unlocked) ≡ exclusive
    → (if owns o q then b else unlocked) ≡ unlocked
one_owner none a b p q ne has = refl
one_owner (some r) a b p q ne has = elim (ℕ_discrete r p) [
  | yes same ↦ ap (λ c. if c then b else unlocked) (beq_of_ne r q (λ e. ne (sym same ∙ e)))
  | no other ↦
      absurd
        (unlocked≢exclusive (sym (ap (λ c. if c then a else unlocked) (beq_of_ne r p other)) ∙ has))
]

pub request-IsRequest :
    (mode : LockMode) → IsRequest {L = Owners} (λ _. Unit) (λ l. l.asked) held mode (lock_as mode)
request-IsRequest mode = record {
  valid = λ l p k v new. tt;
  asks = λ l p k v new. request-asked mode (l.owner k) l p k;
  asked_else = λ l p k v new q j apart. asked-else mode (l.owner k) l p k q j apart;
  held_else = λ l p k v new q j apart.
      ap (λ b. if b then (lock_as mode l p k).0.asked q j else unlocked)
        (owner-else (l.owner k) l p k q j refl apart mode)
      ∙ ap (λ m. if owns (l.owner j) q then m else unlocked)
          (asked-else mode (l.owner k) l p k q j apart);
  grants = λ l p k v new granted. request-grants mode (l.owner k) l p k granted;
}

unfoldable pub owners-Exclusion : Exclusion Owners owners
owners-Exclusion = record {
  IsValid = λ _. Unit;
  asked = λ l. l.asked;
  held = held;
  reads = request-IsRequest shared;
  writes = request-IsRequest exclusive;
  release_valid = λ l ready p k v. tt;
  release_asked = λ l ready p k q j v ne. ground arith;
  release_held = λ l ready p k q j v ne has. release-held (l.owner j) l.asked p k q j ne has;
  release_ready = λ l ready p k q v ne here. inl here;
  exclusive_law = λ l p q k v ne has. one_owner (l.owner k) (l.asked p k) (l.asked q k) p q ne has;
}
