-- ===== src/Atomic/Sets.antt =====
-- `AtomicSet` of a2/utils/atomic.h, with numbers in it.
use native.Mathlib.Decide.{ℕ_discrete}
use cmcs624_fall.Common.{
  ℕ, ◌≤◌, ◌<◌, ◌≡◌, refl, sym, ap, ◌∙◌, arith, Bool, true, false, List, [], ◌∷◌, if◌then◌else◌,
  ◌==◌, length, Ascending,
}
use cmcs624_fall.Common.KeySet
use cmcs624_fall.Mutex.{Attempt, returned, failed, from_lock, ◌>>=◌}
use cmcs624_fall.Atomic.{idle, write_lock, unlock_rw, Guarded, reads, writes}

pub size : Guarded (List ℕ) → Attempt (Guarded (List ℕ) × ℕ)
size g = reads length g

unfoldable pub contains : Guarded (List ℕ) → ℕ → Attempt (Guarded (List ℕ) × Bool)
contains g v = reads (KeySet.contains v) g

pub insert : Guarded (List ℕ) → ℕ → Attempt (Guarded (List ℕ))
insert g v = writes (KeySet.insert v) g

pub erase : Guarded (List ℕ) → ℕ → Attempt (Guarded (List ℕ))
erase g v = writes (KeySet.erase v) g

-- `*(s.begin())`, which is not defined of an empty set: `failed`.
first_of : List ℕ → Attempt ℕ
first_of [] = failed
first_of (v ∷ _) = returned v

-- `GetFirst` locks for writing.
pub get_first : Guarded (List ℕ) → Attempt (Guarded (List ℕ) × ℕ)
unfolding first_of
get_first g = do
  m ← from_lock (write_lock g.mutex)
  first ← first_of g.content
  returned (record g { mutex = unlock_rw m }, first)

pub get_set : Guarded (List ℕ) → Attempt (Guarded (List ℕ) × List ℕ)
get_set g = reads (λ s. s) g

-- A change of the set.
pub data Change : Type 0 where
  inserts erases : ℕ → Change

abbrev apply : Guarded (List ℕ) → Change → Attempt (Guarded (List ℕ))
apply g (inserts v) = insert g v
apply g (erases v) = erase g v

pub run_changes : Guarded (List ℕ) → List Change → Attempt (Guarded (List ℕ))
run_changes g [] = returned g
run_changes g (c ∷ cs) = do g' ← apply g c; run_changes g' cs

-- Membership, as a predicate that each change updates.
abbrev pub member_after : (ℕ → Bool) → List Change → ℕ → Bool
member_after f [] = f
member_after f (inserts v ∷ cs) = member_after (λ j. if j == v then true else f j) cs
member_after f (erases v ∷ cs) = member_after (λ j. if j == v then false else f j) cs

member_after-same :
    (cs : List Change) (f g : ℕ → Bool)
    → ((j : ℕ) → f j ≡ g j)
    → (j : ℕ) → member_after f cs j ≡ member_after g cs j
member_after-same [] f g h j = h j
member_after-same (inserts v ∷ cs) f g h j =
    member_after-same cs _ _ (λ i. ap (λ (b : Bool). if i == v then true else b) (h i)) j
member_after-same (erases v ∷ cs) f g h j =
    member_after-same cs _ _ (λ i. ap (λ (b : Bool). if i == v then false else b) (h i)) j

run_changes-from :
    (s : List ℕ) (cs : List Change)
    → Ascending s
    → (s' : List ℕ) × (run_changes (record { content = s; mutex = idle }) cs
        ≡ returned (record { content = s'; mutex = idle }))
      × Ascending s'
      × ((j : ℕ) → KeySet.contains j s' ≡ member_after (λ i. KeySet.contains i s) cs j)
unfolding run_changes insert erase
run_changes-from s [] a = (s, refl, a, λ j. refl)
run_changes-from s (inserts v ∷ cs) a =
    let (s', r, a', m) = run_changes-from (KeySet.insert v s) cs (KeySet.insert-Ascending v s a) in
    (s', r, a', λ j. m j ∙ member_after-same cs _ _ (λ i. KeySet.contains-insert i v s) j)
run_changes-from s (erases v ∷ cs) a =
    let (s', r, a', m) = run_changes-from (KeySet.erase v s) cs (KeySet.erase-Ascending v s a) in
    (s', r, a', λ j. m j ∙ member_after-same cs _ _ (λ i. KeySet.contains-erase i v s) j)

least :
    (s : List ℕ) (j : ℕ)
    → Ascending s
    → KeySet.contains j s ≡ true
    → (first : ℕ) × (get_first (record { content = s; mutex = idle })
        ≡ returned (record { content = s; mutex = idle }, first))
      × (KeySet.contains first s ≡ true)
      × ((i : ℕ) → KeySet.contains i s ≡ true → first ≤ i)
unfolding get_first
least [] j a has = cc
least (v ∷ s) j a has = (
  v,
  refl,
  ground arith,
  λ i h. elim (ℕ_discrete i v) [
    | yes here ↦ omega arith
    | no ne ↦ omega (arith, KeySet.All-contains (λ x. v < x) s i a.0 (ground arith))
  ],
)

none_first :
    (s : List ℕ)
    → ((j : ℕ) → KeySet.contains j s ≡ false)
    → get_first (record { content = s; mutex = idle }) ≡ failed
unfolding get_first
none_first [] none = refl
none_first (v ∷ s) none = ground (arith, none v)

-- Any changes to a set that nobody has locked return and leave it unlocked. Afterwards `Contains`
-- answers as the predicate that the changes update. Where that has a member, `GetFirst` returns, with
-- the set unlocked again, its least one; where it has none, `GetFirst` dereferences the end of the set.
pub run_changes_lem :
    (s : List ℕ) (cs : List Change)
    → Ascending s
    → (g' : Guarded (List ℕ)) × (run_changes (record { content = s; mutex = idle }) cs
        ≡ returned g')
      × ((j : ℕ) → contains g' j ≡ returned (g', member_after (λ i. KeySet.contains i s) cs j))
      × ((j : ℕ)
          → member_after (λ i. KeySet.contains i s) cs j ≡ true
          → (first : ℕ) × (get_first g' ≡ returned (g', first))
            × (member_after (λ i. KeySet.contains i s) cs first ≡ true)
            × ((i : ℕ) → member_after (λ i. KeySet.contains i s) cs i ≡ true → first ≤ i))
      × (((j : ℕ) → member_after (λ i. KeySet.contains i s) cs j ≡ false) → get_first g' ≡ failed)
unfolding contains
run_changes_lem s cs a =
    let (s', r, a', m) = run_changes-from s cs a in
    (
      record { content = s'; mutex = idle },
      r,
      λ j. ap (λ b. returned (record { content = s'; mutex = idle }, b)) (m j),
      λ j h.
          let (first, e, member, below) = least s' j a' (m j ∙ h) in
          (first, e, sym (m first) ∙ member, λ i here. below i (m i ∙ here)),
      λ none. none_first s' (λ j. m j ∙ none j),
    )
