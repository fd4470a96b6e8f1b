-- ===== src/Request/Sequential.antt =====
-- `Execute` of a1/src/request.cc by one thread, as in the sequential run of a1/src/start.cc.
use native.Mathlib.Decide.{ℕ_discrete}
use cmcs624_fall.Common.{
  ℕ, ◌<◌, ◌≡◌, ◌≢◌, refl, sym, ap, ◌∙◌, arith, true, false, Option, none, some, List, [], ◌∷◌,
  if◌then◌else◌, All, All-zip, Ascending, Bool-cases, inl, inr, beq_of_ne, lt→ltb,
}
use cmcs624_fall.Common.KeySet
use cmcs624_fall.Common.Sort.{
  sort, Distinct, contains-sort, contains-Absent, Ascending-Distinct, sort-Ascending, sort-All,
}
use cmcs624_fall.Mutex.{Mutex, Mutex-cases, free, held, lock, unlock, returned, waiting}
use cmcs624_fall.Words.{Bytes}
use cmcs624_fall.Database.{Database, update, lock_record, unlock_record}
use cmcs624_fall.Request.{
  Request, do_write, txn_loop, txn, lock_loop, lock_records, unlock_loop, unlock_records, execute,
}

-- The records after a request, whatever the order of its keys.
abbrev pub effect : Request → (ℕ → Bytes) → ℕ → Bytes
effect r records k =
    if KeySet.contains k r.writeset then do_write (records k) r.updates else records k

module _ {ℓ} {A : Type ℓ} (f : A → A) where
  -- `f` at each of the keys.
  update_all : List ℕ → (ℕ → A) → ℕ → A
  update_all [] l = l
  update_all (k ∷ ks) l = update_all ks (update l k (f (l k)))

  update_all-absent :
      (ks : List ℕ) (l : ℕ → A) (j : ℕ) → KeySet.contains j ks ≡ false → update_all ks l j ≡ l j
  unfolding update_all
  update_all-absent [] l j h = refl
  update_all-absent (k ∷ ks) l j h = ground (arith, update_all-absent ks (update l k (f (l k))) j)

  update_all_lem :
      (ks : List ℕ) (l : ℕ → A) (j : ℕ)
      → Distinct ks
      → update_all ks l j ≡ (if KeySet.contains j ks then f (l j) else l j)
  unfolding update_all
  update_all_lem [] l j d = refl
  update_all_lem (k ∷ ks) l j d = elim (ℕ_discrete j k) [
    | yes e ↦ ground (
      arith,
      update_all-absent ks (update l k (f (l k))) j,
      contains-Absent k ks d.0,
      ap (λ i. KeySet.contains i ks) e,
      ap (λ i. f (l i)) e,
    )
    | no ne ↦ ground (arith, update_all_lem ks (update l k (f (l k))) j d.1)
  ]

-- All keys are in range.
abbrev pub InRange : Database → List ℕ → Type 0
InRange db ks = All (λ k. k < db.num_records) ks

abbrev pub AllFree : (ℕ → Mutex) → List ℕ → Type 0
AllFree locks ks = All (λ k. locks k ≡ free) ks

lock_loop_lem :
    (db : Database) (ks : List ℕ)
    → Distinct ks
    → InRange db ks
    → AllFree db.locks ks
    → lock_loop db ks ≡ returned (record db { locks = update_all (λ _. held) ks db.locks })
unfolding lock_loop lock_record lock update_all
lock_loop_lem db [] d r a = refl
lock_loop_lem db (k ∷ ks) d r a =
    rw (lt→ltb k db.num_records r.0, a.0)
      (lock_loop_lem (record db { locks = update db.locks k held }) ks d.1 r.1
        (All-zip (λ j. k ≢ j) (λ j. db.locks j ≡ free) (λ j. update db.locks k held j ≡ free)
          (λ j ne e. rw (beq_of_ne j k (λ x. ne (sym x))) e) ks d.0 a.1))

unlock_loop_lem :
    (db : Database) (ks : List ℕ)
    → InRange db ks
    → unlock_loop db ks ≡ returned (record db { locks = update_all (λ _. free) ks db.locks })
unfolding unlock_loop unlock_record unlock update_all
unlock_loop_lem db [] r = refl
unlock_loop_lem db (k ∷ ks) r =
    rw (lt→ltb k db.num_records r.0)
      (unlock_loop_lem (record db { locks = update db.locks k free }) ks r.1)

-- Each key is above the one before, so the assertion of `Txn` holds.
abbrev After : Option ℕ → List ℕ → Type 0
After none ks = Unit
After (some last) ks = All (λ k. last < k) ks

txn_loop_lem :
    (db : Database) (last : Option ℕ) (ks : List ℕ) (u : ℕ → ℕ)
    → After last ks
    → Ascending ks
    → txn_loop db last ks u
      ≡ returned (record db { records = update_all (λ b. do_write b u) ks db.records })
unfolding txn_loop update_all
txn_loop_lem db last [] u h a = refl
txn_loop_lem db none (k ∷ ks) u h a =
    txn_loop_lem (record db { records = update db.records k (do_write (db.records k) u) }) (some k)
      ks u a.0 a.1
txn_loop_lem db (some last) (k ∷ ks) u h a = rw (beq_of_ne last k (omega arith)) (
    txn_loop_lem (record db { records = update db.records k (do_write (db.records k) u) }) (some k)
      ks u a.0 a.1)

held-free : held ≡ free → ⊥
held-free e = cc

lock_loop_held :
    (db : Database) (ks : List ℕ) (j : ℕ)
    → InRange db ks
    → KeySet.contains j ks ≡ true
    → db.locks j ≡ held
    → lock_loop db ks ≡ waiting
unfolding lock_loop lock_record lock
lock_loop_held db [] j r c h = cc
lock_loop_held db (k ∷ ks) j r c h = elim (Mutex-cases (db.locks k)) [
  | inr e ↦ rw (lt→ltb k db.num_records r.0, e)
  | inl e ↦
      let ne : j ≢ k = λ x. held-free (sym h ∙ ap db.locks x ∙ e) in
      rw (lt→ltb k db.num_records r.0, e)
        (lock_loop_held (record db { locks = update db.locks k held }) ks j r.1 (ground arith)
          (rw (beq_of_ne j k ne) h))
]

module _ (db : Database) (r : Request) (distinct : Distinct r.writeset)
    (in_range : InRange db r.writeset) (unlocked : AllFree db.locks r.writeset) where
  abbrev keys : List ℕ
  keys = sort r.writeset

  ascending : Ascending keys
  ascending = sort-Ascending r.writeset distinct

  done : Database
  done = record db {
    records = update_all (λ b. do_write b r.updates) keys db.records;
    locks = update_all (λ _. free) keys (update_all (λ _. held) keys db.locks);
  }

  execute-done : execute db r ≡ returned (done, record r { writeset = keys })
  unfolding execute lock_records txn unlock_records done
  execute-done =
      rw
        (lock_loop_lem db keys (Ascending-Distinct keys ascending)
          (sort-All (λ k. k < db.num_records) r.writeset in_range)
          (sort-All (λ k. db.locks k ≡ free) r.writeset unlocked))
        (rw
          (txn_loop_lem (record db { locks = update_all (λ _. held) keys db.locks }) none keys
            r.updates tt ascending)
          (rw (
            unlock_loop_lem
              (record db {
                records = update_all (λ b. do_write b r.updates) keys db.records;
                locks = update_all (λ _. held) keys db.locks;
              })
              keys (sort-All (λ k. k < db.num_records) r.writeset in_range))))

  done-records : (k : ℕ) → done.records k ≡ effect r db.records k
  unfolding done
  done-records k =
      update_all_lem (λ b. do_write b r.updates) keys db.records k
        (Ascending-Distinct keys ascending)
      ∙ rw (contains-sort k r.writeset)

  done-locks : (k : ℕ) → done.locks k ≡ db.locks k
  unfolding done
  done-locks k = elim (Bool-cases (KeySet.contains k keys)) [
    | inl c ↦
        update_all_lem (λ _. free) keys (update_all (λ _. held) keys db.locks) k
          (Ascending-Distinct keys ascending)
        ∙ rw c (
            sym (
              KeySet.All-contains (λ j. db.locks j ≡ free) keys k
                (sort-All (λ j. db.locks j ≡ free) r.writeset unlocked) c))
    | inr c ↦
        update_all-absent (λ _. free) keys (update_all (λ _. held) keys db.locks) k c
        ∙ update_all-absent (λ _. held) keys db.locks k c
  ]

-- A request whose keys are distinct, in range and not locked runs to its end: each of its records
-- gets the updates, each other record and every lock is as before, and the write set is left sorted.
pub execute_lem :
    (db : Database) (r : Request)
    → InRange db r.writeset
    → Distinct r.writeset
    → AllFree db.locks r.writeset
    → (db' : Database) × (execute db r ≡ returned (db', record r { writeset = sort r.writeset }))
      × ((k : ℕ) → db'.records k ≡ effect r db.records k)
      × ((k : ℕ) → db'.locks k ≡ db.locks k)
      × (db'.num_records ≡ db.num_records)
unfolding done
execute_lem db r in_range distinct unlocked = (
  done db r distinct in_range unlocked,
  execute-done db r distinct in_range unlocked,
  done-records db r distinct in_range unlocked,
  done-locks db r distinct in_range unlocked,
  refl,
)

-- A request whose keys are in range, and one of whose keys is locked, waits, and returns nothing.
pub execute_waits :
    (db : Database) (r : Request) (j : ℕ)
    → InRange db r.writeset
    → KeySet.contains j r.writeset ≡ true
    → db.locks j ≡ held
    → execute db r ≡ waiting
unfolding execute lock_records
execute_waits db r j in_range c h = rw (
    lock_loop_held db (sort r.writeset) j (sort-All (λ k. k < db.num_records) r.writeset in_range)
      (contains-sort j r.writeset ∙ c) h)
