-- ===== src/Database/Created.antt =====
-- `Create` of a1/src/database.cc.
use native.Mathlib.Decide.{ℕ_discrete}
use cmcs624_fall.Common.{
  sym, beq_refl, beq_of_ne, ℕ, zero, suc, ◌+◌, ◌*◌, ◌%◌, ◌^◌, ◌≤◌, ◌<◌, ◌≡◌, ◌⊎◌, inl, inr, refl,
  ◌∙◌, arith, ap, if◌then◌else◌,
}
use cmcs624_fall.Words.{Bytes, IsBytes, store64, store64-IsBytes, store64-out}
use cmcs624_fall.Mutex.{Mutex, free, returned}
use cmcs624_fall.Database.{
  Random, nfields, record_size, field_size, Database, create, create_loop, init_fields, init_record,
  update,
}

init_fields-IsBytes :
    (rand : Random) (pos n i : ℕ) (b : Bytes) → IsBytes b → IsBytes (init_fields rand pos n i b)
unfolding init_fields
init_fields-IsBytes rand pos zero i b h = h
init_fields-IsBytes rand pos (suc n) i b h =
    init_fields-IsBytes rand (suc pos) n (suc i) (store64 b (field_size * i) (rand pos % 2 ^ 64))
      (store64-IsBytes b (field_size * i) (rand pos % 2 ^ 64) h)

init_fields-out :
    (rand : Random) (pos n i : ℕ) (b : Bytes) (j : ℕ)
    → field_size * (i + n) ≤ j
    → init_fields rand pos n i b j ≡ b j
unfolding init_fields
init_fields-out rand pos zero i b j h = refl
init_fields-out rand pos (suc n) i b j h =
    init_fields-out rand (suc pos) n (suc i) (store64 b (field_size * i) (rand pos % 2 ^ 64)) j
      (omega (arith, h))
    ∙ store64-out b (field_size * i) (rand pos % 2 ^ 64) j (inr (omega (arith, h)))

init_record-IsBytes :
    (rand : Random) (pos : ℕ) (b : Bytes) → IsBytes b → IsBytes (init_record rand pos b)
unfolding init_record
init_record-IsBytes rand pos b h = init_fields-IsBytes rand pos nfields 0 b h

init_record-out :
    (rand : Random) (pos : ℕ) (b : Bytes) (j : ℕ) → record_size ≤ j → init_record rand pos b j ≡ b j
unfolding init_record
init_record-out rand pos b j h = init_fields-out rand pos nfields 0 b j (omega (arith, h))

-- What the loop leaves in a byte: numbers below 256, and what was there outside the records.
create_loop-records :
    (rand : Random) (n i : ℕ) (db : Database)
    → ((k : ℕ) → IsBytes (db.records k))
    → ((k : ℕ) → IsBytes ((create_loop rand n i db).records k))
      × ((k j : ℕ)
          → (i + n ≤ k) ⊎ (record_size ≤ j)
          → (create_loop rand n i db).records k j ≡ db.records k j)
unfolding create_loop
create_loop-records rand zero i db h = (h, λ k j o. refl)
create_loop-records rand (suc n) i db h =
    let made = init_record rand (i * nfields) (db.records i) in
    let next : Database = record db {
      locks = update db.locks i free;
      records = update db.records i made;
    } in
    let (bytes, out) = create_loop-records rand n (suc i) next (λ k j.
      ground (arith, h k j, init_record-IsBytes rand (i * nfields) (db.records i) (h i) j)) in
    (
      bytes,
      λ k j o.
          out k j (elim o [ inl a ↦ inl (omega (arith, a)) | inr a ↦ inr a ])
          ∙ elim (ℕ_discrete k i) [
            | yes e ↦
                ap (λ x. update db.records i made x j) e
                ∙ ap (λ b. (if b then made else db.records i) j) (beq_refl i)
                ∙ elim o [
                  | inl a ↦ absurd (omega (arith, a, e))
                  | inr a ↦ init_record-out rand (i * nfields) (db.records i) j a
                ]
                ∙ ap (λ x. db.records x j) (sym e)
            | no ne ↦ ap (λ b. (if b then made else db.records k) j) (beq_of_ne k i ne)
          ],
    )

create_loop_lem :
    (rand : Random) (n i : ℕ) (db : Database)
    → ((create_loop rand n i db).num_records ≡ db.num_records)
      × ((k : ℕ)
          → k < i + n
          → (k < i → db.locks k ≡ free)
          → (create_loop rand n i db).locks k ≡ free)
unfolding create_loop
create_loop_lem rand zero i db = (refl, λ k h f. f (omega (arith, h)))
create_loop_lem rand (suc n) i db =
    let next : Database = record db {
      locks = update db.locks i free;
      records = update db.records i (init_record rand (i * nfields) (db.records i));
    } in
    let (size, locks) = create_loop_lem rand n (suc i) next in
    (size, λ k h f. locks k (omega (arith, h)) (λ b. ground (arith, f, b)))

pub create_lem :
    (rand : Random) (n : ℕ) (raw : ℕ → Mutex)
    → (db : Database) × (create rand n raw ≡ returned db)
      × (db.num_records ≡ n)
      × ((k : ℕ) → k < n → db.locks k ≡ free)
      × ((k : ℕ) → IsBytes (db.records k))
      × ((k j : ℕ) → (n ≤ k) ⊎ (record_size ≤ j) → db.records k j ≡ 0)
unfolding create
create_lem rand n raw =
    let blank : Database = record { num_records = n; records = λ _ _. 0; locks = raw } in
    let (size, locks) = create_loop_lem rand n 0 blank in
    let (bytes, out) = create_loop-records rand n 0 blank (λ k j. omega arith) in
    (
      create_loop rand n 0 blank,
      refl,
      size,
      λ k h. locks k (omega (arith, h)) (λ b. absurd (omega (arith, b))),
      bytes,
      λ k j o. out k j (elim o [ inl a ↦ inl (omega (arith, a)) | inr a ↦ inr a ]),
    )
