-- ===== src/Database/Copies.antt =====
-- `Create`, `Copy` and `Compare` of a1/src/database.cc, as `run_test` of a1/src/start.cc uses them.
use cmcs624_fall.Common.{
  ℕ, zero, suc, ◌+◌, ◌≤◌, ◌<◌, ◌≡◌, ◌≢◌, ◌↔◌, refl, ap, arith, true, ◌&&◌, ltb, leb, if◌then◌else◌,
  ok, died, Outcome-cases, inl, inr,
}
use native.Mathlib.Decide.{dec_lt, ℕ_discrete}
use cmcs624_fall.Mutex.{returned, failed}
use cmcs624_fall.Words.{Bytes}
use cmcs624_fall.Database.{
  Database, record_size, copy_bytes, update, copy_loop, copy, same_bytes, compare_loop, compare,
}

same_bytes_iff : (n : ℕ) (a b : Bytes) → (same_bytes n a b ≡ true) ↔ ((j : ℕ) → j < n → a j ≡ b j)
unfolding same_bytes
same_bytes_iff zero a b = (λ _ j h. absurd (omega arith), λ _. refl)
same_bytes_iff (suc n) a b = (
  λ e j h. ground (arith, (same_bytes_iff n a b).0 (ground arith) j),
  λ h. ground (arith, h n (omega arith), (same_bytes_iff n a b).1 (λ j lt. h j (omega arith))),
)

-- The records from `i` on, `n` of them, agree in their bytes.
abbrev pub Agree : ℕ → ℕ → (ℕ → Bytes) → (ℕ → Bytes) → Type 0
Agree n i r₁ r₂ = (k j : ℕ) → i ≤ k → k < i + n → j < record_size → r₁ k j ≡ r₂ k j

compare_loop_sound :
    (n i : ℕ) (r₁ r₂ : ℕ → Bytes) → compare_loop n i r₁ r₂ ≡ ok tt → Agree n i r₁ r₂
unfolding compare_loop
compare_loop_sound zero i r₁ r₂ h k j a b c = absurd (omega arith)
compare_loop_sound (suc n) i r₁ r₂ h k j a b c = elim (dec_lt i k) [
  | yes later ↦ compare_loop_sound n (suc i) r₁ r₂ (ground arith) k j later (omega arith) c
  | no first ↦
      let e : k ≡ i = omega arith in
      rw e ((same_bytes_iff record_size (r₁ i) (r₂ i)).0 (ground arith) j c)
]

compare_loop_complete :
    (n i : ℕ) (r₁ r₂ : ℕ → Bytes) → Agree n i r₁ r₂ → compare_loop n i r₁ r₂ ≡ ok tt
unfolding compare_loop
compare_loop_complete zero i r₁ r₂ h = refl
compare_loop_complete (suc n) i r₁ r₂ h =
    rw ((same_bytes_iff record_size (r₁ i) (r₂ i)).1 (λ j c. h i j (omega arith) (omega arith) c))
      (compare_loop_complete n (suc i) r₁ r₂ (λ k j a b c. h k j (omega arith) (omega arith) c))

copy_loop_lem :
    (n i : ℕ) (to from : ℕ → Bytes) (k j : ℕ)
    → copy_loop n i to from k j
      ≡ (if (leb i k && ltb k (i + n)) && ltb j record_size then from k j else to k j)
unfolding copy_loop
copy_loop_lem zero i to from k j = ground arith
copy_loop_lem (suc n) i to from k j = elim (ℕ_discrete k i) [
  | yes e ↦ ground (
    arith,
    copy_loop_lem n (suc i) (update to i (copy_bytes record_size (to i) (from i))) from k j,
    e,
    ap (λ x. from x j) e,
    ap (λ x. to x j) e,
  )
  | no ne ↦ ground (
    arith,
    copy_loop_lem n (suc i) (update to i (copy_bytes record_size (to i) (from i))) from k j,
    ne,
  )
]

-- `Compare` of two databases of one size returns exactly when every byte of every record agrees,
-- and otherwise it ends the process; two of different sizes fail its assertion.
pub compare_lem :
    (db₁ db₂ : Database)
    → (db₁.num_records ≡ db₂.num_records
        → (compare db₁ db₂ ≡ returned (ok tt)) ↔ Agree db₁.num_records 0 db₁.records db₂.records)
      × (db₁.num_records ≢ db₂.num_records → compare db₁ db₂ ≡ failed)
      × (db₁.num_records ≡ db₂.num_records
          → (¬ Agree db₁.num_records 0 db₁.records db₂.records)
          → compare db₁ db₂ ≡ returned died)
unfolding compare
compare_lem db₁ db₂ = (
  λ e. (
    λ h. compare_loop_sound db₁.num_records 0 db₁.records db₂.records (ground arith),
    λ a. ground (arith, compare_loop_complete db₁.num_records 0 db₁.records db₂.records a),
  ),
  λ ne. ground arith,
  λ e n. elim (Outcome-cases (compare_loop db₁.num_records 0 db₁.records db₂.records)) [
    | inl stopped ↦ ground arith
    | inr (u, same) ↦ absurd (n (compare_loop_sound db₁.num_records 0 db₁.records db₂.records same))
  ],
)

-- `Copy` makes the two databases of one size compare equal, and changes neither the source, nor the
-- locks, nor any byte beyond the records.
pub compare-copy :
    (dst src : Database)
    → dst.num_records ≡ src.num_records
    → (dst' : Database) × (copy dst src ≡ returned dst')
      × (compare dst' src ≡ returned (ok tt))
      × ((k : ℕ) → dst'.locks k ≡ dst.locks k)
      × ((k j : ℕ) → record_size ≤ j → dst'.records k j ≡ dst.records k j)
      × ((k j : ℕ) → dst.num_records ≤ k → dst'.records k j ≡ dst.records k j)
unfolding copy
compare-copy dst src e = (
  record dst { records = copy_loop dst.num_records 0 dst.records src.records },
  ground arith,
  ((compare_lem _ src).0 e).1
      (λ k j a b c. ground (arith, copy_loop_lem dst.num_records 0 dst.records src.records k j)),
  λ k. refl,
  λ k j h. ground (arith, copy_loop_lem dst.num_records 0 dst.records src.records k j),
  λ k j h. ground (arith, copy_loop_lem dst.num_records 0 dst.records src.records k j),
)
