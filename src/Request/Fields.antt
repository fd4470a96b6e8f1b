-- ===== src/Request/Fields.antt =====
-- `DoWrite` of a1/src/request.cc on the bytes of one record.
use cmcs624_fall.Common.{
  ℕ, zero, suc, ◌+◌, ◌*◌, ◌/◌, ◌%◌, ◌^◌, ◌≤◌, ◌<◌, ◌≡◌, ◌⊎◌, inl, inr, refl, ap, ◌==◌, beq_refl,
  beq_of_ne, sym, ◌∙◌, arith, ltb, leb, ◌&&◌, if◌then◌else◌,
}
use native.Mathlib.Decide.{dec_lt, ℕ_discrete}
use cmcs624_fall.Words.{
  Bytes, IsBytes, load64, store64, byte_of, store64-IsBytes, store64-out, load64-store64,
  load64-store64_apart, byte_of-load64,
}
use cmcs624_fall.Database.{field_size, nfields}
use cmcs624_fall.Request.{do_fields, do_write}

-- The number in field `i`.
abbrev pub field : Bytes → ℕ → ℕ
field b i = load64 b (i * field_size)

-- The byte stands in none of the fields that are written: only the first eight bytes of each hundred
-- belong to a number.
abbrev pub IsGap : ℕ → Type 0
IsGap j = (field_size * nfields ≤ j) ⊎ (8 ≤ j % field_size)

-- A gap is in no field.
pub gap-apart : (i j : ℕ) → i < nfields → IsGap j → (j < i * field_size) ⊎ (i * field_size + 8 ≤ j)
gap-apart i j h g = elim (dec_lt j (i * field_size)) [ yes lt ↦ inl lt | no ge ↦ inr (omega arith) ]

pub field-store64 :
    (b : Bytes) (i v m : ℕ)
    → v < 2 ^ 64
    → field (store64 b (i * field_size) v) m ≡ (if m == i then v else field b m)
field-store64 b i v m h = elim (ℕ_discrete m i) [
  | yes e ↦ rw e (rw (beq_refl i) (load64-store64 b (i * field_size) v h))
  | no ne ↦ rw (beq_of_ne m i ne) (
      load64-store64_apart b (i * field_size) (m * field_size) v
        (elim (dec_lt m i) [ yes lt ↦ inl (omega arith) | no ge ↦ inr (omega arith) ]))
]

module _ (u : ℕ → ℕ) where
  do_fields-field :
      (n i : ℕ) (b : Bytes) (m : ℕ)
      → field (do_fields n i b u) m
        ≡ (if leb i m && ltb m (i + n) then (field b m + u m) % 2 ^ 64 else field b m)
  unfolding do_fields
  do_fields-field zero i b m = ground arith
  do_fields-field (suc n) i b m =
      let v : ℕ = (field b i + u i) % 2 ^ 64 in
      ground (
        arith,
        do_fields-field n (suc i) (store64 b (i * field_size) v) m,
        field-store64 b i v m (omega arith),
        λ (e : m ≡ i). ap (field b) e,
        λ (e : m ≡ i). ap u e,
      )

  do_fields-gap :
      (n i : ℕ) (b : Bytes) (j : ℕ) → i + n ≤ nfields → IsGap j → do_fields n i b u j ≡ b j
  unfolding do_fields
  do_fields-gap zero i b j h g = refl
  do_fields-gap (suc n) i b j h g =
      do_fields-gap n (suc i) _ j (omega arith) g
      ∙ store64-out b (i * field_size) _ j (gap-apart i j (omega arith) g)

  do_fields-IsBytes : (n i : ℕ) (b : Bytes) → IsBytes b → IsBytes (do_fields n i b u)
  unfolding do_fields
  do_fields-IsBytes zero i b h = h
  do_fields-IsBytes (suc n) i b h =
      do_fields-IsBytes n (suc i) _ (store64-IsBytes b (i * field_size) _ h)

-- `DoWrite` adds each update to its field, modulo 2^64, and changes no byte outside the numbers.
pub do_write_lem :
    (b : Bytes) (u : ℕ → ℕ)
    → ((m : ℕ) → m < nfields → field (do_write b u) m ≡ (field b m + u m) % 2 ^ 64)
      × ((j : ℕ) → IsGap j → do_write b u j ≡ b j)
unfolding do_write
do_write_lem b u = (
  λ m h. ground (arith, do_fields-field u nfields 0 b m),
  λ j g. do_fields-gap u nfields 0 b j (omega arith) g,
)

pub do_write-IsBytes : (b : Bytes) (u : ℕ → ℕ) → IsBytes b → IsBytes (do_write b u)
unfolding do_write
do_write-IsBytes b u h = do_fields-IsBytes u nfields 0 b h

-- Two records that agree in the fields and in the gaps are equal, byte by byte.
pub same_record :
    (b c : Bytes)
    → IsBytes b
    → IsBytes c
    → ((m : ℕ) → m < nfields → field b m ≡ field c m)
    → ((j : ℕ) → IsGap j → b j ≡ c j)
    → (j : ℕ) → b j ≡ c j
same_record b c hb hc f g j = elim (dec_lt j (field_size * nfields)) [
  | no far ↦ g j (inl (omega arith))
  | yes near ↦ elim (dec_lt (j % field_size) 8) [
    | no gap ↦ g j (inr (omega arith))
    | yes low ↦
        let m : ℕ = j / field_size in
        let k : ℕ = j % field_size in
        let e : j ≡ m * field_size + k = omega arith in
        rw e (
          sym (byte_of-load64 b (m * field_size) k hb low)
          ∙ ap (λ w. byte_of w k) (f m (omega arith))
          ∙ byte_of-load64 c (m * field_size) k hc low)
  ]
]

-- The updates of two requests to one record may come in either order: every byte ends the same.
pub do_write_comm :
    (b : Bytes) (u v : ℕ → ℕ)
    → IsBytes b
    → (j : ℕ) → do_write (do_write b u) v j ≡ do_write (do_write b v) u j
do_write_comm b u v h =
    same_record _ _ (do_write-IsBytes _ v (do_write-IsBytes b u h))
      (do_write-IsBytes _ u (do_write-IsBytes b v h))
      (λ m lt. omega (
        arith,
        (do_write_lem (do_write b u) v).0 m lt,
        (do_write_lem b u).0 m lt,
        (do_write_lem (do_write b v) u).0 m lt,
        (do_write_lem b v).0 m lt,
      ))
      (λ j g.
        (do_write_lem (do_write b u) v).1 j g
        ∙ (do_write_lem b u).1 j g
        ∙ sym ((do_write_lem (do_write b v) u).1 j g ∙ (do_write_lem b v).1 j g))
