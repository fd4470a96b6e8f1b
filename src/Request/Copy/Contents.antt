-- ===== src/Request/Copy/Contents.antt =====
-- What stands in the buffer after `CopyRequest`.
use cmcs624_fall.Common.{
  ℕ, zero, suc, ◌+◌, ◌-◌, ◌*◌, ◌^◌, ◌≤◌, ◌<◌, ◌≡◌, inl, inr, refl, ap, ◌∙◌, arith, List, length,
  All,
}
use cmcs624_fall.Mutex.{returned}
use cmcs624_fall.Words.{Bytes, load64, store64, load64-store64, store64-out}
use cmcs624_fall.Database.{nfields, copy_bytes}
use cmcs624_fall.Request.{Request, sizeof_request, copy_size}
use cmcs624_fall.Request.Copy.{
  writeset_at, updates_at, store_array, tabulate, copy_from, copy_request, load_array,
  load_writeset, load_updates,
}
use cmcs624_fall.Request.Copy.Arrays.{
  store_array-out, load64-same, load_array-same, load_array-store_array,
}

length-tabulate : (n i : ℕ) (f : ℕ → ℕ) → length (tabulate n i f) ≡ n
length-tabulate zero i f = refl
length-tabulate (suc n) i f = omega (arith, length-tabulate n (suc i) f)

All-tabulate :
    (m n i : ℕ) (f : ℕ → ℕ)
    → ((j : ℕ) → j < m → f j < 2 ^ 64)
    → i + n ≤ m
    → All (λ v. v < 2 ^ 64) (tabulate n i f)
All-tabulate m zero i f h le = tt
All-tabulate m (suc n) i f h le = (h i (omega arith), All-tabulate m n (suc i) f h (omega arith))

module _ (buf : Bytes) (address : ℕ) (object : Bytes) (r : Request)
    (words : All (λ v. v < 2 ^ 64) r.writeset)
    (numbers : (i : ℕ) → i < nfields → r.updates i < 2 ^ 64)
    (few : nfields + length r.writeset < 2 ^ 32) (room : address + copy_size r ≤ 2 ^ 64) where
  abbrev next : ℕ
  next = 32 + 8 * length r.writeset

  us : List ℕ
  us = tabulate nfields 0 r.updates

  length-us : length us ≡ nfields
  unfolding us
  length-us = length-tabulate nfields 0 r.updates

  buf₁ : Bytes
  buf₁ = copy_bytes sizeof_request buf object

  buf₂ : Bytes
  buf₂ = store_array r.writeset 32 buf₁

  buf₃ : Bytes
  buf₃ = store64 buf₂ writeset_at (address + 32)

  buf₄ : Bytes
  buf₄ = store_array us next buf₃

  buf₅ : Bytes
  buf₅ = store64 buf₄ updates_at (address + next)

  size : copy_size r ≡ next + 80
  size = omega (arith, few)

  -- The pointers are stored last, in the bytes of the object.
  low₅ : (j : ℕ) → j < 24 → buf₅ j ≡ buf₄ j
  unfolding buf₅
  low₅ j h = store64-out buf₄ updates_at _ j (inl h)

  high₅ : (j : ℕ) → 32 ≤ j → buf₅ j ≡ buf₄ j
  unfolding buf₅
  high₅ j h = store64-out buf₄ updates_at _ j (inr (omega arith))

  out₄ : (j : ℕ) → j < next → buf₄ j ≡ buf₃ j
  unfolding buf₄
  out₄ j h = store_array-out us next buf₃ j (inl h)

  high₃ : (j : ℕ) → 24 ≤ j → buf₃ j ≡ buf₂ j
  unfolding buf₃
  high₃ j h = store64-out buf₂ writeset_at _ j (inr (omega arith))

  stored_pointer : load64 buf₃ writeset_at ≡ address + 32
  unfolding buf₃
  stored_pointer = load64-store64 buf₂ writeset_at (address + 32) (omega (arith, size, room))

  writeset_pointer : load64 buf₅ writeset_at ≡ address + 32
  writeset_pointer =
      load64-same writeset_at buf₅ buf₃ (λ j l u. low₅ j (omega arith) ∙ out₄ j (omega arith))
      ∙ stored_pointer

  updates_pointer : load64 buf₅ updates_at ≡ address + next
  unfolding buf₅
  updates_pointer = load64-store64 buf₄ updates_at (address + next) (omega (arith, size, room))

  writeset_copied : load_writeset (length r.writeset) address buf₅ ≡ r.writeset
  unfolding buf₂
  writeset_copied =
      ap (λ p. load_array (length r.writeset) (p - address) buf₅) writeset_pointer
      ∙ ap (λ o. load_array (length r.writeset) o buf₅) (omega arith)
      ∙ load_array-same (length r.writeset) 32 buf₅ buf₂
          (λ j l u. high₅ j l ∙ out₄ j u ∙ high₃ j (omega arith))
      ∙ load_array-store_array r.writeset 32 buf₁ words

  updates_copied : load_updates address buf₅ ≡ us
  unfolding buf₄ us
  updates_copied =
      ap (λ p. load_array nfields (p - address) buf₅) updates_pointer
      ∙ ap (λ o. load_array nfields o buf₅) (omega arith)
      ∙ load_array-same nfields next buf₅ buf₄ (λ j l u. high₅ j (omega arith))
      ∙ ap (λ n. load_array n next buf₄) (omega (arith, length-us))
      ∙ load_array-store_array us next buf₃
          (All-tabulate nfields nfields 0 r.updates numbers (omega arith))

  object_copied : (j : ℕ) → j < 16 → buf₅ j ≡ object j
  unfolding buf₃ buf₂ buf₁
  object_copied j h =
      low₅ j (omega arith)
      ∙ out₄ j (omega arith)
      ∙ store64-out buf₂ writeset_at _ j (inl h)
      ∙ store_array-out r.writeset 32 buf₁ j (inl (omega arith))
      ∙ ground arith

  beyond_copied : (j : ℕ) → copy_size r ≤ j → buf₅ j ≡ buf j
  unfolding buf₄ buf₂ buf₁
  beyond_copied j h =
      high₅ j (omega (arith, size))
      ∙ store_array-out us next buf₃ j (inr (omega (arith, size, length-us)))
      ∙ high₃ j (omega (arith, size))
      ∙ store_array-out r.writeset 32 buf₁ j (inr (omega (arith, size)))
      ∙ ground (arith, size)

-- `CopyRequest` puts the request into the buffer: through the pointers of the copy the write set and
-- the updates read as they were, the members before the pointers are those of the object, and no byte
-- from `CopySize` on changes. The numbers have 64 bits, and the buffer's
-- addresses too, and the sum of the two lengths, which `CopySize` forms in 32 bits, does not wrap.
pub copy_request_lem :
    (buf : Bytes) (address : ℕ) (object : Bytes) (r : Request)
    → All (λ v. v < 2 ^ 64) r.writeset
    → ((i : ℕ) → i < nfields → r.updates i < 2 ^ 64)
    → nfields + length r.writeset < 2 ^ 32
    → address + copy_size r ≤ 2 ^ 64
    → (buf' : Bytes) × (copy_request buf address object r ≡ returned buf')
      × (load_writeset (length r.writeset) address buf' ≡ r.writeset)
      × (load_updates address buf' ≡ tabulate nfields 0 r.updates)
      × ((j : ℕ) → j < writeset_at → buf' j ≡ object j)
      × ((j : ℕ) → copy_size r ≤ j → buf' j ≡ buf j)
unfolding copy_request copy_from buf₅ buf₄ buf₃ buf₂ buf₁ us
copy_request_lem buf address object r words numbers few room = (
  buf₅ buf address object r words numbers few room,
  refl,
  writeset_copied buf address object r words numbers few room,
  updates_copied buf address object r words numbers few room,
  object_copied buf address object r words numbers few room,
  beyond_copied buf address object r words numbers few room,
)
