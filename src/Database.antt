-- ===== src/Database.antt =====
-- a1/include/database.h and a1/src/database.cc.
pub mod Copies
pub mod Created
use cmcs624_fall.Common.{
  ℕ, zero, suc, ◌+◌, ◌*◌, ◌/◌, ◌%◌, ◌^◌, Bool, true, false, ◌&&◌, if◌then◌else◌, ◌==◌, ltb, Outcome,
  ok, died,
}
use cmcs624_fall.Mutex.{
  Mutex, free, lock, unlock, Attempt, returned, assert, from_lock, ◌>>=◌, ◌>>◌,
}
use cmcs624_fall.Words.{Bytes, store64}

abbrev pub record_size : ℕ
record_size = 1000

abbrev pub field_size : ℕ
field_size = 100

-- `RECORD_SIZE / FIELD_SIZE`
abbrev pub nfields : ℕ
nfields = record_size / field_size

pub record Database : Type 0 where
  pub num_records : ℕ
  pub records : ℕ → Bytes
  pub locks : ℕ → Mutex

abbrev pub update {ℓ} : {A : Type ℓ} → (ℕ → A) → ℕ → A → ℕ → A
update f k a j = if j == k then a else f j

-- The numbers that `rand` gives, from the one at a position on.
abbrev pub Random : Type 0
Random = ℕ → ℕ

-- The loop of `InitRecord`, with `n` rounds to go from field `i` on.
init_fields : Random → ℕ → ℕ → ℕ → Bytes → Bytes
init_fields rand pos zero i buf = buf
init_fields rand pos (suc n) i buf =
    init_fields rand (suc pos) n (suc i) (store64 buf (field_size * i) (rand pos % 2 ^ 64))

pub init_record : Random → ℕ → Bytes → Bytes
unfolding init_fields
init_record rand pos buf = init_fields rand pos nfields 0 buf

-- The loop of `Create`. Every mutex starts free, whether it is shared by processes or not.
create_loop : Random → ℕ → ℕ → Database → Database
unfolding init_record
create_loop rand zero i db = db
create_loop rand (suc n) i db = create_loop rand n (suc i) (record db {
  locks = update db.locks i free;
  records = update db.records i (init_record rand (i * nfields) (db.records i));
})

-- `raw` is the memory that is mapped: bytes 0, and mutexes in some state. The assertion at the start
-- holds of the two constants.
pub create : Random → ℕ → (ℕ → Mutex) → Attempt Database
unfolding create_loop
create rand record_num raw = do
  assert (record_size % field_size == 0)
  let blank : Database = record { num_records = record_num; records = λ _ _. 0; locks = raw }
  returned (create_loop rand record_num 0 blank)

-- `memcpy` of `n` bytes.
abbrev pub copy_bytes : ℕ → Bytes → Bytes → Bytes
copy_bytes n to from j = if ltb j n then from j else to j

copy_loop : ℕ → ℕ → (ℕ → Bytes) → (ℕ → Bytes) → ℕ → Bytes
copy_loop zero i to from = to
copy_loop (suc n) i to from =
    copy_loop n (suc i) (update to i (copy_bytes record_size (to i) (from i))) from

-- `Copy(dst, src)`
pub copy : Database → Database → Attempt Database
unfolding copy_loop
copy dst src = do
  assert (dst.num_records == src.num_records)
  returned (record dst { records = copy_loop dst.num_records 0 dst.records src.records })

-- `memcmp` of `n` bytes is 0.
unfoldable pub same_bytes : ℕ → Bytes → Bytes → Bool
same_bytes zero a b = true
same_bytes (suc n) a b = (a n == b n) && same_bytes n a b

compare_loop : ℕ → ℕ → (ℕ → Bytes) → (ℕ → Bytes) → Outcome (Unit {0})
compare_loop zero i r₁ r₂ = ok tt
compare_loop (suc n) i r₁ r₂ =
    let next = compare_loop n (suc i) r₁ r₂ in
    if same_bytes record_size (r₁ i) (r₂ i) then next else died

-- `Compare`. A difference ends the process: `died`.
pub compare : Database → Database → Attempt (Outcome (Unit {0}))
unfolding compare_loop
compare db₁ db₂ = do
  assert (db₁.num_records == db₂.num_records)
  returned (compare_loop db₁.num_records 0 db₁.records db₂.records)

unfoldable pub lock_record : Database → ℕ → Attempt Database
lock_record db key = do
  assert (ltb key db.num_records)
  m ← from_lock (lock (db.locks key))
  returned (record db { locks = update db.locks key m })

unfoldable pub unlock_record : Database → ℕ → Attempt Database
unlock_record db key = do
  assert (ltb key db.num_records)
  returned (record db { locks = update db.locks key (unlock (db.locks key)) })

-- `GetRecord`, which checks nothing.
abbrev pub get_record : Database → ℕ → Bytes
get_record db key = db.records key
