-- ===== src/Request/Copy.antt =====
-- `CopyRequest` of a1/src/request.cc: a request, with its two arrays, in one buffer.
pub mod Arrays
pub mod Contents
use cmcs624_fall.Common.{ℕ, zero, suc, ◌+◌, ◌-◌, ◌*◌, ◌%◌, List, [], ◌∷◌, ◌==◌, length}
use cmcs624_fall.Mutex.{Attempt, returned, assert, ◌>>=◌, ◌>>◌}
use cmcs624_fall.Words.{Bytes, load64, store64}
use cmcs624_fall.Database.{nfields, copy_bytes}
use cmcs624_fall.Request.{Request, roundup, sizeof_request}

-- `RQST_BUF_SZ` of a1/include/process_pool_launcher.h
abbrev pub rqst_buf_sz : ℕ
rqst_buf_sz = 1024

-- Where the members stand in an object of the class: `db_`, then `num_writes_`, then these two.
abbrev pub writeset_at : ℕ
writeset_at = 16

abbrev pub updates_at : ℕ
updates_at = 24

-- `memcpy` of an array of 64-bit numbers to offset `o`.
unfoldable pub store_array : List ℕ → ℕ → Bytes → Bytes
store_array [] o b = b
store_array (v ∷ vs) o b = store_array vs (o + 8) (store64 b o v)

-- The first `n` values of a function.
abbrev pub tabulate : ℕ → ℕ → (ℕ → ℕ) → List ℕ
tabulate zero i f = []
tabulate (suc n) i f = f i ∷ tabulate n (suc i) f

-- The buffer `buf` is at `address`; `object` are the bytes of the request, and its arrays are those of
-- `r`. `offset` is that of the first array.
copy_from : ℕ → Bytes → ℕ → Bytes → Request → Bytes
unfolding store_array
copy_from offset buf address object r =
    let buf₁ = copy_bytes sizeof_request buf object in
    let buf₂ = store_array r.writeset offset buf₁ in
    let buf₃ = store64 buf₂ writeset_at (address + offset) in
    let next : ℕ = offset + 8 * length r.writeset in
    let buf₄ = store_array (tabulate nfields 0 r.updates) next buf₃ in
    store64 buf₄ updates_at (address + next)

pub copy_request : Bytes → ℕ → Bytes → Request → Attempt Bytes
unfolding copy_from
copy_request buf address object r = do
  let offset = roundup sizeof_request 8
  assert (offset % 8 == 0)
  returned (copy_from offset buf address object r)

-- An array as it is read: `n` numbers from offset `o` on.
unfoldable pub load_array : ℕ → ℕ → Bytes → List ℕ
load_array zero o b = []
load_array (suc n) o b = load64 b o ∷ load_array n (o + 8) b

-- The arrays of the request in a buffer at `address`, found through its pointers.
abbrev pub load_writeset : ℕ → ℕ → Bytes → List ℕ
load_writeset num_writes address buf = load_array num_writes (load64 buf writeset_at - address) buf

abbrev pub load_updates : ℕ → Bytes → List ℕ
load_updates address buf = load_array nfields (load64 buf updates_at - address) buf
