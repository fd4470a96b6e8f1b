-- ===== src/Tests/Records.antt =====
-- Records and requests of a1 at concrete inputs.
use mathlib.Core.List.Perm
use cmcs624_fall.Common.{
  died, ℕ, ◌+◌, ◌-◌, ◌==◌, ◌%◌, ◌^◌, ◌≤◌, ◌<◌, ◌≡◌, ◌≢◌, ◌↔◌, refl, arith, [], ◌∷◌, if◌then◌else◌,
  ok,
}
use cmcs624_fall.Common.Sort.{sort}
use cmcs624_fall.Mutex.{free, held, returned, failed, waiting}
use cmcs624_fall.Words.{Bytes}
use cmcs624_fall.Database.{Database, record_size, nfields, copy, compare}
use cmcs624_fall.Database.Copies.{Agree, compare_lem, compare-copy}
use cmcs624_fall.Request.{Request, do_write, execute, copy_size}
use cmcs624_fall.Request.Copy.{copy_request, load_writeset, load_updates, tabulate, writeset_at}
use cmcs624_fall.Request.Copy.Contents.{copy_request_lem}
use cmcs624_fall.Request.Fields.{field, IsGap, do_write_lem}
use cmcs624_fall.Request.Sequential.{effect, execute_lem, execute_waits}
use cmcs624_fall.Request.Order.{AllBytes, effects, effects-perm}

abbrev blank : ℕ → Bytes
blank k j = 0

abbrev db : Database
db = record { num_records = 10; records = blank; locks = λ _. free }

abbrev full : Database
full = record { num_records = 10; records = λ _ _. 255; locks = λ _. free }

abbrev two_keys : Request
two_keys = record { writeset = 7 ∷ 3 ∷ []; updates = λ i. i + 1 }

abbrev one_key : Request
one_key = record { writeset = 7 ∷ []; updates = λ i. 2 ^ 64 - 1 }

blank-AllBytes : AllBytes blank
blank-AllBytes k j = omega arith

do_write_lem_example :
    ((m : ℕ)
      → m < nfields
      → field (do_write (blank 0) two_keys.updates) m
        ≡ (field (blank 0) m + two_keys.updates m) % 2 ^ 64)
    × ((j : ℕ) → IsGap j → do_write (blank 0) two_keys.updates j ≡ blank 0 j)
do_write_lem_example = do_write_lem (blank 0) two_keys.updates

compare_lem_example :
    (db.num_records ≡ full.num_records
      → (compare db full ≡ returned (ok tt)) ↔ Agree db.num_records 0 db.records full.records)
    × (db.num_records ≢ full.num_records → compare db full ≡ failed)
    × (db.num_records ≡ full.num_records
        → (¬ Agree db.num_records 0 db.records full.records)
        → compare db full ≡ returned died)
compare_lem_example = compare_lem db full

compare-copy_example :
    (dst' : Database) × (copy db full ≡ returned dst')
    × (compare dst' full ≡ returned (ok tt))
    × ((k : ℕ) → dst'.locks k ≡ db.locks k)
    × ((k j : ℕ) → record_size ≤ j → dst'.records k j ≡ db.records k j)
    × ((k j : ℕ) → db.num_records ≤ k → dst'.records k j ≡ db.records k j)
compare-copy_example = compare-copy db full refl

execute_lem_example :
    (db' : Database) × (execute db two_keys
      ≡ returned (db', record two_keys { writeset = sort two_keys.writeset }))
    × ((k : ℕ) → db'.records k ≡ effect two_keys db.records k)
    × ((k : ℕ) → db'.locks k ≡ db.locks k)
    × (db'.num_records ≡ db.num_records)
execute_lem_example =
    execute_lem db two_keys (omega arith, (omega arith, tt)) ((λ e. omega arith, tt), (tt, tt))
      (refl, (refl, tt))

abbrev locked : Database
locked = record db { locks = λ k. if k == 3 then held else free }

execute_waits_example : execute locked two_keys ≡ waiting
execute_waits_example = execute_waits locked two_keys 3 (omega arith, (omega arith, tt)) refl refl

effects-perm_example :
    effects (two_keys ∷ one_key ∷ []) blank 7 100 ≡ effects (one_key ∷ two_keys ∷ []) blank 7 100
effects-perm_example =
    effects-perm (two_keys ∷ one_key ∷ []) (one_key ∷ two_keys ∷ []) blank
      (Perm.swap one_key two_keys []) blank-AllBytes 7 100

two_keys-numbers : (i : ℕ) → i < nfields → two_keys.updates i < 2 ^ 64
two_keys-numbers i lt = omega arith

-- A buffer of the pool that has been filled with ones before, at address 4096.
copy_request_lem_example :
    (buf' : Bytes) × (copy_request (λ _. 255) 4096 (λ j. j) two_keys ≡ returned buf')
    × (load_writeset 2 4096 buf' ≡ 7 ∷ 3 ∷ [])
    × (load_updates 4096 buf' ≡ tabulate nfields 0 two_keys.updates)
    × ((j : ℕ) → j < writeset_at → buf' j ≡ j)
    × ((j : ℕ) → copy_size two_keys ≤ j → buf' j ≡ 255)
copy_request_lem_example =
    copy_request_lem (λ _. 255) 4096 (λ j. j) two_keys (omega arith, (omega arith, tt))
      two_keys-numbers (omega arith) (omega arith)
