-- ===== src/Generate.antt =====
-- The requests that a1/src/start.cc generates.
pub mod Keys
use cmcs624_fall.Common.{ℕ, zero, suc, ◌+◌, ◌%◌, Option, none, some, List, [], ◌∷◌, if◌then◌else◌}
use cmcs624_fall.Common.KeySet
use cmcs624_fall.Database.{Random, nfields}
use cmcs624_fall.Request.{Request}

infixl 5 ◌>>=◌
abbrev ◌>>=◌ {ℓ κ} : {A : Type ℓ} {B : Type κ} → Option A → (A → Option B) → Option B
none >>= f = none
some a >>= f = f a

-- `TXN_SZ`
abbrev pub txn_sz : ℕ
txn_sz = 50

-- The loop of `gen_unique`, for at most `fuel` draws; `rand` is drawn at `pos`. It gives the key, the
-- position after it, and the set.
gen_unique : Random → ℕ → ℕ → ℕ → List ℕ → Option (ℕ × ℕ × List ℕ)
gen_unique rand zero pos max seen = none
gen_unique rand (suc fuel) pos max seen =
    let again = gen_unique rand fuel (suc pos) max seen in
    let gen = rand pos % max in
    if KeySet.contains gen seen then again else some (gen, suc pos, KeySet.insert gen seen)

-- The loop over the write set in `generate_single_request`, with `n` keys to go.
gen_keys : Random → ℕ → ℕ → ℕ → ℕ → List ℕ → Option (List ℕ × ℕ)
unfolding gen_unique
gen_keys rand fuel zero pos max seen = some ([], pos)
gen_keys rand fuel (suc n) pos max seen = do
  (gen, pos', seen') ← gen_unique rand fuel pos max seen
  (keys, pos'') ← gen_keys rand fuel n pos' max seen'
  some (gen ∷ keys, pos'')

-- The updates are the `nfields` draws after those for the keys.
unfoldable pub generate_single_request : Random → ℕ → ℕ → ℕ → Option (Request × ℕ)
unfolding gen_keys
generate_single_request rand fuel pos size = do
  (keys, pos') ← gen_keys rand fuel txn_sz pos size []
  some (record { writeset = keys; updates = λ i. rand (pos' + i) }, pos' + nfields)

pub generate_requests : Random → ℕ → ℕ → ℕ → ℕ → Option (List Request × ℕ)
unfolding generate_single_request
generate_requests rand fuel size zero pos = some ([], pos)
generate_requests rand fuel size (suc n) pos = do
  (r, pos') ← generate_single_request rand fuel pos size
  (rs, pos'') ← generate_requests rand fuel size n pos'
  some (r ∷ rs, pos'')
