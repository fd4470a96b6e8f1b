-- ===== src/Generate/Keys.antt =====
-- The keys that are generated, and how many draws they take.
use cmcs624_fall.Common.{
  ℕ, zero, suc, ◌+◌, ◌%◌, ◌≤◌, ◌<◌, ◌≡◌, ◌≢◌, refl, ap, ◌∙◌, arith, false, some, List, [], ◌∷◌,
  length, All, All-map, Bool-cases, inl, inr,
}
use cmcs624_fall.Common.KeySet
use cmcs624_fall.Common.Sort.{Distinct}
use cmcs624_fall.Common.Draws.{Covers, length-insert, fresh_key}
use cmcs624_fall.Database.{Random, nfields}
use cmcs624_fall.Request.{Request}
use cmcs624_fall.Generate.{txn_sz, gen_unique, gen_keys, generate_single_request, generate_requests}

gen_unique_lem :
    (rand : Random) (fuel pos max d : ℕ) (seen : List ℕ)
    → d < fuel
    → 0 < max
    → KeySet.contains (rand (pos + d) % max) seen ≡ false
    → (gen pos' : ℕ) × (gen_unique rand fuel pos max seen
        ≡ some (gen, pos', KeySet.insert gen seen))
      × (gen < max)
      × (KeySet.contains gen seen ≡ false)
unfolding gen_unique
gen_unique_lem rand zero pos max d seen h z out = absurd (omega arith)
gen_unique_lem rand (suc fuel) pos max zero seen h z out =
    let e : KeySet.contains (rand pos % max) seen ≡ false =
      ap (λ p. KeySet.contains (rand p % max) seen) (omega arith) ∙ out in
    (rand pos % max, suc pos, rw e, omega arith, e)
gen_unique_lem rand (suc fuel) pos max (suc d) seen h z out =
    elim (Bool-cases (KeySet.contains (rand pos % max) seen)) [
      | inr e ↦ (rand pos % max, suc pos, rw e, omega arith, e)
      | inl e ↦
          let (gen, pos', run, below, new) =
            gen_unique_lem rand fuel (suc pos) max d seen (omega arith) z
              (ap (λ p. KeySet.contains (rand p % max) seen) (omega arith) ∙ out) in
          (gen, pos', rw e run, below, new)
    ]

-- What a generated request is like.
abbrev pub IsGenerated : ℕ → Request → Type 0
IsGenerated max r =
    All (λ k. k < max) r.writeset × Distinct r.writeset × (length r.writeset ≡ txn_sz)

module _ (rand : Random) (fuel max : ℕ) (covers : Covers rand max fuel) where
  gen_keys_lem :
      (n pos : ℕ) (seen : List ℕ)
      → length seen + n ≤ max
      → (ks : List ℕ) × (pos' : ℕ) × (gen_keys rand fuel n pos max seen ≡ some (ks, pos'))
        × All (λ k. k < max) ks
        × Distinct ks
        × All (λ k. KeySet.contains k seen ≡ false) ks
        × (length ks ≡ n)
  unfolding gen_keys
  gen_keys_lem zero pos seen h = ([], pos, refl, tt, tt, tt, refl)
  gen_keys_lem (suc n) pos seen h =
      let (k, below, out) = fresh_key max seen (omega arith) in
      let (d, lt, e) = covers pos k below in
      let (gen, pos', drawn, below', new) =
        gen_unique_lem rand fuel pos max d seen lt (omega arith)
          (ap (λ x. KeySet.contains x seen) e ∙ out) in
      let (ks, pos'', run, range, distinct, others, len) =
        gen_keys_lem n pos' (KeySet.insert gen seen) (omega (arith, length-insert gen seen)) in
      (
        gen ∷ ks,
        pos'',
        rw drawn (rw run),
        (below', range),
        (
          All-map (λ j. KeySet.contains j (KeySet.insert gen seen) ≡ false) (λ j. gen ≢ j)
              (λ j x. ground (arith, KeySet.contains-insert j gen seen)) ks others,
          distinct,
        ),
        (
          new,
          All-map (λ j. KeySet.contains j (KeySet.insert gen seen) ≡ false)
              (λ j. KeySet.contains j seen ≡ false)
              (λ j x. ground (arith, KeySet.contains-insert j gen seen)) ks others,
        ),
        omega (arith, len),
      )

  pub generate_single_request_lem :
      (pos : ℕ)
      → txn_sz ≤ max
      → (r : Request) × (pos' : ℕ) × (generate_single_request rand fuel pos max ≡ some (r, pos'))
        × IsGenerated max r
  unfolding generate_single_request
  generate_single_request_lem pos h =
      let (ks, pos', run, range, distinct, others, len) = gen_keys_lem txn_sz pos [] h in
      (
        record { writeset = ks; updates = λ i. rand (pos' + i) },
        pos' + nfields,
        rw run,
        (range, distinct, len),
      )

-- With a generator that draws every key below the size in each stretch of `fuel` draws, and a database
-- of at least 50 records, all requests are generated: each has 50 keys, distinct and in range.
pub generate_requests_lem :
    (rand : Random) (fuel size : ℕ) (n pos : ℕ)
    → Covers rand size fuel
    → txn_sz ≤ size
    → (rs : List Request) × (pos' : ℕ) × (generate_requests rand fuel size n pos ≡ some (rs, pos'))
      × (length rs ≡ n)
      × All (IsGenerated size) rs
unfolding generate_requests
generate_requests_lem rand fuel size zero pos covers h = ([], pos, refl, refl, tt)
generate_requests_lem rand fuel size (suc n) pos covers h =
    let (r, pos', run, good) = generate_single_request_lem rand fuel size covers pos h in
    let (rs, pos'', runs, len, all) = generate_requests_lem rand fuel size n pos' covers h in
    (r ∷ rs, pos'', rw run (rw runs), omega (arith, len), (good, all))
