-- ===== src/Config/Accepted.antt =====
-- Which arguments the constructor of the configuration accepts.
use cmcs624_fall.Common.{
  ℕ, zero, suc, ◌≡◌, ◌≢◌, refl, sym, ap, ◌∙◌, arith, Bool, true, false, not, ◌&&◌, Option, none,
  some, [], ◌∷◌, ◌==◌, leb, Bool-cases, Option-cases, inl, inr,
}
use cmcs624_fall.Common.Map
use cmcs624_fall.Common.Map.{Map}
use cmcs624_fall.Config.{
  ℤ, pos, negsuc, max_outstanding, pool_size, exp_type, Parsed, parsed, exits, aborts, ◌>>=◌,
  exec_model_of, in_range, is_pool, required_without, number_of, finish_config, typed_config,
  init_config,
}

contains-lookup :
    {Arg : Type 0}
    → (k : ℕ) (m : Map Arg) → Map.contains k m ≡ true
    → (arg : Arg) × (Map.lookup k m ≡ some arg)
contains-lookup k [] h = cc
contains-lookup k ((j, arg) ∷ m) h = elim (Bool-cases (k == j)) [
  | inl e ↦ rw e (arg, refl)
  | inr e ↦ rw e (contains-lookup k m (ground arith))
]

none≢some : {A : Type 0} {a : A} → ◌≡◌ {A = Option A} none (some a) → ⊥
none≢some x = cc

-- Whether there is a configuration.
abbrev pub is_parsed {ℓ} : {A : Type ℓ} → Parsed A → Bool
is_parsed (parsed a) = true
is_parsed (exits n) = false
is_parsed aborts = false

-- Whether the options for a number of processes or threads are right for the type of experiment.
abbrev pub suits : Bool → Bool → ℤ → Bool
suits has_size has_most (pos zero) = has_size && not has_most
suits has_size has_most (pos (suc zero)) = has_most && not has_size
suits has_size has_most (pos (suc (suc zero))) = has_size && not has_most
suits has_size has_most (pos (suc (suc (suc zero)))) = has_most && not has_size
suits has_size has_most _ = false

pub exits≢aborts : {A : Type 0} {n : ℤ} → ◌≡◌ {A = Parsed A} (exits n) aborts → ⊥
exits≢aborts x = cc

parsed≢aborts : {A : Type 0} {a : A} → ◌≡◌ {A = Parsed A} (parsed a) aborts → ⊥
parsed≢aborts x = cc

too_big : (n : ℕ) → leb (suc (suc (suc (suc n)))) 3 ≡ false
too_big n = ground arith

or_else : {A : Type 0} → A → Option A → A
or_else a none = a
or_else a (some b) = b

module _ {Arg : Type 0} (atoi : Arg → ℤ) where
  required_without-parsed :
      {A : Type 0}
      → (m : Map Arg) (code other : ℕ) (f : ℤ → A)
      → (is_parsed (required_without atoi m code other >>= λ n. parsed (f n))
          ≡ Map.contains code m && not (Map.contains other m))
        × ((required_without atoi m code other >>= λ n. parsed (f n)) ≢ aborts)
  unfolding required_without number_of
  required_without-parsed m code other f = elim (Bool-cases (Map.contains code m)) [
    | inr e ↦ rw e (refl, λ x. exits≢aborts x)
    | inl e ↦ elim (Bool-cases (Map.contains other m)) [
      | inl e' ↦ rw (e, e') (refl, λ x. exits≢aborts x)
      | inr e' ↦
          let (arg, found) = contains-lookup code m e in
          rw (e, e', found) (refl, λ x. parsed≢aborts x)
    ]
  ]

  typed_config-parsed :
      (m : Map Arg) (n : ℤ)
      → (is_parsed (typed_config atoi m n)
          ≡ suits (Map.contains pool_size m) (Map.contains max_outstanding m) n)
        × (typed_config atoi m n ≢ aborts)
  unfolding typed_config in_range exec_model_of finish_config is_pool
  typed_config-parsed m (pos zero) = required_without-parsed m pool_size max_outstanding _
  typed_config-parsed m (pos (suc zero)) = required_without-parsed m max_outstanding pool_size _
  typed_config-parsed m (pos (suc (suc zero))) =
      required_without-parsed m pool_size max_outstanding _
  typed_config-parsed m (pos (suc (suc (suc zero)))) =
      required_without-parsed m max_outstanding pool_size _
  typed_config-parsed m (pos (suc (suc (suc (suc n))))) = rw (too_big n) (refl, λ x. exits≢aborts x)
  typed_config-parsed m (negsuc n) = (refl, λ x. exits≢aborts x)

  -- `init_config` makes a configuration exactly if the type is given, is a number from 0 to 3, and of
  -- the two options for the number of processes or threads the one that this type needs is there and
  -- the other is not. Otherwise it exits: no assertion of it can fail.
  pub init_config-parsed :
      (m : Map Arg)
      → (init_config atoi m ≢ aborts)
        × (Map.lookup exp_type m ≡ none → is_parsed (init_config atoi m) ≡ false)
        × ((arg : Arg)
            → Map.lookup exp_type m ≡ some arg
            → is_parsed (init_config atoi m)
              ≡ suits (Map.contains pool_size m) (Map.contains max_outstanding m) (atoi arg))
  unfolding init_config number_of or_else
  init_config-parsed m = elim (Option-cases (Map.lookup exp_type m)) [
    | inl e ↦
        let c : Map.contains exp_type m ≡ false = rw (Map.contains, e) refl in
        rw (e, c) ((λ x. exits≢aborts x), (λ x. refl), λ arg y. absurd (none≢some y))
    | inr (arg, e) ↦
        let c : Map.contains exp_type m ≡ true = rw (Map.contains, e) refl in
        rw (e, c)
          (
            (typed_config-parsed m (atoi arg)).1,
            (λ x. absurd (none≢some (sym x))),
            λ arg' y.
                (typed_config-parsed m (atoi arg)).0
                ∙ ap
                    (λ a.
                      suits (Map.contains pool_size m) (Map.contains max_outstanding m)
                        (atoi (or_else arg a)))
                    y,
          )
  ]
