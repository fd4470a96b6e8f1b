-- ===== src/Config/CommandLine.antt =====
-- The constructor of the configuration on a whole command line.
use native.Mathlib.Decide.{ℕ_discrete}
use cmcs624_fall.Common.{
  ℕ, ◌≡◌, ◌≢◌, refl, sym, ap, ◌∙◌, arith, Bool, true, false, not, ◌&&◌, Option, none, some, List,
  [], ◌∷◌, ◌==◌, if◌then◌else◌, Bool-cases, inl, inr,
}
use cmcs624_fall.Common.Map
use cmcs624_fall.Common.Map.{Map}
use cmcs624_fall.Config.{
  ℤ, pos, negsuc, max_outstanding, pool_size, exp_type, parsed, exits, aborts, read_args,
  init_config, expt_config,
}
use cmcs624_fall.Config.Accepted.{is_parsed, suits, exits≢aborts, init_config-parsed}

module _ {Arg : Type 0} where
  -- The argument of an option, of its first place on the command line.
  abbrev pub find_arg : ℕ → List (Option ℕ × Arg) → Option Arg
  find_arg k [] = none
  find_arg k ((none, arg) ∷ rest) = find_arg k rest
  find_arg k ((some index, arg) ∷ rest) = if k == index then some arg else find_arg k rest

  abbrev is_some : Option Arg → Bool
  is_some none = false
  is_some (some arg) = true

  abbrev pub is_given : ℕ → List (Option ℕ × Arg) → Bool
  is_given k args = is_some (find_arg k args)

  -- Every option is known, and none is there twice.
  abbrev pub is_clean : List (Option ℕ × Arg) → Bool
  is_clean [] = true
  is_clean ((none, arg) ∷ rest) = false
  is_clean ((some index, arg) ∷ rest) = not (is_given index rest) && is_clean rest

  contains-insert :
      (j k : ℕ) (arg : Arg) (m : Map Arg)
      → Map.contains j (Map.insert k arg m) ≡ (if j == k then true else Map.contains j m)
  contains-insert j k arg m = ground (arith, Map.lookup-insert j k arg m)

  module _ (atoi : Arg → ℤ) where
    read_args-again :
        (k : ℕ) (args : List (Option ℕ × Arg)) (m : Map Arg)
        → Map.contains k m ≡ true
        → is_given k args ≡ true
        → read_args atoi m args ≡ exits (negsuc 0)
    unfolding read_args
    read_args-again k [] m here again = cc
    read_args-again k ((none, arg) ∷ rest) m here again = refl
    read_args-again k ((some index, arg) ∷ rest) m here again = elim (ℕ_discrete k index) [
      | yes e ↦ rw (sym (ap (λ x. Map.contains x m) e) ∙ here) refl
      | no ne ↦ ground (
        arith,
        read_args-again k rest (Map.insert index arg m)
            (ground (arith, contains-insert k index arg m)) (ground arith),
      )
    ]

    read_args-unclean :
        (args : List (Option ℕ × Arg)) (m : Map Arg)
        → is_clean args ≡ false
        → read_args atoi m args ≡ exits (negsuc 0)
    unfolding read_args
    read_args-unclean [] m h = cc
    read_args-unclean ((none, arg) ∷ rest) m h = refl
    read_args-unclean ((some index, arg) ∷ rest) m h = elim (Bool-cases (is_given index rest)) [
      | inl twice ↦ ground (
        arith,
        read_args-again index rest (Map.insert index arg m)
            (ground (arith, contains-insert index index arg m)) twice,
      )
      | inr once ↦ ground (arith, read_args-unclean rest (Map.insert index arg m) (ground arith))
    ]

    -- The argument on the command line, or else what is in the map already.
    abbrev first_of : Option Arg → Option Arg → Option Arg
    first_of none old = old
    first_of (some arg) old = some arg

    read_args-clean :
        (args : List (Option ℕ × Arg)) (m : Map Arg)
        → is_clean args ≡ true
        → ((k : ℕ) → is_given k args ≡ true → Map.contains k m ≡ false)
        → (m' : Map Arg) × (read_args atoi m args ≡ parsed m')
          × ((k : ℕ) → Map.lookup k m' ≡ first_of (find_arg k args) (Map.lookup k m))
    unfolding read_args
    read_args-clean [] m h new = (m, refl, λ k. refl)
    read_args-clean ((none, arg) ∷ rest) m h new = cc
    read_args-clean ((some index, arg) ∷ rest) m h new =
        let (m', run, found) =
          read_args-clean rest (Map.insert index arg m) (ground arith) (λ k given.
            elim (ℕ_discrete k index) [
              | yes e ↦ ground (arith, ap (λ x. is_given x rest) e)
              | no ne ↦ ground (arith, contains-insert k index arg m, new k (ground arith))
            ]) in
        (
          m',
          ground (arith, new index (ground arith)),
          λ k. elim (ℕ_discrete k index) [
            | yes e ↦
                ground
                  (arith, found k, ap (λ x. is_given x rest) e, Map.lookup-insert k index arg m)
            | no ne ↦ ground (arith, found k, Map.lookup-insert k index arg m)
          ],
        )

    first_of-none : (o : Option Arg) → first_of o none ≡ o
    first_of-none none = refl
    first_of-none (some arg) = refl

    -- A clean command line is turned into the map of its arguments.
    config-clean :
        (args : List (Option ℕ × Arg))
        → is_clean args ≡ true
        → (m : Map Arg) × (expt_config atoi args ≡ init_config atoi m)
          × ((k : ℕ) → Map.lookup k m ≡ find_arg k args)
    unfolding expt_config
    config-clean args h =
        let (m, run, found) = read_args-clean args [] h (λ k given. refl) in
        (m, rw run refl, λ k. found k ∙ first_of-none (find_arg k args))

    init_config-missing :
        (m : Map Arg) → Map.lookup exp_type m ≡ none → init_config atoi m ≡ exits (pos 0)
    unfolding init_config
    init_config-missing m e =
        let c : Map.contains exp_type m ≡ false = rw (Map.contains, e) refl in rw c refl

    -- The constructor of the configuration, on a whole command line. An option that is not known, or
    -- that is there twice, makes it exit with -1. Without the type it exits with 0. Otherwise it makes a
    -- configuration exactly if the type is a number from 0 to 3 and, of the two options for the number
    -- of processes or threads, the one that this type needs is there and the other is not. None of its
    -- assertions fails.
    pub expt_config_lem :
        (args : List (Option ℕ × Arg))
        → (is_clean args ≡ false → expt_config atoi args ≡ exits (negsuc 0))
          × (is_clean args ≡ true
              → find_arg exp_type args ≡ none
              → expt_config atoi args ≡ exits (pos 0))
          × (is_clean args ≡ true
              → (arg : Arg) → find_arg exp_type args ≡ some arg
              → is_parsed (expt_config atoi args)
                ≡ suits (is_given pool_size args) (is_given max_outstanding args) (atoi arg))
          × (expt_config atoi args ≢ aborts)
    unfolding expt_config
    expt_config_lem args = (
      λ h. rw (read_args-unclean args [] h) refl,
      λ h missing.
          let (m, same, found) = config-clean args h in
          same ∙ init_config-missing m (found exp_type ∙ missing),
      λ h arg given.
          let (m, same, found) = config-clean args h in
          ap is_parsed same
          ∙ (init_config-parsed atoi m).2 arg (found exp_type ∙ given)
          ∙ ap (λ o. suits (is_some o) (Map.contains max_outstanding m) (atoi arg))
              (found pool_size)
          ∙ ap (λ o. suits (is_given pool_size args) (is_some o) (atoi arg))
              (found max_outstanding),
      elim (Bool-cases (is_clean args)) [
        | inl h ↦
            let (m, same, found) = config-clean args h in
            λ e. (init_config-parsed atoi m).0 (sym same ∙ e)
        | inr h ↦ rw (read_args-unclean args [] h) (λ e. exits≢aborts e)
      ],
    )
