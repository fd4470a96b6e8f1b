-- ===== src/Config.antt =====
-- a1/include/config.h: the command line, and the configuration that it is turned into.
pub mod Accepted
pub mod CommandLine
use cmcs624_fall.Common.{
  ℕ, zero, suc, ◌≡◌, refl, arith, Bool, true, false, not, ◌&&◌, ◌||◌, Option, none, some, List, [],
  ◌∷◌, if◌then◌else◌, ◌==◌, ltb, leb, Bool-cases, inl, inr,
}
use cmcs624_fall.Common.Map
use cmcs624_fall.Common.Map.{Map}

-- The results of `atoi`.
pub data ℤ : Type 0 where
  pos : ℕ → ℤ
  negsuc : ℕ → ℤ

pub data ExecModel : Type 0 where
  process_pool process thread_pool thread : ExecModel

-- `option_code`, and the indices in `long_options`.
abbrev pub max_outstanding : ℕ
max_outstanding = 0

abbrev pub pool_size : ℕ
pool_size = 1

abbrev pub exp_type : ℕ
exp_type = 2

abbrev pub test : ℕ
test = 3

abbrev pub contention : ℕ
contention = 4

-- The ends of the constructor: `exit`, with its status, or a failed assertion; otherwise a result.
pub data Parsed {ℓ} (A : Type ℓ) : Type ℓ where
  parsed : A → Parsed A
  exits : ℤ → Parsed A
  aborts : Parsed A

infixl 5 ◌>>=◌
abbrev pub ◌>>=◌ {ℓ κ} : {A : Type ℓ} {B : Type κ} → Parsed A → (A → Parsed B) → Parsed B
parsed a >>= f = f a
exits n >>= f = exits n
aborts >>= f = aborts

-- The fields that are not set on a path keep the value 0 here; the program leaves them as they are.
pub record ExptConfig : Type 0 where
  pub max_outstanding_ : ℤ
  pub pool_size_ : ℤ
  pub type_ : ExecModel
  pub test_ : Bool
  pub contention_ : Bool

unfoldable pub is_pool : ExecModel → Bool
is_pool process_pool = true
is_pool thread_pool = true
is_pool process = false
is_pool thread = false

-- `Arg` are the argument strings, and `atoi` is the function of the C library.
module _ {Arg : Type 0} (atoi : Arg → ℤ) where
  -- The loop of `read_args`: `getopt_long_only` gives, in turn, the index of each option and its
  -- argument, with no index for an option that is not known.
  pub read_args : Map Arg → List (Option ℕ × Arg) → Parsed (Map Arg)
  read_args m [] = parsed m
  read_args m ((none, arg) ∷ rest) = exits (negsuc 0)
  read_args m ((some index, arg) ∷ rest) =
      let next = read_args (Map.insert index arg m) rest in
      if Map.contains index m then exits (negsuc 0) else next

  exec_model_of : ℤ → Parsed ExecModel
  exec_model_of (pos zero) = parsed process_pool
  exec_model_of (pos (suc zero)) = parsed process
  exec_model_of (pos (suc (suc zero))) = parsed thread_pool
  exec_model_of (pos (suc (suc (suc zero)))) = parsed thread
  exec_model_of _ = aborts

  in_range : ℤ → Bool
  in_range (pos n) = leb n 3
  in_range (negsuc n) = false

  -- `atoi(_arg_map[code])`: the argument of an option that is not there would be a null pointer.
  number_of : Option Arg → Parsed ℤ
  number_of none = aborts
  number_of (some arg) = parsed (atoi arg)

  -- The argument of an option that must be there, when another must not: the two errors exit with 0.
  required_without : Map Arg → ℕ → ℕ → Parsed ℤ
  unfolding number_of
  required_without m code other =
      if Map.contains code m
      then (if Map.contains other m then exits (pos 0) else number_of (Map.lookup code m))
      else exits (pos 0)

  finish_config : Map Arg → ExecModel → Parsed ExptConfig
  unfolding is_pool required_without
  finish_config m model =
      if is_pool model
      then (required_without m pool_size max_outstanding >>= λ size. parsed (record {
        max_outstanding_ = pos 0;
        pool_size_ = size;
        type_ = model;
        test_ = Map.contains test m;
        contention_ = Map.contains contention m;
      }))
      else (required_without m max_outstanding pool_size >>= λ most. parsed (record {
        max_outstanding_ = most;
        pool_size_ = pos 0;
        type_ = model;
        test_ = Map.contains test m;
        contention_ = Map.contains contention m;
      }))

  typed_config : Map Arg → ℤ → Parsed ExptConfig
  unfolding in_range exec_model_of finish_config
  typed_config m n =
      if in_range n then (exec_model_of n >>= λ model. finish_config m model) else exits (pos 0)

  pub init_config : Map Arg → Parsed ExptConfig
  unfolding typed_config number_of
  init_config m =
      if Map.contains exp_type m
      then (number_of (Map.lookup exp_type m) >>= λ n. typed_config m n)
      else exits (pos 0)

  -- The constructor.
  pub expt_config : List (Option ℕ × Arg) → Parsed ExptConfig
  unfolding read_args init_config
  expt_config args = read_args [] args >>= λ m. init_config m
