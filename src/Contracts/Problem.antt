-- ===== src/Contracts/Problem.antt =====
-- crates/satunera-contracts/src/problem.rs: the typed form of `problem.json`, and its defaults. A `u32`
-- is a natural number.
use satunera.Prelude.{ℕ, Bool, true, false, List, ◌++◌, Text, codes, any}
use satunera.Contracts.Difficulty.{Difficulty}
use satunera.Contracts.Language
use satunera.Contracts.Language.{Language, rust, py, cpp}

-- `PROBLEM_SCHEMA_VERSION`
abbrev pub problem_schema_version : ℕ
problem_schema_version = 1

-- `DEFAULT_WALL_SEC` and `DEFAULT_MEMORY_MB`
abbrev pub default_wall_sec : ℕ
default_wall_sec = 30

abbrev pub default_memory_mb : ℕ
default_memory_mb = 512

pub record Services : Type 0 where
  pub bitcoind : Bool
  pub lnd : Bool
  pub electrs : Bool

pub record Limits : Type 0 where
  pub wall_sec : ℕ
  pub memory_mb : ℕ

-- `Services::default` and `Limits::default`
abbrev pub default_services : Services
default_services = record { bitcoind = true; lnd = false; electrs = false }

abbrev pub default_limits : Limits
default_limits = record { wall_sec = default_wall_sec; memory_mb = default_memory_mb }

pub record Problem : Type 0 where
  pub schema_version : ℕ
  pub id : Text
  pub title : Text
  pub category : Text
  pub difficulty : Difficulty
  pub languages : List Language
  pub fixture : Text
  pub services : Services
  pub limits : Limits

-- The derived `PartialEq` of `Language`.
abbrev pub language_eq : Language → Language → Bool
language_eq rust rust = true
language_eq py py = true
language_eq cpp cpp = true
language_eq _ _ = false

unfoldable pub scaffold_dir : Language → Problem → Text
scaffold_dir language problem = codes "srcs/" ++ Language.as_str language

unfoldable pub solution_dir : Language → Problem → Text
solution_dir language problem = codes "solutions/" ++ Language.as_str language

unfoldable pub accepts : Language → Problem → Bool
accepts language problem = any (language_eq language) problem.languages
