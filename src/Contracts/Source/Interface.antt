-- ===== src/Contracts/Source/Interface.antt =====
-- `ProblemSource` of crates/satunera-contracts/src/source.rs: a problem tree, wherever it comes from.
use satunera.Prelude.{ℕ, Bool, List, Text}
use satunera.Contracts.Source.Normalize.{Sourced}
use satunera.Contracts.Source.Tar.{TarSource}
use satunera.Contracts.Source.Tar
use satunera.Contracts.Source.Disk.{FileSystem}
use satunera.Contracts.Source.Dir.{DirSource}
use satunera.Contracts.Source.Dir

pub record ProblemSource : Type 0 where
  pub read : (path : Text) → Sourced (List ℕ)
  pub list : (prefix : Text) → Sourced (List Text)
  pub is_executable : (path : Text) → Sourced Bool

-- The two implementations.
abbrev pub in_memory : TarSource → ProblemSource
in_memory source = record {
  read = λ path. Tar.read path source;
  list = λ prefix. Tar.list prefix source;
  is_executable = λ path. Tar.is_executable path source;
}

abbrev pub on_disk : FileSystem → DirSource → ProblemSource
on_disk fs source = record {
  read = Dir.read fs source;
  list = Dir.list fs source;
  is_executable = Dir.is_executable fs source;
}
