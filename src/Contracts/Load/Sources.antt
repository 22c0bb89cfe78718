-- ===== src/Contracts/Load/Sources.antt =====
-- Loading the manifest of a problem from a directory and from its archive, as `load_problem_from` of
-- crates/satunera-contracts/src/lib.rs does for the command line and for an upload.
use satunera.Prelude.{ℕ, ◌≡◌, refl, ap, List, Option, none, some, some-inj}
use satunera.Contracts.Source.{Sourced, ok, err, TarSource, from_entries}
use satunera.Contracts.Source.Disk.{Children, FileSystem}
use satunera.Contracts.Source.Dir.{DirSource}
use satunera.Contracts.Source.Interface.{in_memory, on_disk}
use satunera.Contracts.Source.Dir.Contents.{Holds, outcome}
use satunera.Contracts.Source.Dir.Archive.{archive}
use satunera.Contracts.Source.Dir.Agreement.{read-archive}
use satunera.Contracts.Schema.{Schemas}
use satunera.Contracts.Load.{
  Parsed, Loaded, loaded, error, load_read, load_problem_from, problem_manifest,
}

-- What was loaded, if anything was.
abbrev pub value : {Failed A : Type 0} → Loaded Failed A → Option A
value (loaded a) = some a
value (error e) = none

module _ {Document Failure Failed A : Type 0} (schemas : Schemas Document Failure)
    (from_slice : List ℕ → Parsed Failed Document) (from_value : Document → Parsed Failed A) where
  value-load_read :
      (r s : Sourced (List ℕ))
      → outcome r ≡ outcome s
      → value (load_read schemas from_slice from_value r)
        ≡ value (load_read schemas from_slice from_value s)
  unfolding load_read
  value-load_read (ok bytes) (ok others) h =
      ap (λ b. value (load_read schemas from_slice from_value (ok b))) (some-inj h)
  value-load_read (ok bytes) (err e) h = cc
  value-load_read (err e) (ok bytes) h = cc
  value-load_read (err e) (err d) h = refl

  -- A problem directory without links, all of whose files and directories can be read and each of
  -- whose names is a segment of a path (not empty, `.` or `..`, without slash, backslash and colon,
  -- and once in its directory), and the tree that its archive becomes load alike: the same problem,
  -- or none from either.
  pub load_problem_from-archive :
      (fs : FileSystem) (source : DirSource) (children : Children) (tar : TarSource)
      → Holds fs source children
      → from_entries (archive children) ≡ ok tar
      → value (load_problem_from schemas from_slice from_value (on_disk fs source))
        ≡ value (load_problem_from schemas from_slice from_value (in_memory tar))
  unfolding load_problem_from
  load_problem_from-archive fs source children tar holds e =
      value-load_read _ _ (read-archive fs source children holds tar problem_manifest e)
