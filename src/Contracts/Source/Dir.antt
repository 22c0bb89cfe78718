-- ===== src/Contracts/Source/Dir.antt =====
-- `DirSource` of crates/satunera-contracts/src/source.rs, through its interface.
pub mod Places
pub mod Contents
pub mod Archive
pub mod Collected
pub mod Canonical
pub mod Agreement
pub mod Listing
pub mod Enumeration
pub mod Prefixes
pub mod Parts
pub mod Chosen
pub mod Missing
pub mod Sublistings
use satunera.Prelude.{
  ℕ, Bool, true, false, ◌||◌, List, [], ◌∷◌, ◌++◌, map, Option, none, some, Text, codes, text_eq,
  text_le, if◌then◌else◌,
}
use satunera.Prelude.Split.{join_with}
use satunera.Prelude.Sorting.{sort_by}
use satunera.Contracts.Source.Normalize.{
  Sourced, ok, err, SourceError, not_found, is_directory, escapes, io, ◌>>=◌, is_empty, normalize,
}
use satunera.Contracts.Source.Tar.{mode_is_executable}
use satunera.Contracts.Source.Disk.{
  Node, file, directory, symlink, Children, end, child, Place, at, is_dir, Step, root_dir, normal,
  steps, Resolved, found, absent, refused, FileSystem, canonicalize,
}

pub record DirSource : Type 0 where
  pub root : Place

-- `Path::strip_prefix`; `starts_with` is whether there is one.
unfoldable pub strip_prefix : Place → Place → Option Place
strip_prefix [] path = some path
strip_prefix (name ∷ prefix) [] = none
strip_prefix (name ∷ prefix) (first ∷ path) =
    let rest = strip_prefix prefix path in if text_eq name first then rest else none

abbrev pub unwrap_or : Place → Option Place → Place
unwrap_or path none = path
unwrap_or path (some rest) = rest

unfoldable pub relative : DirSource → Place → Text
relative source path = join_with b'/' (unwrap_or path (strip_prefix source.root path))

-- The match on what `canonicalize` returned, and the comparison with the root.
abbrev pub confined : (rel : Text) (path : Place) → Option Place → Sourced Place
confined rel path none = err (escapes rel)
confined rel path (some rest) = ok path

abbrev pub resolved : DirSource → (rel : Text) → Resolved → Sourced Place
resolved source rel absent = err (not_found rel)
resolved source rel refused = err (io rel)
resolved source rel (found path) = confined rel path (strip_prefix source.root path)

-- The entries of a directory at `dir`, in the order of `read_dir`. A link is listed, not followed.
unfoldable mutual
  pub walk : DirSource → Place → Node → List Text → Sourced (List Text)
  walk source path (directory mode readable children) out =
      let inner = walk_entries source path children out in
      if readable then inner else err (io (relative source path))
  walk source path (file mode bytes) out = ok (out ++ relative source path ∷ [])
  walk source path (symlink target) out = ok (out ++ relative source path ∷ [])

  pub walk_entries : DirSource → Place → Children → List Text → Sourced (List Text)
  walk_entries source dir end out = ok out
  walk_entries source dir (child name node rest) out =
      walk source (dir ++ name ∷ []) node out >>= λ out'. walk_entries source dir rest out'

abbrev pub listed : DirSource → Place → Option Node → Sourced (List Text)
listed source start none = ok (relative source start ∷ [])
listed source start (some node) = walk source start node []

abbrev pub sorted : List Text → Sourced (List Text)
sorted out = ok (sort_by text_le out)

-- `fs::read`, whose error gets the normalised path, or the path as given where that fails.
abbrev pub spelled : Text → Sourced Text → Text
spelled path (ok rel) = rel
spelled path (err e) = path

abbrev pub bytes_of : Text → Option Node → Sourced (List ℕ)
bytes_of path (some (file mode (some bytes))) = ok bytes
bytes_of path (some (directory mode readable children)) =
    normalize path >>= λ rel. err (is_directory rel)
bytes_of path _ = err (io (spelled path (normalize path)))

abbrev pub executable : Text → Option Node → Sourced Bool
executable path (some (file mode bytes)) = ok (mode_is_executable mode)
executable path (some (directory mode readable children)) = ok (mode_is_executable mode)
executable path _ = err (io (spelled path (normalize path)))

module _ (fs : FileSystem) where
  abbrev pub opened : (given : Text) → Resolved → Sourced DirSource
  opened given (found place) = ok (record { root = place })
  opened given _ = err (io given)

  unfoldable pub new : (root : Text) → Sourced DirSource
  new root = opened root (if is_empty root then absent else canonicalize fs fs.current (steps root))

  unfoldable pub resolve : DirSource → (path : Text) → Sourced Place
  resolve source path = normalize path >>= λ rel.
      resolved source rel (canonicalize fs [] (map normal source.root ++ steps rel))

  unfoldable pub read : DirSource → (path : Text) → Sourced (List ℕ)
  read source path = resolve source path >>= λ place. bytes_of path (at fs.tree place)

  -- A missing prefix lists nothing.
  abbrev pub start_of : DirSource → Sourced Place → Sourced (List Text)
  start_of source (ok start) = listed source start (at fs.tree start) >>= sorted
  start_of source (err (not_found path)) = ok []
  start_of source (err e) = err e

  unfoldable pub list : DirSource → (prefix : Text) → Sourced (List Text)
  list source prefix =
      if is_empty prefix || text_eq prefix (codes ".")
      then start_of source (ok source.root)
      else start_of source (resolve source prefix)

  unfoldable pub is_executable : DirSource → (path : Text) → Sourced Bool
  is_executable source path = resolve source path >>= λ place. executable path (at fs.tree place)
