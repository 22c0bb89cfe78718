-- ===== src/Contracts/Source/Disk.antt =====
-- The part of `std::fs` that crates/satunera-contracts/src/source.rs calls: a tree of files,
-- directories and symbolic links that nobody changes in the meantime, and the resolution of a path.
use satunera.Prelude.{
  ℕ, zero, suc, Bool, true, false, List, [], ◌∷◌, ◌++◌, map, Option, none, some, Text, codes,
  text_eq, if◌then◌else◌,
}
use satunera.Prelude.Split.{split_on}
use satunera.Contracts.Source.Normalize.{starts_with_slash}

-- A file has a mode and its bytes, or none where the system refuses to read it. A directory is
-- readable or not; its children stand in the order of `read_dir`.
mutual
  pub data Node : Type 0 where
    file : (mode : ℕ) (bytes : Option (List ℕ)) → Node
    directory : (mode : ℕ) (readable : Bool) → Children → Node
    symlink : (target : Text) → Node

  pub data Children : Type 0 where
    end : Children
    child : (name : Text) → Node → Children → Children

-- A path without links, `.` and `..`, from the root of the file system.
abbrev pub Place : Type 0
Place = List Text

unfoldable pub named : Text → Children → Option Node
named name end = none
named name (child n node rest) = if text_eq n name then some node else named name rest

abbrev pub named_in : Text → Option Node → Option Node
named_in name (some (directory mode readable children)) = named name children
named_in name _ = none

-- What stands at a place. The place is read from its end, as it is walked.
unfoldable pub at_from : Option Node → Place → Option Node
at_from node [] = node
at_from node (name ∷ names) = at_from (named_in name node) names

abbrev pub at : Node → Place → Option Node
at tree place = at_from (some tree) place

abbrev pub is_dir : Option Node → Bool
is_dir (some (directory mode readable children)) = true
is_dir _ = false

-- One step of a path as the system reads it.
pub data Step : Type 0 where
  root_dir cur_dir parent_dir : Step
  normal : Text → Step

abbrev pub step_of : Text → Step
step_of segment =
    if text_eq segment []
    then cur_dir
    else if text_eq segment (codes ".")
    then cur_dir
    else if text_eq segment (codes "..")
    then parent_dir
    else normal segment

unfoldable pub steps : Text → List Step
steps path =
    let relative = map step_of (split_on b'/' path) in
    if starts_with_slash path then root_dir ∷ relative else relative

-- The outcome of `canonicalize`: the place, `ErrorKind::NotFound`, or another error.
pub data Resolved : Type 0 where
  found : Place → Resolved
  absent refused : Resolved

-- What a name is in the directory at a place.
pub data Entered : Type 0 where
  no_directory no_entry inside : Entered
  link : (target : Text) → Entered

abbrev pub entered : Option Node → Entered
entered none = no_entry
entered (some (symlink target)) = link target
entered (some (file mode bytes)) = inside
entered (some (directory mode readable children)) = inside

unfoldable pub enter : Text → Option Node → Entered
enter name (some (directory mode readable children)) = entered (named name children)
enter name _ = no_directory

abbrev pub parent : Place → Place
parent [] = []
parent (name ∷ []) = []
parent (name ∷ next ∷ names) = name ∷ parent (next ∷ names)

-- A name in a directory is walked into, or followed where it is a link.
abbrev pub onward : (next : Resolved) (meet : Text → Resolved) → Entered → Resolved
onward next meet no_directory = refused
onward next meet no_entry = absent
onward next meet inside = next
onward next meet (link target) = meet target

-- The steps of a path up to the first link, which `meet` follows.
unfoldable pub advance : (meet : Place → List Step → Resolved) → Node → Place → List Step → Resolved
advance meet tree here [] = found here
advance meet tree here (root_dir ∷ rest) = advance meet tree [] rest
advance meet tree here (cur_dir ∷ rest) =
    let next = advance meet tree here rest in if is_dir (at tree here) then next else refused
advance meet tree here (parent_dir ∷ rest) =
    let next = advance meet tree (parent here) rest in
    if is_dir (at tree here) then next else refused
advance meet tree here (normal name ∷ rest) =
    let next = advance meet tree (here ++ name ∷ []) rest in
    onward next (λ target. meet here (steps target ++ rest)) (enter name (at tree here))

-- The system follows so many links in one path, and refuses it from there.
unfoldable pub follow : (links : ℕ) → Node → Place → List Step → Resolved
follow zero tree = advance (λ here rest. refused) tree
follow (suc links) tree = advance (λ here rest. follow links tree here rest) tree

pub record FileSystem : Type 0 where
  pub tree : Node
  pub current : Place
  pub max_links : ℕ

-- `fs::canonicalize` of a path that is given as its steps from a place.
unfoldable pub canonicalize : FileSystem → Place → List Step → Resolved
canonicalize fs here path = follow fs.max_links fs.tree here path
