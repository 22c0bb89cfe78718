-- ===== src/Store/Blob.antt =====
-- crates/satunera-store/src/blob.rs: the keys of blobs, and `FsBlobStore` over a file system. A file
-- system is a list of the files with their paths relative to the root of the store; that a directory is
-- made before a file is written, and the faults of the disk, are left out.
pub mod Laws
pub mod Digits
pub mod Paths
use satunera.Prelude.{
  ℕ, zero, suc, ◌+◌, ◌/◌, ◌%◌, ltb, leb, Bool, true, false, not, ◌&&◌, ◌||◌, ◌==◌, List, [], ◌∷◌,
  ◌++◌, Option, none, some, Text, codes, text_eq, all, any, length, filter, if◌then◌else◌,
}
use satunera.Contracts.Source.Disk.{Step, normal, root_dir, cur_dir, parent_dir, steps}
use satunera.Store.Codec.{Codec}

-- `b.is_ascii_digit() || (b'a'..=b'f').contains(&b)`
abbrev pub is_hex : ℕ → Bool
is_hex b = (leb b'0' b && leb b b'9') || (leb b'a' b && leb b b'f')

-- `Sha256Hash::from_hex`
unfoldable pub from_hex : Text → Option Text
from_hex value = if length value == 64 && all is_hex value then some value else none

-- `Sha256Hash` is its text. What `sha2` makes of bytes is not used here.
pub data BlobKind (Ulid : Type 0) : Type 0 where
  source : (hash : Text) → BlobKind Ulid
  log : (submission : Ulid) (attempt : ℕ) → BlobKind Ulid

-- `Display` of a `u32`; a number has at most as many digits as its value, or one.
unfoldable pub digits : (fuel : ℕ) → ℕ → Text
digits zero n = (b'0' + n % 10) ∷ []
digits (suc fuel) n =
    let front = digits fuel (n / 10) in
    if ltb n 10 then (b'0' + n) ∷ [] else front ++ (b'0' + n % 10) ∷ []

abbrev pub Files : Type 0
Files = List (Text × List ℕ)

unfoldable pub read_file : Text → Files → Option (List ℕ)
read_file path [] = none
read_file path ((p, bytes) ∷ files) =
    let rest = read_file path files in if text_eq p path then some bytes else rest

unfoldable pub remove_file : Text → Files → Files
remove_file path [] = []
remove_file path ((p, bytes) ∷ files) =
    let rest = remove_file path files in if text_eq p path then rest else (p, bytes) ∷ rest

-- `tokio::fs::write`
unfoldable pub write_file : Text → List ℕ → Files → Files
write_file path bytes files = (path, bytes) ∷ remove_file path files

-- `tokio::fs::rename`: the file goes to the new path, in place of what is there.
abbrev pub placed : (from to : Text) → Files → Option (List ℕ) → Files
placed from to files none = files
placed from to files (some bytes) = write_file to bytes (remove_file from files)

unfoldable pub rename_file : (from to : Text) → Files → Files
rename_file from to files = placed from to files (read_file from files)

-- The path before the last dot of its last segment, if that has a dot.
abbrev pub dotted : ℕ → Text → Option Text → Option Text
dotted c s (some t) = some (c ∷ t)
dotted c s none = if c == b'.' && not (any (λ d. d == b'/') s) then some [] else none

unfoldable pub before_dot : Text → Option Text
before_dot [] = none
before_dot (c ∷ s) = dotted c s (before_dot s)

abbrev pub stem : Text → Option Text → Text
stem path none = path
stem path (some t) = t

-- `Path::with_extension`, of a path whose last segment does not begin with its only dot.
unfoldable pub with_extension : Text → Text → Text
with_extension extension path = stem path (before_dot path) ++ b'.' ∷ extension

pub data Fetched : Type 0 where
  bytes_of : List ℕ → Fetched
  blob_not_found : (key : Text) → Fetched

abbrev pub fetched : Text → Option (List ℕ) → Fetched
fetched key none = blob_not_found key
fetched key (some bytes) = bytes_of bytes

-- `matches!(c, Component::Normal(_))`
abbrev pub is_normal : Step → Bool
is_normal (normal name) = true
is_normal root_dir = false
is_normal cur_dir = false
is_normal parent_dir = false

abbrev pub is_cur_dir : Step → Bool
is_cur_dir cur_dir = true
is_cur_dir root_dir = false
is_cur_dir parent_dir = false
is_cur_dir (normal name) = false

-- `Path::components`, which drops every `.` and every empty segment but a `.` at the front.
unfoldable pub components : Text → List Step
components path = filter (λ s. not (is_cur_dir s)) (steps path)

unfoldable pub ends_with_slash : Text → Bool
ends_with_slash [] = false
ends_with_slash (c ∷ []) = c == b'/'
ends_with_slash (c ∷ d ∷ s) = ends_with_slash (d ∷ s)

-- `Path::join` with a relative path: no slash is added to an empty path or after a slash.
unfoldable pub path_join : (root key : Text) → Text
path_join root key =
    if text_eq root [] || ends_with_slash root then root ++ key else root ++ codes "/" ++ key

module _ {Ulid Time : Type 0} (c : Codec Ulid Time) where
  -- `BlobKind::key`
  unfoldable pub blob_key : BlobKind Ulid → Text
  blob_key (source hash) = codes "blobs/" ++ hash
  blob_key (log submission attempt) =
      codes "logs/" ++ c.ulid_text submission ++ codes "/" ++ digits attempt attempt

  -- `path_for`: the key joined to the root. `None` is the panic of its `debug_assert!`.
  unfoldable pub path_for : (root : Text) → BlobKind Ulid → Option Text
  path_for root kind =
      if all is_normal (components (blob_key kind))
      then some (path_join root (blob_key kind))
      else none

  -- `uri`, at a root, where the assertion of `path_for` holds
  unfoldable pub uri : (root : Text) → BlobKind Ulid → Text
  uri root kind = codes "file://" ++ path_join root (blob_key kind)

  -- The first of the two writes of `put`: after it the bytes are at the temporary path.
  unfoldable pub put_temporary : BlobKind Ulid → List ℕ → Files → Files
  put_temporary kind bytes files =
      write_file (with_extension (codes "tmp") (blob_key kind)) bytes files

  unfoldable pub put : (root : Text) → BlobKind Ulid → List ℕ → Files → Text × Files
  put root kind bytes files =
      let path = blob_key kind in
      let tmp = with_extension (codes "tmp") path in
      (uri root kind, rename_file tmp path (put_temporary kind bytes files))

  unfoldable pub get_blob : BlobKind Ulid → Files → Fetched
  get_blob kind files = let key = blob_key kind in fetched key (read_file key files)
