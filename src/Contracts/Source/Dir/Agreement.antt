-- ===== src/Contracts/Source/Dir/Agreement.antt =====
-- The two implementations of `ProblemSource` of crates/satunera-contracts/src/source.rs agree: a
-- directory without links whose names are segments of paths, and the tree in memory that its archive becomes.
use satunera.Prelude.{
  ℕ, ◌≡◌, refl, sym, ap, ◌∙◌, ◌⊎◌, inl, inr, List, [], ◌∷◌, ◌++◌, Option, none, some, Text, All,
  some-inj,
}
use satunera.Prelude.Split.{join_with}
use satunera.Contracts.Source.Normalize.{
  Sourced, ok, err, normalize, ◌>>=◌, SourceError, is_directory,
}
use satunera.Contracts.Source.Safety.{IsSegment, normalize-IsRelative, ok_inj}
use satunera.Contracts.Source.Tar.{
  TarEntry, Entries, TarSource, insert_entry, get_entry, insert, insert_all, from_entries, keys,
  found, get,
}
use satunera.Contracts.Source.Tar
use satunera.Contracts.Source.Disk.{
  Node, file, directory, symlink, Children, Place, named, at, at_from, FileSystem,
}
use satunera.Contracts.Source.Dir.{DirSource, resolve, bytes_of}
use satunera.Contracts.Source.Dir
use satunera.Contracts.Source.Dir.Places.{at_from-append}
use satunera.Contracts.Source.Dir.Contents.{Holds, outcome, outcome-resolve, if_there}
use satunera.Contracts.Source.Dir.Archive.{
  leaves_in, archive, held_by, last_leaf-leaves_in, or_option-none,
}
use satunera.Contracts.Source.Dir.Collected.{
  collected, unpacked, get_entry-collected, leaves_in-AreInside, from_entries-archive,
}

pub Sourced-cases :
    {A : Type 0} (m : Sourced A) → ((a : A) × (m ≡ ok a)) ⊎ ((e : SourceError) × (m ≡ err e))
Sourced-cases (ok a) = inl (a, refl)
Sourced-cases (err e) = inr (e, refl)

abbrev bytes_in : Option (ℕ × List ℕ) → Option (List ℕ)
bytes_in none = none
bytes_in (some (mode, bytes)) = some bytes

outcome-refuse :
    {A B : Type 0} (m : Sourced A) (f : A → SourceError)
    → outcome {A = B} (m >>= λ a. err (f a)) ≡ none
outcome-refuse (ok a) f = refl
outcome-refuse (err e) f = refl

outcome-bytes_of :
    (path : Text) (o : Option Node) → outcome (bytes_of path o) ≡ bytes_in (held_by o)
outcome-bytes_of path none = refl
outcome-bytes_of path (some (file mode none)) = refl
outcome-bytes_of path (some (file mode (some bytes))) = refl
outcome-bytes_of path (some (directory mode readable children)) =
    outcome-refuse (normalize path) is_directory
outcome-bytes_of path (some (symlink target)) = refl

outcome-bind-some :
    {A B : Type 0} (m : Sourced A) (f : A → Sourced B) (a : A)
    → outcome m ≡ some a
    → outcome (m >>= f) ≡ outcome (f a)
outcome-bind-some (ok b) f a h = ap (λ x. outcome (f x)) (some-inj h)
outcome-bind-some (err e) f a h = cc

outcome-bind-none :
    {A B : Type 0} (m : Sourced A) (f : A → Sourced B) → outcome m ≡ none → outcome (m >>= f) ≡ none
outcome-bind-none (ok b) f h = cc
outcome-bind-none (err e) f h = refl

outcome-opened :
    (fs : FileSystem) (path : Text) (place : Place) (m : Sourced Place) (o : Option Node)
    → outcome m ≡ if_there o place
    → at fs.tree place ≡ o
    → outcome (m >>= λ p. bytes_of path (at fs.tree p)) ≡ bytes_in (held_by o)
outcome-opened fs path place m none e stands = outcome-bind-none m _ e
outcome-opened fs path place m (some node) e stands =
    outcome-bind-some m _ place e ∙ rw stands (outcome-bytes_of path (some node))

outcome-tar_read :
    (path key : Text) (tar : TarSource) (held : Option (ℕ × List ℕ))
    → normalize path ≡ ok key
    → get_entry key tar.entries ≡ unpacked held
    → outcome (Tar.read path tar) ≡ bytes_in held
unfolding Tar.read get
outcome-tar_read path key tar none n e = rw (n, e) refl
outcome-tar_read path key tar (some (mode, bytes)) n e = rw (n, e) refl

module _ (fs : FileSystem) (source : DirSource) (children : Children)
    (holds : Holds fs source children) where
  outcome-dir_read :
      (path name : Text) (names : List Text)
      → normalize path ≡ ok (join_with b'/' (name ∷ names))
      → All IsSegment (name ∷ names)
      → outcome (Dir.read fs source path) ≡ bytes_in (held_by (at_from (named name children) names))
  unfolding Dir.read at_from
  outcome-dir_read path name names n h =
      outcome-opened fs path (source.root ++ name ∷ names) (resolve fs source path) _
        (outcome-resolve fs source children holds path name names n h)
        (at_from-append (some fs.tree) source.root (name ∷ names) ∙ rw (holds.stands) refl)

  get_entry-archive :
      (name : Text) (names : List Text)
      → All IsSegment (name ∷ names)
      → get_entry (join_with b'/' (name ∷ names)) (collected (leaves_in children) [])
        ≡ unpacked (held_by (at_from (named name children) names))
  unfolding get_entry
  get_entry-archive name names h =
      get_entry-collected (name ∷ names) (leaves_in children) [] h
        (leaves_in-AreInside children holds.content)
      ∙ rw (last_leaf-leaves_in name names children holds.content) (or_option-none _)

  unreadable :
      (tar : TarSource) (path : Text) (e : SourceError)
      → normalize path ≡ err e
      → outcome (Dir.read fs source path) ≡ outcome (Tar.read path tar)
  unfolding Dir.read resolve Tar.read get
  unreadable tar path e n = rw n refl

  -- A directory without links, all of whose files and directories can be read and each of whose
  -- names is a segment of a path (not empty, `.` or `..`, without slash, backslash and colon, and
  -- once in its directory), and the tree that its archive becomes have the same readable paths, with
  -- the same bytes: reading any path gives bytes from both, the same ones, or from neither.
  pub read-archive :
      (tar : TarSource) (path : Text)
      → from_entries (archive children) ≡ ok tar
      → outcome (Dir.read fs source path) ≡ outcome (Tar.read path tar)
  read-archive tar path e = elim (Sourced-cases (normalize path)) [
    | inr (bad, n) ↦ unreadable tar path bad n
    | inl (key, n) ↦
        let r = normalize-IsRelative path key n in
        let m = n ∙ ap ok (r.joins) in
        let built = ok_inj (sym (from_entries-archive children holds.content) ∙ e) in
        outcome-dir_read path r.first r.others m r.safe
        ∙ sym (
            outcome-tar_read path _ tar _ m
              (rw (← built) (get_entry-archive r.first r.others r.safe)))
  ]
