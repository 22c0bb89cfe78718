-- ===== src/Contracts/Tests/Disks.antt =====
-- Two small file systems: a directory with links that turn back and that leave it, and one without.
use satunera.Prelude.{
  ◌≡◌, refl, [], ◌∷◌, ◌++◌, map, some, true, Text, codes, text_eq, text_le, any, filter,
  starts_with, ℕ,
}
use satunera.Prelude.Split.{split_on, join_with}
use satunera.Prelude.Sorting.{sort_by}
use satunera.Contracts.Source.{
  ok, err, escapes, not_found, normalize, under, keys, strip_dot_slash, push_segments,
  mode_is_executable, TarSource, insert_entry, get_entry, get, insert, insert_all, from_entries, io,
}
use satunera.Contracts.Source.Safety.{IsSegment}
use satunera.Contracts.Source.Disk.{
  file, directory, symlink, Children, end, child, Place, named, at, at_from, normal, steps, found,
  enter, advance, follow, FileSystem, canonicalize,
}
use satunera.Contracts.Source.Dir.{
  DirSource, strip_prefix, relative, walk, new, resolve, read, list, is_executable,
}
use satunera.Contracts.Source
use satunera.Contracts.Source.Dir.Places.{is_real, read-confined}
use satunera.Contracts.Source.Dir.Contents.{Holds, AreContent, outcome}
use satunera.Contracts.Source.Dir.Archive.{leaves, archive}
use satunera.Contracts.Source.Dir.Agreement.{read-archive}
use satunera.Contracts.Source.Dir.Listing.{ends, ends_in, list_whole}
use satunera.Contracts.Source.Dir.Canonical.{resolve-canonical}

abbrev plain : Children
plain =
    child (codes "d") (directory 0x1ed true (child (codes "b") (file 0x1a4 (some (7 ∷ []))) end))
      (child (codes "a") (file 0x1ed (some (8 ∷ 9 ∷ []))) end)

-- `up` turns back, `out` leaves the directory, and `self` points at itself.
abbrev linked : Children
linked = child (codes "up") (symlink (codes "..")) (
    child (codes "out") (symlink (codes "/e")) (
      child (codes "self") (symlink (codes "self"))
        (child (codes "in") (symlink (codes "./d/../d/b")) plain)))

abbrev disk : Children → FileSystem
disk children = record {
  tree = directory 0x1ed true (
      child (codes "p") (directory 0x1ed true children) (
        child (codes "e")
          (directory 0x1ed true (child (codes "s") (file 0x180 (some (1 ∷ []))) end)) end));
  current = codes "p" ∷ [];
  max_links = 4;
}

abbrev source : DirSource
source = record { root = codes "p" ∷ [] }

reading : Unit {0}
unfolding normalize under starts_with filter strip_dot_slash push_segments split_on join_with
    insert_entry get_entry get insert insert_all from_entries mode_is_executable text_eq text_le any
    sort_by named at_from steps enter advance follow canonicalize strip_prefix relative walk new
    resolve read list is_executable leaves archive ends Source.read Source.list
reading = tt

opened_here : new (disk linked) (codes ".") ≡ ok source
unfolding reading
opened_here = refl

read_through : read (disk linked) source (codes "d/..\\in") ≡ err (escapes (codes "d/..\\in"))
unfolding reading
read_through = refl

read_in : read (disk linked) source (codes "in") ≡ ok (7 ∷ [])
unfolding reading
read_in = refl

read_out : read (disk linked) source (codes "out/s") ≡ err (escapes (codes "out/s"))
unfolding reading
read_out = refl

read_self : read (disk linked) source (codes "self") ≡ err (io (codes "self"))
unfolding reading
read_self = refl

read_none : read (disk linked) source (codes "c") ≡ err (not_found (codes "c"))
unfolding reading
read_none = refl

listed :
    list (disk linked) source []
    ≡ ok (codes "a" ∷ codes "d/b" ∷ codes "in" ∷ codes "out" ∷ codes "self" ∷ codes "up" ∷ [])
unfolding reading
listed = refl

listed_none : list (disk linked) source (codes "c") ≡ ok []
unfolding reading
listed_none = refl

executable_file : is_executable (disk linked) source (codes "a") ≡ ok true
unfolding reading
executable_file = refl

read-confined_example :
    (rest : Place) × (mode : ℕ) × (at (disk linked).tree (source.root ++ rest)
      ≡ some (file mode (some (7 ∷ []))))
read-confined_example = read-confined (disk linked) source (codes "in") (7 ∷ []) read_in

stands : at (disk linked).tree source.root ≡ some (directory 0x1ed true linked)
unfolding reading
stands = refl

list_whole_example :
    list (disk linked) source [] ≡ ok (sort_by text_le (map (join_with b'/') (ends_in linked)))
list_whole_example =
    list_whole (disk linked) source 0x1ed linked stands
      (tt, (tt, (tt, (tt, ((refl, (tt, tt)), (tt, tt))))))

resolved_in :
    resolve (disk linked) source (codes "in") ≡ ok (codes "p" ∷ codes "d" ∷ codes "b" ∷ [])
unfolding reading
resolved_in = refl

current_real : is_real (at (disk linked).tree (disk linked).current) ≡ true
unfolding reading
current_real = refl

resolve-canonical_example :
    ((is_real (at (disk linked).tree source.root) ≡ true)
      × (canonicalize (disk linked) [] (map normal source.root) ≡ found source.root))
    × ((is_real (at (disk linked).tree (codes "p" ∷ codes "d" ∷ codes "b" ∷ [])) ≡ true)
        × (canonicalize (disk linked) [] (map normal (codes "p" ∷ codes "d" ∷ codes "b" ∷ []))
            ≡ found (codes "p" ∷ codes "d" ∷ codes "b" ∷ [])))
    × ((rest : Place) × (codes "p" ∷ codes "d" ∷ codes "b" ∷ [] ≡ source.root ++ rest))
resolve-canonical_example =
    resolve-canonical (disk linked) refl (codes ".") (codes "in") source
      (codes "p" ∷ codes "d" ∷ codes "b" ∷ []) current_real opened_here resolved_in

abbrev name_a : Text
name_a = codes "a"

name_a-IsSegment : IsSegment name_a
unfolding text_eq
name_a-IsSegment = record {
  nonempty = refl;
  not_dot = refl;
  not_dot_dot = refl;
  plain = ((refl, refl, refl), tt);
}

abbrev name_b : Text
name_b = codes "b"

name_b-IsSegment : IsSegment name_b
unfolding text_eq
name_b-IsSegment = record {
  nonempty = refl;
  not_dot = refl;
  not_dot_dot = refl;
  plain = ((refl, refl, refl), tt);
}

abbrev name_d : Text
name_d = codes "d"

name_d-IsSegment : IsSegment name_d
unfolding text_eq
name_d-IsSegment = record {
  nonempty = refl;
  not_dot = refl;
  not_dot_dot = refl;
  plain = ((refl, refl, refl), tt);
}

plain_content : AreContent plain
unfolding named text_eq
plain_content = (
  name_d-IsSegment,
  refl,
  (refl, (name_b-IsSegment, refl, tt, tt)),
  (name_a-IsSegment, refl, tt, tt),
)

held : Holds (disk plain) source plain
unfolding reading
held = record { mode = 0x1ed; stands = refl; content = plain_content }

abbrev tree : TarSource
tree = record {
  entries =
      (codes "a", record { mode = 0x1ed; bytes = 8 ∷ 9 ∷ [] })
      ∷ (codes "d/b", record { mode = 0x1a4; bytes = 7 ∷ [] })
      ∷ [];
}

archived : from_entries (archive plain) ≡ ok tree
unfolding reading
archived = refl

read-archive_example :
    outcome (read (disk plain) source (codes "d//b")) ≡ outcome (Source.read (codes "d//b") tree)
read-archive_example = read-archive (disk plain) source plain held tree (codes "d//b") archived

part_listed : list (disk plain) source (codes "d//") ≡ ok (codes "d/b" ∷ [])
unfolding reading
part_listed = refl

-- Under a prefix that goes through a file the directory fails, and the tree in memory lists nothing.
through_file : list (disk plain) source (codes "a/x") ≡ err (io (codes "a/x"))
unfolding reading
through_file = refl

nothing_under_file : Source.list (codes "a/x") tree ≡ ok []
unfolding reading
nothing_under_file = refl

-- The prefix `./` is refused by `normalize` as missing. The directory lists nothing under it, and the
-- tree in memory fails.
dot_slash_listed : list (disk plain) source (codes "./") ≡ ok []
unfolding reading
dot_slash_listed = refl

dot_slash_refused : Source.list (codes "./") tree ≡ err (not_found (codes "./"))
unfolding reading
dot_slash_refused = refl

-- A name with a backslash is listed, and reading it gives the bytes of another file.
abbrev twins : Children
twins = child (codes "d\\b") (file 0x1a4 (some (5 ∷ []))) plain

twins_listed : list (disk twins) source [] ≡ ok (codes "a" ∷ codes "d/b" ∷ codes "d\\b" ∷ [])
unfolding reading
twins_listed = refl

twin_read : read (disk twins) source (codes "d\\b") ≡ ok (7 ∷ [])
unfolding reading
twin_read = refl
