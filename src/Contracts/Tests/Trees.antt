-- ===== src/Contracts/Tests/Trees.antt =====
-- The paths and the tree of a small archive.
use satunera.Prelude.{
  ◌≡◌, refl, List, [], ◌∷◌, find?, filter, Text, codes, text_eq, any, starts_with, text_le, ◌&&◌,
  if◌then◌else◌, ℕ,
}
use satunera.Prelude.Split.{split_on, join_with}
use satunera.Contracts.Source.{
  ok, err, escapes, normalize, strip_dot_slash, push_segments, TarSource, insert_entry, get_entry,
  insert, insert_all, from_entries, read, list, under, is_executable, mode_is_executable,
}
use satunera.Contracts.Source.Safety.{IsRelative, normalize-IsRelative}
use satunera.Contracts.Source.Tree.{IsTree}
use satunera.Contracts.Source.Laws.{
  from_entries-IsTree, read-insert, listed_iff_readable, is_ok, within, added,
}

abbrev sloppy : Text
sloppy = codes ".\\srcs//rust/./main.rs"

abbrev tidy : Text
tidy = codes "srcs/rust/main.rs"

abbrev files : List (Text × ℕ × List ℕ)
files = (sloppy, 0x1a4, 1 ∷ 2 ∷ []) ∷ (codes "build.sh", 0x1ed, 3 ∷ []) ∷ []

abbrev tree : TarSource
tree = record {
  entries =
      (codes "build.sh", record { mode = 0x1ed; bytes = 3 ∷ [] })
      ∷ (tidy, record { mode = 0x1a4; bytes = 1 ∷ 2 ∷ [] })
      ∷ [];
}

functions : Unit {0}
unfolding normalize strip_dot_slash push_segments split_on join_with insert_entry get_entry insert
    insert_all from_entries read list under is_executable mode_is_executable text_eq text_le find?
    filter any starts_with
functions = tt

tidied : normalize sloppy ≡ ok tidy
unfolding functions
tidied = refl

tidy_tidied : normalize tidy ≡ ok tidy
unfolding functions
tidy_tidied = refl

escaping : normalize (codes "a/../../b") ≡ err (escapes (codes "a/../../b"))
unfolding functions
escaping = refl

built : from_entries files ≡ ok tree
unfolding functions
built = refl

listed : list (codes "srcs") tree ≡ ok (tidy ∷ [])
unfolding functions
listed = refl

normalize-IsRelative_example : IsRelative tidy
normalize-IsRelative_example = normalize-IsRelative sloppy tidy tidied

from_entries-IsTree_example : IsTree tree
from_entries-IsTree_example = from_entries-IsTree files tree built

listed_iff_readable_example :
    any (λ p. text_eq p tidy) (tidy ∷ []) ≡ (is_ok (read tidy tree) && within (codes "srcs") tidy)
listed_iff_readable_example =
    listed_iff_readable tree (codes "srcs") tidy (tidy ∷ []) tidy_tidied listed

inserted : insert sloppy 0x1ed (4 ∷ []) tree ≡ ok (added tidy 0x1ed (4 ∷ []) tree)
unfolding functions
inserted = refl

read-insert_example :
    (read sloppy (added tidy 0x1ed (4 ∷ []) tree)
      ≡ (if text_eq tidy tidy then ok (4 ∷ []) else read sloppy tree))
    × (is_executable sloppy (added tidy 0x1ed (4 ∷ []) tree)
        ≡ (if text_eq tidy tidy then ok (mode_is_executable 0x1ed) else is_executable sloppy tree))
read-insert_example =
    read-insert sloppy 0x1ed (4 ∷ []) tree (added tidy 0x1ed (4 ∷ []) tree) tidy sloppy tidy
      inserted tidied tidied
