-- ===== src/Contracts/Source/Dir/Sublistings.antt =====
-- What the two implementations of `ProblemSource` of crates/satunera-contracts/src/source.rs list under
-- a prefix.
use satunera.Prelude.{true, List, ◌∷◌, map, Option, some, Text, text_le}
use satunera.Prelude.Sorting.{sort_by}
use satunera.Contracts.Source.Tar
use satunera.Contracts.Source.Disk.{Node, directory, Children, Place, at_from, FileSystem}
use satunera.Contracts.Source.Dir.{DirSource, listed, sorted}
use satunera.Contracts.Source.Dir
use satunera.Contracts.Source.Dir.Contents.{Holds}
use satunera.Contracts.Source.Dir.Listing.{spell_leaf}
use satunera.Contracts.Source.Dir.Parts.{leaves_at, below_all}

abbrev listing_at : Place → Option Node → List Text
listing_at p o = sort_by text_le (map spell_leaf (map (below_all p) (leaves_at o)))

module _ (fs : FileSystem) (source : DirSource) (children : Children)
    (holds : Holds fs source children) where
  -- What stands at a place below the root.
  abbrev below_root : Text → List Text → Option Node
  below_root name names = at_from (some (directory holds.mode true children)) (name ∷ names)
