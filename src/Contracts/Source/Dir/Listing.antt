-- ===== src/Contracts/Source/Dir/Listing.antt =====
-- What `walk` and `list` of `DirSource` of crates/satunera-contracts/src/source.rs return for a
-- directory without links.
use satunera.Prelude.{
  ℕ, true, ◌≡◌, refl, sym, ap, ◌∙◌, List, [], ◌∷◌, ◌++◌, map, none, some, Text, text_le,
}
use mathlib.Core.List.{append_assoc, append-nil}
use satunera.Prelude.Split.{join_with}
use satunera.Prelude.Sorting.{sort_by}
use satunera.Contracts.Source.Normalize.{ok}
use satunera.Contracts.Source.Disk.{
  Node, file, directory, symlink, Children, end, child, Place, at, FileSystem,
}
use satunera.Contracts.Source.Dir.{DirSource, relative, walk, walk_entries, list}
use satunera.Contracts.Source.Dir.Places.{append-strip_prefix}
use satunera.Contracts.Source.Dir.Contents.{IsContent, AreContent}
use satunera.Contracts.Source.Dir.Archive.{Leaf, below, leaves, leaves_in}

relative-append :
    (source : DirSource) (p : Place) → relative source (source.root ++ p) ≡ join_with b'/' p
unfolding relative
relative-append source p = rw (append-strip_prefix source.root p) refl

-- The places of what is no directory, links included, in the order of `read_dir`.
unfoldable mutual
  pub ends : Node → List Place
  ends (file mode bytes) = [] ∷ []
  ends (symlink target) = [] ∷ []
  ends (directory mode readable children) = ends_in children

  pub ends_in : Children → List Place
  ends_in end = []
  ends_in (child name node rest) = map (◌∷◌ name) (ends node) ++ ends_in rest

-- The system refuses to read no directory.
abbrev mutual
  pub IsReadable : Node → Type 0
  IsReadable (file mode bytes) = Unit
  IsReadable (symlink target) = Unit
  IsReadable (directory mode readable children) = (readable ≡ true) × AreReadable children

  pub AreReadable : Children → Type 0
  AreReadable end = Unit
  AreReadable (child name node rest) = IsReadable node × AreReadable rest

-- The path of what stands below a place.
abbrev pub spell : Place → Place → Text
spell p q = join_with b'/' (p ++ q)

pub map-append :
    {A B : Type 0} (f : A → B) (xs ys : List A) → map f (xs ++ ys) ≡ map f xs ++ map f ys
map-append f [] ys = refl
map-append f (x ∷ xs) ys = ap (◌∷◌ (f x)) (map-append f xs ys)

spell-below :
    (p : Place) (name : Text) (xs : List Place)
    → map (spell p) (map (◌∷◌ name) xs) ≡ map (spell (p ++ name ∷ [])) xs
spell-below p name [] = refl
spell-below p name (q ∷ xs) = rw (append_assoc p (name ∷ []) q, spell-below p name xs) refl

mutual
  unfolding walk ends

  pub walk-ends :
      (source : DirSource) (p : Place) (node : Node) (out : List Text)
      → IsReadable node
      → walk source (source.root ++ p) node out ≡ ok (out ++ map (spell p) (ends node))
  walk-ends source p (file mode bytes) out h = rw (relative-append source p, append-nil p) refl
  walk-ends source p (symlink target) out h = rw (relative-append source p, append-nil p) refl
  walk-ends source p (directory mode readable children) out (r, h) =
      rw r (walk_entries-ends source p children out h)

  walk_entries-ends :
      (source : DirSource) (p : Place) (children : Children) (out : List Text)
      → AreReadable children
      → walk_entries source (source.root ++ p) children out
        ≡ ok (out ++ map (spell p) (ends_in children))
  walk_entries-ends source p end out h = ap ok (sym (append-nil out))
  walk_entries-ends source p (child name node rest) out (r, h) =
      rw
        (
          append_assoc source.root p (name ∷ []),
          walk-ends source (p ++ name ∷ []) node out r,
          walk_entries-ends source p rest (out ++ map (spell (p ++ name ∷ [])) (ends node)) h,
          append_assoc out (map (spell (p ++ name ∷ [])) (ends node))
              (map (spell p) (ends_in rest)),
          map-append (spell p) (map (◌∷◌ name) (ends node)) (ends_in rest),
          spell-below p name (ends node),
        )
        refl

walked :
    (source : DirSource) (children : Children)
    → AreReadable children
    → walk_entries source source.root children [] ≡ ok (map (join_with b'/') (ends_in children))
walked source children h =
    ap (λ p. walk_entries source p children []) (sym (append-nil source.root))
    ∙ walk_entries-ends source [] children [] h

-- Where the system refuses to read no directory, listing the whole tree ends, wherever the links in it
-- point, and gives the path of everything that is no directory, the links included, in the order of
-- text.
pub list_whole :
    (fs : FileSystem) (source : DirSource) (mode : ℕ) (children : Children)
    → at fs.tree source.root ≡ some (directory mode true children)
    → AreReadable children
    → list fs source [] ≡ ok (sort_by text_le (map (join_with b'/') (ends_in children)))
unfolding list walk
list_whole fs source mode children stands h = rw (stands, walked source children h) refl

-- The path of a file.
abbrev pub spell_leaf : Leaf → Text
spell_leaf leaf = join_with b'/' leaf.0

mutual
  pub content-IsReadable : (node : Node) → IsContent node → IsReadable node
  content-IsReadable (file mode bytes) h = tt
  content-IsReadable (symlink target) h = absurd h
  content-IsReadable (directory mode readable children) (r, h) = (r, content-AreReadable children h)

  pub content-AreReadable : (children : Children) → AreContent children → AreReadable children
  content-AreReadable end h = tt
  content-AreReadable (child name node rest) (s, once, p, h) =
      (content-IsReadable node p, content-AreReadable rest h)

map-below :
    (name : Text) (xs : List Leaf)
    → map (◌∷◌ name) (map (λ leaf. leaf.0) xs) ≡ map (λ leaf. leaf.0) (map (below name) xs)
map-below name [] = refl
map-below name (leaf ∷ xs) = rw (map-below name xs) refl

-- Without links, what is no directory is a file.
mutual
  unfolding ends leaves

  pub ends-leaves : (node : Node) → IsContent node → ends node ≡ map (λ leaf. leaf.0) (leaves node)
  ends-leaves (file mode none) h = absurd h
  ends-leaves (file mode (some bytes)) h = refl
  ends-leaves (symlink target) h = absurd h
  ends-leaves (directory mode readable children) (r, h) = ends_in-leaves_in children h

  ends_in-leaves_in :
      (children : Children)
      → AreContent children
      → ends_in children ≡ map (λ leaf. leaf.0) (leaves_in children)
  ends_in-leaves_in end h = refl
  ends_in-leaves_in (child name node rest) (s, once, p, h) =
      rw
        (
          ends-leaves node p,
          ends_in-leaves_in rest h,
          map-append (λ leaf. leaf.0) (map (below name) (leaves node)) (leaves_in rest),
          map-below name (leaves node),
        )
        refl

pub map-map : (xs : List Leaf) → map (join_with b'/') (map (λ leaf. leaf.0) xs) ≡ map spell_leaf xs
map-map [] = refl
map-map (leaf ∷ xs) = rw (map-map xs) refl

pub ends_in-spell_leaf :
    (children : Children)
    → AreContent children
    → map (join_with b'/') (ends_in children) ≡ map spell_leaf (leaves_in children)
ends_in-spell_leaf children h = rw (ends_in-leaves_in children h) (map-map (leaves_in children))
