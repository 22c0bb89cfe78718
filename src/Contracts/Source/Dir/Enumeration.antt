-- ===== src/Contracts/Source/Dir/Enumeration.antt =====
-- The two implementations of `ProblemSource` of crates/satunera-contracts/src/source.rs list the same
-- paths.
use satunera.Prelude.{
  true, false, ◌||◌, ◌≡◌, refl, sym, ap, ◌∙◌, inl, inr, List, [], ◌∷◌, ◌++◌, map, none, some, Text,
  text_eq, text_eq_iff, text_le, text_le_trans, text_le_antisym, any, arith, All, Bool-cases,
}
use satunera.Prelude.Split.{join_with}
use satunera.Prelude.Sorting.{sort_by}
use satunera.Prelude.Sorting.Laws.{Climbs, Below, Climbs-unique, any-sort_by}
use satunera.Prelude.Sorting.Unrepeated.{IsUnrepeated, sort_by-Climbs, text_le-IsLinear}
use satunera.Contracts.Source.Normalize.{ok}
use satunera.Contracts.Source.Safety.{ok_inj}
use satunera.Contracts.Source.Tar.{TarEntry, Entries, TarSource, insert_entry, from_entries, keys}
use satunera.Contracts.Source.Tar
use satunera.Contracts.Source.Tree.{IsSorted, Before, IsTree}
use satunera.Contracts.Source.Laws.{from_entries-IsTree}
use satunera.Contracts.Source.Disk.{
  Node, file, directory, symlink, Children, end, child, Place, named, FileSystem,
}
use satunera.Contracts.Source.Dir.{DirSource}
use satunera.Contracts.Source.Dir
use satunera.Contracts.Source.Dir.Places.{at_from-none}
use satunera.Contracts.Source.Dir.Contents.{IsContent, AreContent, Holds}
use satunera.Contracts.Source.Dir.Archive.{
  Leaf, below, leaves, leaves_in, archive, place_eq, place_eq_refl, last_leaf, last_leaf-append,
  last_leaf-below, last_leaf-leaves_in,
}
use satunera.Contracts.Source.Dir.Collected.{
  IsInside, AreInside, join-inj, collected, leaves_in-AreInside, from_entries-archive,
}
use satunera.Contracts.Source.Dir.Listing.{
  spell_leaf, content-AreReadable, ends_in-spell_leaf, list_whole,
}

-- No place comes again.
abbrev AreOnce : List Leaf → Type 0
AreOnce [] = Unit
AreOnce (leaf ∷ xs) = (last_leaf leaf.0 xs ≡ none) × AreOnce xs

AreOnce-below : (name : Text) (xs : List Leaf) → AreOnce xs → AreOnce (map (below name) xs)
AreOnce-below name [] h = tt
AreOnce-below name (leaf ∷ xs) (p, h) = (
  last_leaf-below name name leaf.0 xs ∙ rw ((text_eq_iff name name).1 refl) p,
  AreOnce-below name xs h,
)

AreOnce-append :
    (xs ys : List Leaf)
    → AreOnce xs
    → AreOnce ys
    → All (λ leaf. last_leaf leaf.0 ys ≡ none) xs
    → AreOnce (xs ++ ys)
AreOnce-append [] ys h k away = k
AreOnce-append (leaf ∷ xs) ys (p, h) k (a, away) =
    (last_leaf-append leaf.0 xs ys ∙ rw (a, p) refl, AreOnce-append xs ys h k away)

away_below :
    (name : Text) (xs : List Leaf) (rest : Children)
    → named name rest ≡ none
    → AreContent rest
    → All (λ leaf. last_leaf leaf.0 (leaves_in rest) ≡ none) (map (below name) xs)
away_below name [] rest once h = tt
away_below name (leaf ∷ xs) rest once h = (
  last_leaf-leaves_in name leaf.0 rest h ∙ rw (once, at_from-none leaf.0) refl,
  away_below name xs rest once h,
)

mutual
  unfolding leaves last_leaf

  leaves-AreOnce : (node : Node) → IsContent node → AreOnce (leaves node)
  leaves-AreOnce (file mode none) h = absurd h
  leaves-AreOnce (file mode (some bytes)) h = (refl, tt)
  leaves-AreOnce (symlink target) h = absurd h
  leaves-AreOnce (directory mode readable children) (r, h) = leaves_in-AreOnce children h

  pub leaves_in-AreOnce : (children : Children) → AreContent children → AreOnce (leaves_in children)
  leaves_in-AreOnce end h = tt
  leaves_in-AreOnce (child name node rest) (s, once, p, h) =
      AreOnce-append (map (below name) (leaves node)) (leaves_in rest)
        (AreOnce-below name (leaves node) (leaves-AreOnce node p)) (leaves_in-AreOnce rest h)
        (away_below name (leaves node) rest once h)

any-spell_leaf :
    (p : Place) (xs : List Leaf)
    → IsInside p
    → AreInside xs
    → last_leaf p xs ≡ none
    → any (text_eq (join_with b'/' p)) (map spell_leaf xs) ≡ false
unfolding any last_leaf
any-spell_leaf p [] h k e = refl
any-spell_leaf p ((q, mode, bytes) ∷ xs) h (inside, k) e =
    elim (Bool-cases (text_eq (join_with b'/' p) (join_with b'/' q))) [
      | inl alike ↦
          let same = join-inj p q h inside ((text_eq_iff _ _).0 alike) in
          let met : place_eq q p ≡ true = rw same (place_eq_refl q) in ground arith
      | inr other ↦ rw other (any-spell_leaf p xs h k (ground arith))
    ]

pub spell_leaf-IsUnrepeated :
    (xs : List Leaf) → AreInside xs → AreOnce xs → IsUnrepeated text_eq (map spell_leaf xs)
spell_leaf-IsUnrepeated [] h k = tt
spell_leaf-IsUnrepeated ((p, mode, bytes) ∷ xs) (inside, h) (once, k) =
    (any-spell_leaf p xs inside h once, spell_leaf-IsUnrepeated xs h k)

-- The keys of the tree.
any-insert_entry :
    (key v : Text) (e : TarEntry) (xs : Entries)
    → any (text_eq v) (keys (insert_entry key e xs)) ≡ (text_eq v key || any (text_eq v) (keys xs))
unfolding any insert_entry
any-insert_entry key v e [] = refl
any-insert_entry key v e ((k, f) ∷ xs) =
    ground (arith, any-insert_entry key v e xs, text_eq_iff key k)

any-collected :
    (v : Text) (xs : List Leaf) (entries : Entries)
    → any (text_eq v) (keys (collected xs entries))
      ≡ (any (text_eq v) (map spell_leaf xs) || any (text_eq v) (keys entries))
unfolding any
any-collected v [] entries = refl
any-collected v ((place, mode, bytes) ∷ xs) entries =
    any-collected v xs _
    ∙ rw (any-insert_entry (join_with b'/' place) v (record { mode = mode; bytes = bytes }) entries)
        (ground arith)

Before-trans : (a b c : Text) → Before a b → Before b c → Before a c
Before-trans a b c (ab, apart) (bc, _) = (
  text_le_trans a b c ab bc,
  elim (Bool-cases (text_eq a c)) [
    | inl same ↦
        let e : c ≡ a = sym ((text_eq_iff a c).0 same) in
        let back : text_le b a ≡ true = rw (← e) bc in
        let met = (text_eq_iff a b).1 (text_le_antisym a b ab back) in cc
    | inr other ↦ other
  ],
)

All-Before :
    (a b : Text) (ks : List Text)
    → Before a b
    → All (Below text_le text_eq b) ks
    → All (Below text_le text_eq a) ks
All-Before a b [] p h = tt
All-Before a b (c ∷ ks) p (q, h) = (Before-trans a b c p q, All-Before a b ks p h)

pub IsSorted-Climbs : (ks : List Text) → IsSorted ks → Climbs text_le text_eq ks
IsSorted-Climbs [] h = tt
IsSorted-Climbs (k ∷ []) h = (tt, tt)
IsSorted-Climbs (k ∷ j ∷ ks) (p, h) =
    let later = IsSorted-Climbs (j ∷ ks) h in ((p, All-Before k j ks p later.0), later)

module _ (fs : FileSystem) (source : DirSource) (children : Children)
    (holds : Holds fs source children) where
  dir_list_whole :
      Dir.list fs source [] ≡ ok (sort_by text_le (map spell_leaf (leaves_in children)))
  dir_list_whole =
      list_whole fs source holds.mode children holds.stands
        (content-AreReadable children holds.content)
      ∙ ap (λ l. ok (sort_by text_le l)) (ends_in-spell_leaf children holds.content)

  pub same_paths :
      (tar : TarSource)
      → record { entries = collected (leaves_in children) [] } ≡ tar
      → IsTree tar
      → sort_by text_le (map spell_leaf (leaves_in children)) ≡ keys tar.entries
  unfolding any
  same_paths tar built tree =
      let inside = leaves_in-AreInside children holds.content in
      let once = leaves_in-AreOnce children holds.content in
      Climbs-unique text_le-IsLinear _ _
        (sort_by-Climbs text_le-IsLinear _
          (spell_leaf-IsUnrepeated (leaves_in children) inside once))
        (IsSorted-Climbs (keys tar.entries) tree.sorted)
        (λ v.
          any-sort_by text_le-IsLinear (text_eq v) (map spell_leaf (leaves_in children))
          ∙ rw (← built, any-collected v (leaves_in children) []) (ground arith))

  -- The whole tree is listed alike: the same paths, each once, in the same order.
  pub list-archive :
      (tar : TarSource)
      → from_entries (archive children) ≡ ok tar
      → Dir.list fs source [] ≡ Tar.list [] tar
  unfolding Tar.list
  list-archive tar e =
      let built = ok_inj (sym (from_entries-archive children holds.content) ∙ e) in
      dir_list_whole ∙ ap ok (same_paths tar built (from_entries-IsTree (archive children) tar e))
